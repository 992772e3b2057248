-- ===== src/Vida.antt =====
-- The people of the city in chain/crates/rami-gui/src/city/vida.js: the draws, who works where
-- (`recluta`, `zonasDeOficina`, `gravedad`, `destino`) and each one's day (`agenda`).
pub mod Azar
pub mod Sorteo
pub mod Diario
pub mod Agenda
pub mod Empleo
pub mod Oficinas
pub mod Caminos
pub mod Rutas
pub mod Obra
pub mod Calle
pub mod Cuadro
pub mod Empujones
pub mod Enteros
pub mod Tests
