-- ===== src/Umbral.antt =====
-- The interiors (city/umbral.js): the state inside a house, the operations on it, and the guided walks.
pub mod Estado
pub mod Pisos
pub mod Anotados
pub mod Guardado
pub mod Salas
pub mod Casas
pub mod Choques
pub mod Limites
pub mod Patios
pub mod ChoquesTests
pub mod Pasos
pub mod Recorridos
pub mod Muebles
pub mod Teclas
pub mod Dentro
pub mod Rondas
pub mod Entradas
pub mod Luces
pub mod Manos
pub mod Visitas
pub mod Tests
