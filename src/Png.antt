-- ===== src/Png.antt =====
-- The PNG decoder of chain/crates/rami-gui/src/city3d.js (`parsePng`, `unfilterPng`,
-- `decodePngGray`, `decodePngGrayAsync`).
pub mod Parse
pub mod Unfilter
pub mod Filters
pub mod Chunks
pub mod Total
pub mod Written
pub mod Async
pub mod Tests
pub mod Decode
