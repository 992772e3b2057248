-- ===== src/Inflate.antt =====
-- The zlib decompressor of chain/crates/rami-gui/src/city3d.js (`buildTree` and `inflate`). Bytes
-- are natural numbers; the output is kept reversed, so that a copy reads at `distance - 1`. A read
-- outside an array gives `undefined`, which is 0 as a bit or byte, and `none` as a symbol.
mod Tables
pub mod Reader
pub mod Tree
pub mod Codes
pub mod Blocks
pub mod Spent
pub mod Stored
pub mod Symbols
pub mod Fuel
pub mod Tests
