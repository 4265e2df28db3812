-- ===== src/Header.antt =====
-- The header of a block: crates/primitives/block/src/header.rs.
pub mod Hashing
mod Tests
