-- ===== src/Db.antt =====
-- The node's database: crates/client/db.
pub mod Column
pub mod Rocks
pub mod Mapping
pub mod Meta
pub mod Da
pub mod L1Fee
pub mod Bonsai
pub mod Storage
pub mod Samples
mod Tests
