-- ===== src/MappingSync.antt =====
-- The worker that fills the mapping database: crates/client/mapping-sync.
pub mod Action
pub mod Step
pub mod Sync
pub mod Frame
pub mod Consistent
pub mod Worker
mod Tests
