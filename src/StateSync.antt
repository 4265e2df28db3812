-- ===== src/StateSync.antt =====
-- The sync of Starknet's state: crates/client/sync/src/l1.rs, l2.rs and fetch/fetchers.rs.
pub mod State
pub mod L1
pub mod L2
pub mod Statuses
mod Deliveries
pub mod Fetch
mod Classes
mod Tests
