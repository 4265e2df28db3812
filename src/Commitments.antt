-- ===== src/Commitments.antt =====
-- The commitments of a block that is synced: crates/client/sync/src/commitments.
pub mod Leaves
pub mod Memory
pub mod Signatures
pub mod Contracts
pub mod Roots
mod Tests
