-- ===== src/Pallet.antt =====
-- The Starknet pallet: crates/pallets/starknet/src/lib.rs.
pub mod CallInfo
pub mod Emission
pub mod State
pub mod Hooks
pub mod Blocks
pub mod Updates
pub mod Adapter
mod Tests
