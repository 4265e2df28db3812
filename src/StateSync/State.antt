-- ===== src/StateSync/State.antt =====
-- The shared state of the sync, which crates/client/sync/src/l1.rs and l2.rs keep behind locks. A lock is
-- poisoned only by a panic of its holder, which is not modelled.
use deoxys.Base.{ℕ, Option, none}

-- `L1StateUpdate` and `L2StateUpdate`
pub record Verified (Fe : Type 0) : Type 0 where
  pub block_number : ℕ
  pub global_root : Fe
  pub block_hash : Fe

pub data SyncStatus : Type 0 where
  sync_verified_state sync_unverified_state sync_pending_state : SyncStatus

-- The statics: ETHEREUM_STATE_UPDATE, STARKNET_STATE_UPDATE, SYNC_STATUS,
-- STARKNET_HIGHEST_BLOCK_HASH_AND_NUMBER, STARKNET_PENDING_BLOCK and STARKNET_PENDING_STATE_UPDATE.
pub record Shared (Fe Block Update : Type 0) : Type 0 where
  pub ethereum_state_update : Verified Fe
  pub starknet_state_update : Verified Fe
  pub sync_status : SyncStatus
  pub highest_block_hash_and_number : Fe × ℕ
  pub pending_block : Option Block
  pub pending_state_update : Option Update

-- `lazy_static!`, from the default felt.
abbrev pub initial : {Fe Block Update : Type 0} → Fe → Shared Fe Block Update
initial zero = record {
  ethereum_state_update = record { block_number = 0; global_root = zero; block_hash = zero };
  starknet_state_update = record { block_number = 0; global_root = zero; block_hash = zero };
  sync_status = sync_verified_state;
  highest_block_hash_and_number = (zero, 0);
  pending_block = none;
  pending_state_update = none;
}
