-- ===== src/Rpc/Types.antt =====
-- What the RPC handlers share: block ids, the API's errors, emitted events
-- (crates/client/rpc/src/errors.rs, and the starknet-core types that the handlers take and return).
use deoxys.Base.{ℕ, Bool, true, false, Option, some, List}

-- `BlockTag` and `BlockId` of starknet-core, over the type of hashes.
pub data BlockTag : Type 0 where
  latest pending : BlockTag

pub data BlockId (F : Type 0) : Type 0 where
  hash : F → BlockId F
  number : ℕ → BlockId F
  tag : BlockTag → BlockId F

-- `block_id == Some(BlockId::Tag(BlockTag::Pending))`
abbrev pub is_pending : {F : Type 0} → Option (BlockId F) → Bool
is_pending (some (BlockId.tag BlockTag.pending)) = true
is_pending _ = false

-- The variants of `StarknetRpcApiError` that the modelled handlers return.
pub data StarknetRpcApiError : Type 0 where
  block_not_found page_size_too_big too_many_keys invalid_continuation_token : StarknetRpcApiError
  internal_server_error contract_not_found class_hash_not_found : StarknetRpcApiError
  txn_hash_not_found invalid_txn_index no_blocks unimplemented_method : StarknetRpcApiError

pub record EmittedEvent (F : Type 0) : Type 0 where
  pub from_address : F
  pub keys : List F
  pub values : List F
  pub block_hash : Option F
  pub block_number : Option ℕ
  pub transaction_hash : F
