-- ===== src/Rpc/Server.antt =====
-- The server behind the RPC handlers: `Starknet` of crates/client/rpc/src/lib.rs and the helpers of
-- madara_backend_client.rs and utils.rs. The client, the databases, the overrides and the runtime are
-- parameters, by what they answer.
use deoxys.Base.{ℕ, ◌≡◌, Bool, false, Option, none, some, List, [], ◌∷◌, if◌then◌else◌}
use deoxys.Base.Outcome.{Result, ok, err, ◌>>=◌, map_err, ok_or}
use deoxys.Base.Assoc.{Eq, ◌==◌}
use deoxys.Rpc.Types.{
  BlockId, hash, number, tag, StarknetRpcApiError, block_not_found, internal_server_error,
}

-- An error of the API, another error that the server reports, or a panic.
pub data RpcError : Type 0 where
  api : StarknetRpcApiError → RpcError
  custom panicked : RpcError

-- The prices of a header; data availability, where the L1 data is.
pub record GasPrices : Type 0 where
  pub eth_l1_gas_price : ℕ
  pub strk_l1_gas_price : ℕ
  pub eth_l1_data_gas_price : ℕ
  pub strk_l1_data_gas_price : ℕ

pub data DaMode : Type 0 where
  calldata blob : DaMode

-- A Starknet block: its header with its hash, and its transactions. A version that is no UTF-8 is `none`.
pub record Block (F Tx : Type 0) : Type 0 where
  pub block_hash : F
  pub block_number : ℕ
  pub parent_block_hash : F
  pub global_state_root : F
  pub block_timestamp : ℕ
  pub sequencer_address : F
  pub l1_gas_price : Option GasPrices
  pub l1_da_mode : DaMode
  pub protocol_version : Option (List ℕ)
  pub transaction_count : ℕ
  pub transactions : List Tx

-- `H` are the hashes of Substrate blocks, `Class`, `Abi` and `RpcClass` those of contract classes, and
-- `RpcTx` the transactions of the answers, which `to_starknet_core_tx` of
-- crates/primitives/transactions/src/to_starknet_core_transaction.rs gives for a transaction and a hash; its
-- panic is `none`.
pub record Server (F H Tx Class Abi RpcClass : Type 0) : Type 1 where
  pub RpcTx : Type 0
  pub to_starknet_core_tx : Tx → F → Option RpcTx
  pub best_number : ℕ
  pub best_hash : H
  pub client_hash : ℕ → Result (Unit {0}) (Option H)
  pub client_number : H → Result (Unit {0}) (Option ℕ)
  pub get_block_by_block_hash : H → Result RpcError (Block F Tx)
  pub mapped_block_hashes : F → Result (Unit {0}) (Option (List H))
  pub block_hash_from_transaction_hash : F → Result (Unit {0}) (Option H)
  pub cached_transaction_hashes : F → Result (Unit {0}) (Option (List F))
  pub config_chain_id : Option F
  pub contract_class_by_class_hash : H → F → Option Class
  pub contract_abi_by_class_hash : H → F → Option Abi
  pub contract_class_by_address : H → F → Option Class
  pub contract_abi_by_address : H → F → Option Abi
  pub contract_class_hash_by_address : H → F → Option F
  pub nonce : H → F → Option F
  pub to_rpc_class : Class → Abi → Option RpcClass
  pub compute_hash : Tx → F → ℕ → F
  pub get_tx_execution_outcome : H → F → Result (Unit {0}) (Option (Unit {0}))

module _ {F H Tx Class Abi RpcClass : Type 0} (s : Server F H Tx Class Abi RpcClass) where
  -- The transaction of an answer.
  unfoldable pub core_tx : Tx → F → Result RpcError s.RpcTx
  core_tx tx transaction_hash = ok_or (s.to_starknet_core_tx tx transaction_hash) panicked

  -- The hash that an answer gives for a transaction is the one that it was made with.
  pub record KeepsHash : Type 0 where
    pub hash_of : s.RpcTx → F
    pub hash_of-to_starknet_core_tx :
        (tx : Tx) (h : F) (answer : s.RpcTx)
        → s.to_starknet_core_tx tx h ≡ some answer
        → hash_of answer ≡ h

module _ {F H Tx Class Abi RpcClass : Type 0} ⦃e : Eq F⦄ ⦃eh : Eq H⦄
    (s : Server F H Tx Class Abi RpcClass) where
  abbrev pub is_at : Result (Unit {0}) (Option H) → H → Bool
  is_at (ok (some h)) target = h == target
  is_at (ok none) target = false
  is_at (err e) target = false

  abbrev pub canon_at : Result (Unit {0}) (Option ℕ) → H → Bool
  canon_at (ok (some n)) target = is_at (s.client_hash n) target
  canon_at (ok none) target = false
  canon_at (err e) target = false

  unfoldable pub is_canon : H → Bool
  is_canon target = canon_at (s.client_number target) target

  abbrev pub first_canon : List H → Option H
  first_canon [] = none
  first_canon (h ∷ hs) = let rest = first_canon hs in if is_canon h then some h else rest

  abbrev pub canon_of : Option (List H) → Option H
  canon_of none = none
  canon_of (some hs) = first_canon hs

  unfoldable pub load_hash : F → Result (Unit {0}) (Option H)
  unfolding is_canon
  load_hash h = s.mapped_block_hashes h >>= λ hs. ok (canon_of hs)

  abbrev pub found_hash : BlockId F → Result StarknetRpcApiError (Option H)
  found_hash (hash h) = map_err (λ _. block_not_found) (load_hash h)
  found_hash (number n) = map_err (λ _. block_not_found) (s.client_hash n)
  found_hash (tag t) = ok (some s.best_hash)

  unfoldable pub substrate_block_hash_from_starknet_block : BlockId F → Result StarknetRpcApiError H
  unfolding load_hash
  substrate_block_hash_from_starknet_block block_id =
      found_hash block_id >>= λ h. ok_or h block_not_found

  abbrev pub block_number_of : Result StarknetRpcApiError H → Result StarknetRpcApiError ℕ
  block_number_of r = do
    h ← r
    block ← map_err (λ _. block_not_found) (s.get_block_by_block_hash h)
    ok block.block_number

  unfoldable pub substrate_block_number_from_starknet_block :
      BlockId F → Result StarknetRpcApiError ℕ
  unfolding substrate_block_hash_from_starknet_block
  substrate_block_number_from_starknet_block (number n) = ok n
  substrate_block_number_from_starknet_block (hash h) =
      block_number_of (substrate_block_hash_from_starknet_block (hash h))
  substrate_block_number_from_starknet_block (tag t) =
      block_number_of (substrate_block_hash_from_starknet_block (tag t))

  unfoldable pub current_block_number : ℕ
  current_block_number = s.best_number

  unfoldable pub current_block_hash : Result StarknetRpcApiError F
  current_block_hash = do
    block ← map_err (λ _. block_not_found) (s.get_block_by_block_hash s.best_hash)
    ok block.block_hash

  abbrev pub or_none : Result (Unit {0}) (Option (List F)) → Option (List F)
  or_none (ok hashes) = hashes
  or_none (err e) = none

  unfoldable pub get_cached_transaction_hashes : F → Option (List F)
  get_cached_transaction_hashes h = or_none (s.cached_transaction_hashes h)

  unfoldable pub chain_id : Result RpcError F
  chain_id = ok_or s.config_chain_id (api internal_server_error)

  -- The Substrate hash of a block, for the handlers: each failure is a missing block.
  abbrev pub block_hash_or_error : BlockId F → Result RpcError H
  block_hash_or_error block_id =
      map_err (λ _. api block_not_found) (substrate_block_hash_from_starknet_block block_id)
