-- ===== src/Rpc/TransactionReads.antt =====
-- The read handlers of transactions: get_transaction_by_hash.rs, get_transaction_by_block_id_and_index.rs
-- and get_transaction_status.rs of crates/client/rpc/src/methods/read.
use deoxys.Base.{ℕ, Option, none, some, List, [], ◌∷◌, if◌then◌else◌, get_elem?}
use deoxys.Base.Outcome.{Result, ok, ◌>>=◌, map_err, ok_or}
use deoxys.Base.Assoc.{Eq, ◌==◌}
use deoxys.Rpc.Types.{BlockId, internal_server_error, txn_hash_not_found, invalid_txn_index}
use deoxys.Rpc.Server.{
  RpcError, api, custom, Block, Server, block_hash_or_error, get_cached_transaction_hashes,
  chain_id, core_tx, substrate_block_hash_from_starknet_block,
}

pub data TransactionExecutionStatus : Type 0 where
  succeeded reverted : TransactionExecutionStatus

module _ {F Tx : Type 0} ⦃e : Eq F⦄ where
  -- `into_iter().zip(transactions).find(..)`
  abbrev pub find_cached : F → List F → List Tx → Option Tx
  find_cached h [] txs = none
  find_cached h (k ∷ hashes) [] = none
  find_cached h (k ∷ hashes) (tx ∷ txs) =
      let rest = find_cached h hashes txs in if k == h then some tx else rest

  abbrev pub find_computed : (Tx → F) → F → List Tx → Option Tx
  find_computed compute h [] = none
  find_computed compute h (tx ∷ txs) =
      let rest = find_computed compute h txs in if compute tx == h then some tx else rest

  abbrev pub find_tx : Option (List F) → (Tx → F) → F → List Tx → Option Tx
  find_tx (some hashes) compute h txs = find_cached h hashes txs
  find_tx none compute h txs = find_computed compute h txs

module _ {F : Type 0} where
  -- The hash of the transaction at an index: from the cache where the block is in it.
  abbrev pub hash_at : Option (List F) → ℕ → F → Result RpcError F
  hash_at (some hashes) index computed = ok_or (get_elem? hashes index) custom
  hash_at none index computed = ok computed

abbrev pub status_of : Option (Unit {0}) → TransactionExecutionStatus
status_of none = succeeded
status_of (some revert) = reverted

module _ {F H Tx Class Abi RpcClass : Type 0} ⦃e : Eq F⦄ ⦃eh : Eq H⦄
    (s : Server F H Tx Class Abi RpcClass) where
  abbrev pub block_of_transaction : F → Result RpcError (H × Block F Tx)
  block_of_transaction transaction_hash = do
    found ←
        map_err (λ _. api txn_hash_not_found) (s.block_hash_from_transaction_hash transaction_hash)
    h ← ok_or found (api txn_hash_not_found)
    block ← s.get_block_by_block_hash h
    ok (h, block)

  unfoldable pub get_transaction_by_hash : F → Result RpcError s.RpcTx
  unfolding chain_id get_cached_transaction_hashes core_tx
  get_transaction_by_hash transaction_hash = do
    at_block ← block_of_transaction transaction_hash
    chain ← chain_id s
    tx ←
        ok_or
          (find_tx (get_cached_transaction_hashes s at_block.1.block_hash)
            (λ tx. s.compute_hash tx chain at_block.1.block_number) transaction_hash
            at_block.1.transactions)
          (api txn_hash_not_found)
    core_tx s tx transaction_hash

  unfoldable pub get_transaction_by_block_id_and_index : BlockId F → ℕ → Result RpcError s.RpcTx
  unfolding chain_id get_cached_transaction_hashes substrate_block_hash_from_starknet_block core_tx
  get_transaction_by_block_id_and_index block_id index = do
    h ← block_hash_or_error s block_id
    block ← s.get_block_by_block_hash h
    tx ← ok_or (get_elem? block.transactions index) (api invalid_txn_index)
    chain ← chain_id s
    transaction_hash ←
        hash_at (get_cached_transaction_hashes s block.block_hash) index
          (s.compute_hash tx chain block.block_number)
    core_tx s tx transaction_hash

  -- `find_tx.map(to_starknet_core_tx)`, whose value is dropped.
  abbrev pub converted : F → Option Tx → Result RpcError (Unit {0})
  converted transaction_hash none = ok tt
  converted transaction_hash (some tx) = core_tx s tx transaction_hash >>= λ answer. ok tt

  unfoldable pub get_transaction_status : F → Result RpcError TransactionExecutionStatus
  unfolding chain_id get_cached_transaction_hashes core_tx
  get_transaction_status transaction_hash = do
    at_block ← block_of_transaction transaction_hash
    chain ← chain_id s
    dropped ← converted transaction_hash (
        find_tx (get_cached_transaction_hashes s at_block.1.block_hash)
          (λ tx. s.compute_hash tx chain at_block.1.block_number) transaction_hash
          at_block.1.transactions)
    revert_error ←
        map_err (λ _. api internal_server_error)
          (s.get_tx_execution_outcome at_block.0 transaction_hash)
    ok (status_of revert_error)
