-- ===== src/Rpc/BlockReceipts.antt =====
-- `starknet_getBlockWithReceipts` and `starknet_syncing`: get_block_with_receipts.rs and syncing.rs of
-- crates/client/rpc/src/methods/read. `none` is the end of the fuel that the receipts run on.
use deoxys.Base.{ℕ, Bool, true, false, Option, none, some, List, [], ◌∷◌}
use deoxys.Base.Opt.{◌>>=◌ as also}
use deoxys.Base.Outcome.{Result, ok, err, ◌>>=◌, map_err}
use deoxys.Base.Assoc.{Eq}
use deoxys.Rpc.Types.{BlockId, internal_server_error}
use deoxys.Rpc.Server.{
  RpcError, api, panicked, Block, Server, block_hash_or_error, chain_id,
  substrate_block_hash_from_starknet_block,
}
use deoxys.Rpc.Receipts.{
  Kind, Executable, ExecutionInfo, Receipt, all_then, get_transaction_receipt_finalized,
}
use deoxys.Rpc.BlockReads.{MaybePending, head_of, accepted, pending_of, asks_pending, status}

-- `starknet_core`'s answer.
pub data SyncStatusType (F : Type 0) : Type 0 where
  not_syncing : SyncStatusType F
  syncing : ℕ → F → ℕ → F → ℕ → F → SyncStatusType F

-- `unwrap()`
abbrev pub unwrapped : {X : Type 0} → Result RpcError X → Result RpcError X
unwrapped (ok x) = ok x
unwrapped (err e) = err panicked

-- `is_ok()` of the three blocks, where none was a panic.
abbrev pub or_not_syncing :
    {F X : Type 0}
    → Result RpcError (Option X)
    → (X → Result RpcError (SyncStatusType F))
    → Result RpcError (SyncStatusType F)
or_not_syncing (err e) next = err e
or_not_syncing (ok none) next = ok not_syncing
or_not_syncing (ok (some x)) next = next x

module _ {F H Tx Class Abi RpcClass : Type 0} ⦃e : Eq F⦄ ⦃eh : Eq H⦄
    (s : Server F H Tx Class Abi RpcClass) where
  -- `starknet_block_from_substrate_hash`: a block whose header cannot be read is a panic.
  abbrev pub block_at : Result (Unit {0}) (Option H) → Result RpcError (Option (Block F Tx))
  block_at (ok (some h)) = unwrapped (s.get_block_by_block_hash h) >>= λ b. ok (some b)
  block_at (ok none) = ok none
  block_at (err e) = ok none

  unfoldable pub starknet_block_from_substrate_hash : ℕ → Result RpcError (Option (Block F Tx))
  starknet_block_from_substrate_hash n = block_at (s.client_hash n)

  abbrev pub highest_seen : Option ℕ → ℕ
  highest_seen none = s.best_number
  highest_seen (some n) = n

  -- The numbers of the answer are those of the chain, the highest block that of the sync of L2.
  unfoldable pub syncing_status :
      Result (Unit {0}) (Option ℕ) → ℕ → F × ℕ → Result RpcError (SyncStatusType F)
  unfolding starknet_block_from_substrate_hash
  syncing_status (err e) starting_block highest = ok not_syncing
  syncing_status (ok best_seen) starting_block highest = do
    start ← starknet_block_from_substrate_hash starting_block
    current ← starknet_block_from_substrate_hash s.best_number
    seen ← starknet_block_from_substrate_hash (highest_seen best_seen)
    or_not_syncing (ok start) λ start_block. or_not_syncing (ok current) λ current_block.
        or_not_syncing (ok seen) λ seen_block. ok (
          syncing starting_block start_block.block_hash s.best_number current_block.block_hash
            highest.1 highest.0)

  module _ (kind : Tx → Kind F) (default_class_compiles : Bool) (fee_paid : F → Result (Unit {0}) ℕ)
      {A E M Reason : Type 0}
      (re_execute : H
        → List (Executable F Tx)
        → List (Executable F Tx)
        → Result (Unit {0}) (List (ExecutionInfo A E M Reason)))
      (l1_block_number : ℕ) where
    -- The transaction is converted before its receipt is asked for; the receipt is unwrapped.
    abbrev pub with_receipt :
        Option s.RpcTx
        → Option (Result RpcError (Receipt F A E M Reason))
        → Option (Result RpcError (s.RpcTx × Receipt F A E M Reason))
    with_receipt none receipt = some (err panicked)
    with_receipt (some transaction) none = none
    with_receipt (some transaction) (some (ok receipt)) = some (ok (transaction, receipt))
    with_receipt (some transaction) (some (err e)) = some (err panicked)

    abbrev pub all_receipts :
        ℕ → F → H → ℕ → List Tx → Option (Result RpcError (List (s.RpcTx × Receipt F A E M Reason)))
    all_receipts fuel chain h n [] = some (ok [])
    all_receipts fuel chain h n (tx ∷ txs) =
        also
          (with_receipt (s.to_starknet_core_tx tx (s.compute_hash tx chain n)) (
            get_transaction_receipt_finalized s kind default_class_compiles fee_paid re_execute
              l1_block_number fuel chain h (s.compute_hash tx chain n)))
          λ receipt. all_then receipt (all_receipts fuel chain h n txs)

    abbrev pub answered :
        Bool
        → Block F Tx
        → Result RpcError (List (s.RpcTx × Receipt F A E M Reason))
        → Result RpcError (MaybePending F (s.RpcTx × Receipt F A E M Reason))
    answered true b receipts = receipts >>= pending_of b
    answered false b receipts = receipts >>= accepted l1_block_number b

    abbrev pub receipts_of :
        ℕ
        → Bool
        → Result RpcError (H × Block F Tx × F)
        → Option (Result RpcError (MaybePending F (s.RpcTx × Receipt F A E M Reason)))
    receipts_of fuel is_pending (err e) = some (err e)
    receipts_of fuel is_pending (ok (h, b, chain)) =
        also (all_receipts fuel chain h b.block_number b.transactions)
          λ receipts. some (answered is_pending b receipts)

    -- Every tag stands for the best block here, the pending one too.
    unfoldable pub get_block_with_receipts :
        ℕ → BlockId F → Option (Result RpcError (MaybePending F (s.RpcTx × Receipt F A E M Reason)))
    unfolding get_transaction_receipt_finalized chain_id head_of status
        substrate_block_hash_from_starknet_block
    get_block_with_receipts fuel block_id = receipts_of fuel (asks_pending block_id) (do
      h ← block_hash_or_error s block_id
      b ← map_err (λ _. api internal_server_error) (s.get_block_by_block_hash h)
      chain ← chain_id s
      ok (h, b, chain))
