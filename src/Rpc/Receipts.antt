-- ===== src/Rpc/Receipts.antt =====
-- `starknet_getTransactionReceipt`: crates/client/rpc/src/methods/read/get_transaction_receipt.rs. The
-- functions that convert a declare transaction call themselves again, so they run on fuel, and `none` is
-- the end of the fuel.
use deoxys.Base.{
  ℕ, zero, suc, ◌+◌, ◌-◌, ◌%◌, ◌^◌, Bool, true, false, Option, none, some, List, [], ◌∷◌,
  if◌then◌else◌, get_elem?, take, filter, map, leb,
}
use deoxys.Base.Opt.{◌>>=◌ as also}
use deoxys.Base.Outcome.{Result, ok, err, ◌>>=◌, map_err, ok_or}
use deoxys.Base.Assoc.{Eq, ◌==◌}
use deoxys.Pallet.CallInfo.{CallInfo}
use deoxys.Rpc.CallInfo.{extract_events_from_call_info, extract_messages_from_call_info}
use deoxys.Rpc.Types.{number, internal_server_error, unimplemented_method}
use deoxys.Rpc.Server.{
  RpcError, api, panicked, Block, Server, get_cached_transaction_hashes, chain_id,
  substrate_block_hash_from_starknet_block,
}

pub data DeclareVersion : Type 0 where
  v0 v1 v2 v3 : DeclareVersion

-- What the receipt tells apart of `starknet_api`'s transactions; a declare transaction has its class hash.
pub data Kind (F : Type 0) : Type 0 where
  invoke deploy_account deploy l1_handler : Kind F
  declare : DeclareVersion → F → Kind F

-- `blockifier`'s transactions that are built here.
pub data Executable (F Tx : Type 0) : Type 0 where
  invoke_transaction deploy_account_transaction : Tx → F → Executable F Tx
  l1_handler_transaction : Tx → F → ℕ → Executable F Tx

pub data Finality : Type 0 where
  accepted_on_l1 accepted_on_l2 : Finality

pub record ExecutionInfo (A E M Reason : Type 0) : Type 0 where
  pub actual_fee : ℕ
  pub revert_error : Option Reason
  pub execute_call_info : Option (CallInfo A E M)

pub record Receipt (F A E M Reason : Type 0) : Type 0 where
  pub kind : Kind F
  pub transaction_hash : F
  pub actual_fee : ℕ
  pub finality_status : Finality
  pub execution_result : Option Reason
  pub messages_sent : List (A × M)
  pub events : List (A × E)
  pub receipt_block_hash : F
  pub receipt_block_number : ℕ

abbrev pub is_deploy : {F : Type 0} → Kind F → Bool
is_deploy deploy = true
is_deploy invoke = false
is_deploy deploy_account = false
is_deploy l1_handler = false
is_deploy (declare v h) = false

-- The first failure ends the collection.
abbrev pub all_then :
    {X : Type 0}
    → Result RpcError X
    → Option (Result RpcError (List X))
    → Option (Result RpcError (List X))
all_then (err e) rest = some (err e)
all_then (ok x) none = none
all_then (ok x) (some (err e)) = some (err e)
all_then (ok x) (some (ok xs)) = some (ok (x ∷ xs))

-- What `tx_declare_v2` and `tx_declare_v0v1` go on with: a call of their own, or of the other.
abbrev pub after_class :
    {X : Type 0} → Bool → DeclareVersion → Option (Result RpcError X) → Option (Result RpcError X)
after_class false version again = some (err (api internal_server_error))
after_class true v2 again = again
after_class true v0 again = some (err panicked)
after_class true v1 again = some (err panicked)
after_class true v3 again = some (err panicked)

abbrev pub after_lookup :
    {X Class : Type 0}
    → Option Class
    → DeclareVersion
    → Option (Result RpcError X)
    → Option (Result RpcError X)
    → Option (Result RpcError X)
after_lookup none version again other = some (err (api internal_server_error))
after_lookup (some class) v0 again other = again
after_lookup (some class) v1 again other = again
after_lookup (some class) v2 again other = other
after_lookup (some class) v3 again other = some (err panicked)

abbrev pub next_place : Option ℕ → Option ℕ
next_place none = none
next_place (some n) = some (suc n)

-- `iter().enumerate().find(|(_, hash)| hash == &transaction_hash)`
abbrev pub position : {F : Type 0} → ⦃e : Eq F⦄ → F → List F → Option ℕ
position h [] = none
position h (k ∷ hashes) = let rest = position h hashes in if k == h then some 0 else next_place rest

abbrev pub hashes_of : {F Tx : Type 0} → Option (List F) → (Tx → F) → List Tx → List F
hashes_of (some hashes) compute txs = hashes
hashes_of none compute txs = map compute txs

-- `split_last()`: the last transaction alone, and those before it.
abbrev pub before_last : {X : Type 0} → List X → List X
before_last [] = []
before_last (x ∷ []) = []
before_last (x ∷ y ∷ rest) = x ∷ before_last (y ∷ rest)

abbrev pub last_of : {X : Type 0} → List X → List X
last_of [] = []
last_of (x ∷ []) = x ∷ []
last_of (x ∷ y ∷ rest) = last_of (y ∷ rest)

-- `pop()`
abbrev pub pop : {X : Type 0} → List X → Option X
pop [] = none
pop (x ∷ []) = some x
pop (x ∷ y ∷ rest) = pop (y ∷ rest)

abbrev pub events_or_none : {A E M : Type 0} → Option (CallInfo A E M) → List (A × E)
events_or_none none = []
events_or_none (some call) = extract_events_from_call_info call

abbrev pub messages_or_none : {A E M : Type 0} → Option (CallInfo A E M) → List (A × M)
messages_or_none none = []
messages_or_none (some call) = extract_messages_from_call_info call

module _ {F H Tx Class Abi RpcClass : Type 0} ⦃e : Eq F⦄ ⦃eh : Eq H⦄
    (s : Server F H Tx Class Abi RpcClass) (kind : Tx → Kind F) where
  -- `sierra_to_casm_contract_class` of the default class, and the conversion of its result: whether both
  -- succeed.
  module _ (default_class_compiles : Bool) where
    unfoldable pub tx_declare_v2 : ℕ → DeclareVersion → Option (Result RpcError (Executable F Tx))
    tx_declare_v2 zero version = none
    tx_declare_v2 (suc fuel) version =
        after_class default_class_compiles version (tx_declare_v2 fuel version)

    unfoldable pub tx_declare_v0v1 :
        ℕ → H → DeclareVersion → F → Option (Result RpcError (Executable F Tx))
    unfolding tx_declare_v2
    tx_declare_v0v1 zero h version class_hash = none
    tx_declare_v0v1 (suc fuel) h version class_hash =
        after_lookup (s.contract_class_by_class_hash h class_hash) version
          (tx_declare_v0v1 fuel h version class_hash) (tx_declare_v2 fuel version)

    unfoldable pub tx_declare :
        ℕ → H → DeclareVersion → F → Option (Result RpcError (Executable F Tx))
    unfolding tx_declare_v0v1 tx_declare_v2
    tx_declare fuel h v0 class_hash = tx_declare_v0v1 fuel h v0 class_hash
    tx_declare fuel h v1 class_hash = tx_declare_v0v1 fuel h v1 class_hash
    tx_declare fuel h v2 class_hash = tx_declare_v2 fuel v2
    tx_declare fuel h v3 class_hash = some (err panicked)

    -- `get_fee_paid_for_l1_handler_tx` of the database.
    module _ (fee_paid : F → Result (Unit {0}) ℕ) where
      unfoldable pub tx_l1_handler : F → ℕ → Tx → Result RpcError (Executable F Tx)
      tx_l1_handler chain block_number tx = do
        paid_fee ←
            map_err (λ _. api internal_server_error)
              (fee_paid (s.compute_hash tx chain block_number))
        ok (l1_handler_transaction tx (s.compute_hash tx chain block_number) paid_fee)

      abbrev pub executable :
          ℕ → H → F → ℕ → Tx → Kind F → Option (Result RpcError (Executable F Tx))
      executable fuel h chain n tx invoke =
          some (ok (invoke_transaction tx (s.compute_hash tx chain n)))
      executable fuel h chain n tx deploy_account =
          some (ok (deploy_account_transaction tx (s.compute_hash tx chain n)))
      executable fuel h chain n tx (declare version class_hash) =
          tx_declare fuel h version class_hash
      executable fuel h chain n tx l1_handler = some (tx_l1_handler chain n tx)
      executable fuel h chain n tx deploy = some (err panicked)

      -- `.collect::<Result<Vec<_>, _>>()`
      abbrev pub all_executable :
          ℕ → H → F → ℕ → List Tx → Option (Result RpcError (List (Executable F Tx)))
      all_executable fuel h chain n [] = some (ok [])
      all_executable fuel h chain n (tx ∷ txs) =
          also (executable fuel h chain n tx (kind tx))
            λ first. all_then first (all_executable fuel h chain n txs)

      unfoldable pub transactions :
          ℕ → H → F → Block F Tx → ℕ → Option (Result RpcError (List (Executable F Tx)))
      unfolding tx_declare tx_l1_handler
      transactions fuel h chain block tx_index = all_executable fuel h chain block.block_number (
          filter (λ tx. if is_deploy (kind tx) then false else true)
            (take (tx_index + 1) block.transactions))

      -- The receipt of a transaction in a block. `re_execute` asks for the fee tokens and runs the transactions before it and then
      -- it on the state of the previous block, each failure being the same error; `l1_block_number` is the block that Ethereum has verified.
      module _ {A E M Reason : Type 0}
          (re_execute : H
            → List (Executable F Tx)
            → List (Executable F Tx)
            → Result (Unit {0}) (List (ExecutionInfo A E M Reason)))
          (l1_block_number : ℕ) where
        unfoldable pub execution_infos :
            H → List (Executable F Tx) → Result RpcError (ExecutionInfo A E M Reason)
        execution_infos previous txs = do
          infos ←
              map_err (λ _. api internal_server_error)
                (re_execute previous (before_last txs) (last_of txs))
          ok_or (pop infos) (api internal_server_error)

        unfoldable pub previous_block_hash : ℕ → Result RpcError H
        unfolding substrate_block_hash_from_starknet_block
        previous_block_hash block_number =
            map_err (λ _. api internal_server_error)
              (substrate_block_hash_from_starknet_block s
                (number ((block_number + (2 ^ 64 - 1)) % 2 ^ 64)))

        abbrev pub receipt_of :
            Block F Tx → F → Tx → ExecutionInfo A E M Reason → Receipt F A E M Reason
        receipt_of block transaction_hash tx info = record {
          kind = kind tx;
          transaction_hash = transaction_hash;
          actual_fee = info.actual_fee;
          finality_status =
              if leb block.block_number l1_block_number then accepted_on_l1 else accepted_on_l2;
          execution_result = info.revert_error;
          messages_sent = messages_or_none info.execute_call_info;
          events = events_or_none info.execute_call_info;
          receipt_block_hash = block.block_hash;
          receipt_block_number = block.block_number;
        }

        -- The transaction at the hash's index, which is not a deploy transaction.
        abbrev pub supported : Tx → Kind F → Result RpcError Tx
        supported tx deploy = err (api unimplemented_method)
        supported tx invoke = ok tx
        supported tx deploy_account = ok tx
        supported tx l1_handler = ok tx
        supported tx (declare version class_hash) = ok tx

        abbrev pub finish :
            H
            → Block F Tx
            → F
            → Tx
            → Result RpcError (List (Executable F Tx))
            → Result RpcError (Receipt F A E M Reason)
        finish previous block transaction_hash tx converted = do
          txs ← converted
          info ← execution_infos previous txs
          ok (receipt_of block transaction_hash tx info)

        abbrev pub resumed :
            ℕ
            → F
            → H
            → F
            → Result RpcError (H × Block F Tx × ℕ × Tx)
            → Option (Result RpcError (Receipt F A E M Reason))
        resumed fuel chain h transaction_hash (err e) = some (err e)
        resumed fuel chain h transaction_hash (ok (previous, block, tx_index, tx)) =
            also (transactions fuel h chain block tx_index)
              λ converted. some (finish previous block transaction_hash tx converted)

        unfoldable pub get_transaction_receipt_finalized :
            ℕ → F → H → F → Option (Result RpcError (Receipt F A E M Reason))
        unfolding transactions execution_infos previous_block_hash get_cached_transaction_hashes
        get_transaction_receipt_finalized fuel chain h transaction_hash =
            resumed fuel chain h transaction_hash (do
              block ← s.get_block_by_block_hash h
              previous ← previous_block_hash block.block_number
              let hashes =
                  hashes_of (get_cached_transaction_hashes s block.block_hash)
                    (λ (tx : Tx). s.compute_hash tx chain block.block_number) block.transactions
              tx_index ← ok_or (position transaction_hash hashes) panicked
              tx ← ok_or (get_elem? block.transactions tx_index) (api internal_server_error)
              supported_tx ← supported tx (kind tx)
              ok (previous, block, tx_index, supported_tx))

        -- The hash must be mapped to a block: `unwrap`.
        abbrev pub found_receipt :
            ℕ → F → Result RpcError (H × F) → Option (Result RpcError (Receipt F A E M Reason))
        found_receipt fuel transaction_hash (err e) = some (err e)
        found_receipt fuel transaction_hash (ok (h, chain)) =
            get_transaction_receipt_finalized fuel chain h transaction_hash

        unfoldable pub get_transaction_receipt :
            ℕ → F → Option (Result RpcError (Receipt F A E M Reason))
        unfolding get_transaction_receipt_finalized chain_id
        get_transaction_receipt fuel transaction_hash = found_receipt fuel transaction_hash (do
          found ←
              map_err (λ _. api internal_server_error)
                (s.block_hash_from_transaction_hash transaction_hash)
          chain ← chain_id s
          h ← ok_or found panicked
          ok (h, chain))
