-- ===== src/Rpc/ReceiptLaws.antt =====
-- When receipts are answered: crates/client/rpc/src/methods/read/get_transaction_receipt.rs.
use deoxys.Base.{
  ◌⊎◌, inl, inr, ℕ, zero, suc, ◌+◌, ◌≡◌, refl, Bool, true, false, none, some, List, [], ◌∷◌, ◌++◌,
  get_elem?, filter, take, if◌then◌else◌,
}
use deoxys.Base.Outcome.{Result, ok, err}
use deoxys.Base.Assoc.{Eq}
use deoxys.Rpc.Server.{panicked, Block, Server, get_cached_transaction_hashes, chain_id}
use deoxys.Rpc.Receipts.{
  DeclareVersion, v0, v1, v2, v3, Kind, invoke, deploy_account, deploy, l1_handler, declare,
  Executable, ExecutionInfo, is_deploy, tx_declare, tx_declare_v0v1, tx_declare_v2, executable,
  all_executable, transactions, get_transaction_receipt, get_transaction_receipt_finalized,
  previous_block_hash, supported, hashes_of, position,
}

module _ {F H Tx Class Abi RpcClass : Type 0} ⦃e : Eq F⦄ ⦃eh : Eq H⦄
    (s : Server F H Tx Class Abi RpcClass) (kind : Tx → Kind F)
    (default_class_compiles : Bool) where
  -- A declare transaction that no number of calls converts.
  abbrev pub IsEndless : H → DeclareVersion → F → Type 0
  IsEndless h v0 class_hash =
      (class : Class) × (s.contract_class_by_class_hash h class_hash ≡ some class)
  IsEndless h v1 class_hash =
      (class : Class) × (s.contract_class_by_class_hash h class_hash ≡ some class)
  IsEndless h v2 class_hash = default_class_compiles ≡ true
  IsEndless h v3 class_hash = ⊥

  endless_v2 :
      default_class_compiles ≡ true
      → (fuel : ℕ) → tx_declare_v2 s kind default_class_compiles fuel v2 ≡ none
  unfolding tx_declare_v2
  endless_v2 compiles zero = refl
  endless_v2 compiles (suc fuel) = rw compiles (endless_v2 compiles fuel)

  endless_v0v1 :
      (h : H) (version : DeclareVersion) (class_hash : F) (class : Class)
      → s.contract_class_by_class_hash h class_hash ≡ some class
      → (version ≡ v0) ⊎ (version ≡ v1)
      → (fuel : ℕ) → tx_declare_v0v1 s kind default_class_compiles fuel h version class_hash ≡ none
  unfolding tx_declare_v0v1
  endless_v0v1 h version class_hash class found old zero = refl
  endless_v0v1 h v0 class_hash class found old (suc fuel) =
      rw found (endless_v0v1 h v0 class_hash class found old fuel)
  endless_v0v1 h v1 class_hash class found old (suc fuel) =
      rw found (endless_v0v1 h v1 class_hash class found old fuel)
  endless_v0v1 h v2 class_hash class found old (suc fuel) = elim old [ inl x ↦ cc x | inr x ↦ cc x ]
  endless_v0v1 h v3 class_hash class found old (suc fuel) = elim old [ inl x ↦ cc x | inr x ↦ cc x ]

  endless :
      (h : H) (version : DeclareVersion) (class_hash : F)
      → IsEndless h version class_hash
      → (fuel : ℕ) → tx_declare s kind default_class_compiles fuel h version class_hash ≡ none
  unfolding tx_declare
  endless h v0 class_hash known fuel = endless_v0v1 h v0 class_hash known.0 known.1 (inl refl) fuel
  endless h v1 class_hash known fuel = endless_v0v1 h v1 class_hash known.0 known.1 (inr refl) fuel
  endless h v2 class_hash compiles fuel = endless_v2 compiles fuel
  endless h v3 class_hash never fuel = absurd never

  module _ (fee_paid : F → Result (Unit {0}) ℕ) where
    abbrev pub Convertible : H → F → ℕ → List Tx → Type 0
    Convertible h chain n [] = Unit
    Convertible h chain n (tx ∷ txs) =
        (x : Executable F Tx) × ((fuel : ℕ)
          → executable s kind default_class_compiles fee_paid fuel h chain n tx (kind tx)
            ≡ some (ok x))
        × Convertible h chain n txs

    all_executable-none :
        (h : H) (chain : F) (n : ℕ) (before after : List Tx) (tx : Tx) (version : DeclareVersion)
        (class_hash : F) (fuel : ℕ)
        → Convertible h chain n before
        → kind tx ≡ declare version class_hash
        → IsEndless h version class_hash
        → all_executable s kind default_class_compiles fee_paid fuel h chain n
            (before ++ tx ∷ after)
          ≡ none
    all_executable-none h chain n [] after tx version class_hash fuel converted is_declare
          endless_tx =
        rw (is_declare, endless h version class_hash endless_tx fuel) refl
    all_executable-none h chain n (first ∷ before) after tx version class_hash fuel converted
          is_declare endless_tx =
        rw
          (
            converted.1 fuel,
            all_executable-none h chain n before after tx version class_hash fuel converted.2
                is_declare endless_tx,
          )
          refl

    module _ {A E M Reason : Type 0}
        (re_execute : H
          → List (Executable F Tx)
          → List (Executable F Tx)
          → Result (Unit {0}) (List (ExecutionInfo A E M Reason)))
        (l1_block_number : ℕ) where
      -- A transaction whose block has, at its index or before it, a declare transaction of version 0 or 1 with a
      -- known class, or one of version 2 where the default class compiles, never gets a receipt, where the
      -- transactions before that one are converted: no number of calls is enough.
      pub get_transaction_receipt_finalized-endless :
          (fuel : ℕ) (chain : F) (h previous : H) (transaction_hash : F) (block : Block F Tx)
          (i : ℕ) (tx d : Tx) (before after : List Tx) (version : DeclareVersion) (class_hash : F)
          → s.get_block_by_block_hash h ≡ ok block
          → previous_block_hash s kind default_class_compiles fee_paid re_execute l1_block_number
              block.block_number
            ≡ ok previous
          → position transaction_hash (
              hashes_of
                (get_cached_transaction_hashes s block.block_hash)
                (λ t. s.compute_hash t chain block.block_number)
                block.transactions)
            ≡ some i
          → get_elem? block.transactions i ≡ some tx
          → is_deploy (kind tx) ≡ false
          → filter
              (λ t. if is_deploy (kind t) then false else true)
              (take (i + 1) block.transactions)
            ≡ before ++ d ∷ after
          → Convertible h chain block.block_number before
          → kind d ≡ declare version class_hash
          → IsEndless h version class_hash
          → get_transaction_receipt_finalized s kind default_class_compiles fee_paid re_execute
              l1_block_number fuel chain h transaction_hash
            ≡ none
      unfolding get_transaction_receipt_finalized transactions
      get_transaction_receipt_finalized-endless fuel chain h previous transaction_hash block i tx d
            before after version class_hash loaded preceded found at_index not_deploy up_to
            converted is_declare endless_tx =
          rw
            (
              loaded,
              preceded,
              found,
              at_index,
              supported_lem tx (kind tx) not_deploy,
              up_to,
              all_executable-none h chain block.block_number before after d version class_hash fuel
                  converted is_declare endless_tx,
            )
            refl
        where
          supported_lem :
              (t : Tx) (k : Kind F)
              → is_deploy k ≡ false
              → supported s kind default_class_compiles fee_paid re_execute l1_block_number t k
                ≡ ok t
          supported_lem t invoke h = refl
          supported_lem t deploy_account h = refl
          supported_lem t deploy h = cc h
          supported_lem t l1_handler h = refl
          supported_lem t (declare v c) h = refl

      -- The receipt of a transaction that the mapping does not know is a panic, not an error of the API.
      pub get_transaction_receipt-unknown :
          (fuel : ℕ) (chain transaction_hash : F)
          → s.block_hash_from_transaction_hash transaction_hash ≡ ok none
          → chain_id s ≡ ok chain
          → get_transaction_receipt s kind default_class_compiles fee_paid re_execute
              l1_block_number fuel transaction_hash
            ≡ some (err panicked)
      unfolding get_transaction_receipt
      get_transaction_receipt-unknown fuel chain transaction_hash unknown configured =
          rw (unknown, configured) refl
