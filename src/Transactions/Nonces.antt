-- ===== src/Transactions/Nonces.antt =====
-- What the older hashes leave out: crates/primitives/transactions/src/compute_hash.rs.
use deoxys.Base.{ℕ, ◌≡◌, Bool, true, false, Option, List}
use deoxys.Transactions.Types.{
  Field, InvokeTransactionV0, DeclareTransactionV0V1, declare, invoke, invoke_v0, declare_v0,
  declare_v1,
}
use deoxys.Transactions.Hashing.{legacy_block_number, is_above}
use deoxys.Transactions.Invoke.{hash_invoke, hash_invoke_v0}
use deoxys.Transactions.Declare.{hash_declare, hash_declare_v0_v1}
use deoxys.Transactions.ComputeHash.{compute_hash}

abbrev pub with_nonce : {Fe : Type 0} → Fe → DeclareTransactionV0V1 Fe → DeclareTransactionV0V1 Fe
with_nonce nonce tx = record {
  sender_address = tx.sender_address;
  max_fee = tx.max_fee;
  signature = tx.signature;
  nonce = nonce;
  class_hash = tx.class_hash;
}

abbrev pub with_max_fee : {Fe : Type 0} → ℕ → InvokeTransactionV0 Fe → InvokeTransactionV0 Fe
with_max_fee max_fee tx = record {
  contract_address = tx.contract_address;
  entry_point_selector = tx.entry_point_selector;
  calldata = tx.calldata;
  max_fee = max_fee;
  signature = tx.signature;
}

module _ (field : Field) (hash : List field.Fe → field.Fe) (chain_id : field.Fe) where
  -- Without the version offset a declare transaction of version 1 is hashed as one of version 0: its hash
  -- is that of the version 0 transaction with any other nonce.
  pub compute_hash-declare_v1 :
      (tx : DeclareTransactionV0V1 field.Fe) (nonce : field.Fe) (block_number : Option ℕ)
      → field.is_equal (field.from 0) (field.from 0) ≡ true
      → compute_hash field hash (declare (declare_v1 tx)) chain_id false block_number
        ≡ compute_hash field hash
            (declare (declare_v0 (with_nonce nonce tx)))
            chain_id
            false
            block_number
  unfolding compute_hash hash_declare hash_declare_v0_v1
  compute_hash-declare_v1 tx nonce block_number zero_is_zero = rw zero_is_zero

  -- Up to block 1470 and while pending, an invoke transaction of version 0 has one hash for every
  -- maximal fee, with the version offset or without it.
  pub compute_hash-invoke_v0_legacy :
      (tx : InvokeTransactionV0 field.Fe) (max_fee : ℕ) (offset_version : Bool)
      (block_number : Option ℕ)
      → is_above block_number legacy_block_number ≡ false
      → compute_hash field hash (invoke (invoke_v0 tx)) chain_id offset_version block_number
        ≡ compute_hash field hash
            (invoke (invoke_v0 (with_max_fee max_fee tx)))
            chain_id
            false
            block_number
  unfolding compute_hash hash_invoke hash_invoke_v0
  compute_hash-invoke_v0_legacy tx max_fee offset_version block_number legacy = rw legacy
