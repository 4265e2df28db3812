-- ===== src/Transactions/Eras.antt =====
-- How the block number decides a transaction's hash: crates/primitives/transactions/src/compute_hash.rs.
use deoxys.Base.{
  ℕ, ◌≡◌, refl, Bool, ◌&&◌, Option, none, some, List, if◌then◌else◌, ltb, ◌==◌ as nat_eq, arith,
}
use deoxys.Transactions.Types.{
  Field, Transaction, declare, deploy, deploy_account, invoke, l1_handler, invoke_v0, invoke_v1,
  invoke_v3,
}
use deoxys.Transactions.Hashing.{legacy_block_number, legacy_l1_handler_block, is_above, is_below}
use deoxys.Transactions.Invoke.{hash_invoke, hash_invoke_v0}
use deoxys.Transactions.Deploy.{
  hash_deploy, compute_hash_given_contract_address, hash_l1_handler, is_some,
}
use deoxys.Transactions.ComputeHash.{compute_hash}

-- The eras of the hash: before block 854, before block 1470, block 1470 itself, and after it. A pending
-- block, which has no number, is in the era of block 1470.
abbrev pub era_of : ℕ → ℕ
era_of n = if ltb n 854 then 0 else if ltb n 1470 then 1 else if nat_eq n 1470 then 2 else 3

abbrev pub era : Option ℕ → ℕ
era none = 2
era (some n) = era_of n

module _ (n m : Option ℕ) (same : era n ≡ era m) where
  -- The three tests of the code are of the era.
  era-is_above : is_above n legacy_block_number ≡ is_above m legacy_block_number
  era-is_above = ground arith

  era-l1_handler :
      (is_below n legacy_l1_handler_block && is_some n)
      ≡ (is_below m legacy_l1_handler_block && is_some m)
  era-l1_handler = ground arith

  era-legacy :
      (is_below n legacy_block_number && is_some n) ≡ (is_below m legacy_block_number && is_some m)
  era-legacy = ground arith

module _ (field : Field) (hash : List field.Fe → field.Fe) (chain_id : field.Fe) where
  -- The hash of a transaction, of whatever kind, depends on the block number only by its era; in
  -- particular a pending transaction is hashed as one of block 1470.
  pub compute_hash-era :
      (tx : Transaction field.Fe) (offset_version : Bool) (n m : Option ℕ)
      → era n ≡ era m
      → compute_hash field hash tx chain_id offset_version n
        ≡ compute_hash field hash tx chain_id offset_version m
  unfolding compute_hash hash_invoke hash_invoke_v0 hash_deploy compute_hash_given_contract_address
      hash_l1_handler
  compute_hash-era (declare tx) q n m same = refl
  compute_hash-era (deploy tx) q n m same = rw (era-is_above n m same)
  compute_hash-era (deploy_account tx) q n m same = refl
  compute_hash-era (invoke (invoke_v0 tx)) q n m same = rw (era-is_above n m same)
  compute_hash-era (invoke (invoke_v1 tx)) q n m same = refl
  compute_hash-era (invoke (invoke_v3 tx)) q n m same = refl
  compute_hash-era (l1_handler tx) q n m same = rw (era-l1_handler n m same, era-legacy n m same)
