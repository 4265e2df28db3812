-- ===== src/StateSync/L1.antt =====
-- The verification of the state by L1: crates/client/sync/src/l1.rs, and what it uses of
-- crates/client/sync/src/utils/utility.rs. The answers of Ethereum and of the node are arguments.
use deoxys.Base.{
  ℕ, ◌≤◌, zero, suc, ◌%◌, ◌^◌, ◌≡◌, ◌↔◌, Bool, false, not, ◌||◌, Option, none, some, List, [], ◌∷◌,
  if◌then◌else◌, ltb, leb, arith, ==_iff, inl, inr,
}
use deoxys.Base.Outcome.{Result, Result-cases, ok, err, ◌>>=◌, map_err}
use deoxys.Base.Assoc.{Eq, nat_Eq, ◌==◌}
use deoxys.StateSync.State.{Verified, Shared}

pub data VerifyError : Type 0 where
  still_syncing retrieval_failed verification_mismatch : VerifyError

-- An answer to `get_state_update_at`'s request: no answer or no JSON, JSON without a result, or a result
-- that is a state update or cannot be read as one.
pub data Answer (Fe : Type 0) : Type 0 where
  no_answer no_result bad_result : Answer Fe
  result : Verified Fe → Answer Fe

module _ {Fe : Type 0} where
  -- The attempts that are left; the answers to them by their number.
  unfoldable pub attempts_from : ℕ → (ℕ → Answer Fe) → ℕ → Result (Unit {0}) (Verified Fe)
  attempts_from zero answer attempts = err tt
  attempts_from (suc left) answer attempts =
      let rest = attempts_from left answer (suc attempts) in
      elim (answer attempts) [
        | no_answer ↦ rest
        | no_result ↦ rest
        | bad_result ↦ err tt
        | result update ↦ ok update
      ]

  unfoldable pub get_state_update_at : (ℕ → Answer Fe) → Result (Unit {0}) (Verified Fe)
  unfolding attempts_from
  get_state_update_at answer = attempts_from 3 answer 0

module _ {Fe : Type 0} ⦃e : Eq Fe⦄ where
  abbrev pub mismatch : Verified Fe → Verified Fe → Bool
  mismatch current update =
      not (current.block_number == update.block_number)
      || not (current.global_root == update.global_root)
      || not (current.block_hash == update.block_hash)

module _ {Fe Block Update : Type 0} where
  unfoldable pub update_l1 : Verified Fe → Shared Fe Block Update → Shared Fe Block Update
  update_l1 state_update s = record s { ethereum_state_update = state_update }

  module _ ⦃e : Eq Fe⦄ where
    -- The answers are those of the node to a request for a block number.
    unfoldable pub verify_l1 :
        Verified Fe → (ℕ → ℕ → Answer Fe) → Shared Fe Block Update → Result VerifyError (Unit {0})
    unfolding get_state_update_at
    verify_l1 update answers s =
        if ltb s.starknet_state_update.block_number update.block_number
        then err still_syncing
        else if leb update.block_number s.starknet_state_update.block_number
        then (do
          current ←
              map_err (λ _. retrieval_failed) (get_state_update_at (answers update.block_number))
          if mismatch current update then err verification_mismatch else ok tt)
        else ok tt

-- A `LogStateUpdate` event: the block number as a signed number of 256 bits in two's complement.
pub record LogStateUpdate : Type 0 where
  pub global_root : ℕ
  pub block_number : ℕ
  pub block_hash : ℕ

pub data LogError : Type 0 where
  negative_block_number not_a_felt : LogError

-- `StarkFelt::new` takes numbers below the field's modulus.
module _ {Fe : Type 0} (new_felt : ℕ → Option Fe) where
  abbrev pub felt_or_err : Option Fe → Result LogError Fe
  felt_or_err none = err not_a_felt
  felt_or_err (some fe) = ok fe

  unfoldable pub u256_to_starkfelt : ℕ → Result LogError Fe
  u256_to_starkfelt u = felt_or_err (new_felt u)

  abbrev pub log_block_number : ℕ → Result LogError ℕ
  log_block_number n = if ltb n (2 ^ 255) then ok (n % 2 ^ 64) else err negative_block_number

  unfoldable pub convert_log_state_update : LogStateUpdate → Result LogError (Verified Fe)
  unfolding u256_to_starkfelt
  convert_log_state_update log = do
    block_number ← log_block_number log.block_number
    global_root ← u256_to_starkfelt log.global_root
    block_hash ← u256_to_starkfelt log.block_hash
    ok (record { block_number = block_number; global_root = global_root; block_hash = block_hash })

  -- `get_initial_state`: the three answers of the core contract, asked for in this order.
  unfoldable pub get_initial_state :
      Result (Unit {0}) ℕ
      → Result (Unit {0}) Fe
      → Result (Unit {0}) Fe
      → Result (Unit {0}) (Verified Fe)
  get_initial_state last_block_number last_block_hash last_state_root = do
    block_number ← last_block_number
    block_hash ← last_block_hash
    global_root ← last_state_root
    ok (record { block_number = block_number; global_root = global_root; block_hash = block_hash })

  module _ {Block Update : Type 0} where
    -- `listen_and_update_state`: events that fail are logged, and one that cannot be converted is a panic.
    unfoldable pub listen_and_update_state :
        List (Result (Unit {0}) LogStateUpdate)
        → Shared Fe Block Update
        → Option (Shared Fe Block Update)
    listen_and_update_state [] s = some s
    listen_and_update_state (err e ∷ events) s = listen_and_update_state events s
    listen_and_update_state (ok log ∷ events) s = elim (convert_log_state_update log) [
      | ok update ↦ listen_and_update_state events (update_l1 update s)
      | err e ↦ none
    ]

module _ {Fe : Type 0} ⦃e : Eq Fe⦄ where
  mismatch_lem :
      (current update : Verified Fe) → (mismatch current update ≡ false) ↔ (current ≡ update)
  mismatch_lem current update = ground (
    arith,
    ==_iff current.block_number update.block_number,
    e.same_iff current.global_root update.global_root,
    e.same_iff current.block_hash update.block_hash,
  )

module _ {Fe Block Update : Type 0} ⦃e : Eq Fe⦄ where
  -- The verification succeeds exactly when the node has reached the block that Ethereum verified and its
  -- own state update at this block's number has the same number, state root and block hash.
  pub verify_l1_iff :
      (update : Verified Fe) (answers : ℕ → ℕ → Answer Fe) (s : Shared Fe Block Update)
      → (verify_l1 update answers s ≡ ok tt) ↔ (
          (update.block_number ≤ s.starknet_state_update.block_number)
          × (get_state_update_at (answers update.block_number) ≡ ok update))
  unfolding verify_l1
  verify_l1_iff update answers s =
      elim (Result-cases (get_state_update_at (answers update.block_number))) [
        | inl (current, h) ↦ rw h ground (arith, mismatch_lem current update)
        | inr (e, h) ↦ rw h ground arith
      ]
