-- ===== src/StateSync/Statuses.antt =====
-- What the sync of crates/client/sync/src/l1.rs and l2.rs makes of the shared state, in any order of its
-- tasks' steps.
use deoxys.Base.{
  ℕ, ◌≡◌, ◌≢◌, ◌⊎◌, refl, sym, ◌∙◌, Bool, true, false, some, arith, leb, inl, inr, Bool-cases,
  if◌then◌else◌,
}
use deoxys.Base.Outcome.{Result, ok, err}
use deoxys.StateSync.State.{Verified, sync_unverified_state, sync_pending_state, Shared}
use deoxys.StateSync.L1.{update_l1}
use deoxys.StateSync.L2.{update_l2, store_data, update_starknet_data}

module _ {Fe Block Update : Type 0} where
  -- One access of a task to the shared state.
  pub data Step (s : Shared Fe Block Update) : Shared Fe Block Update → Type 0 where
    l1 : (update : Verified Fe) → Step s (update_l1 update s)
    l2 : (update : Verified Fe) → Step s (update_l2 update s)
    pending :
        (block : Result (Unit {0}) (Fe × Block)) (block_id_by_hash : Fe → Result (Unit {0}) ℕ)
        (update : Result (Unit {0}) Update) (is_best : Fe → Bool)
        → Step s (update_starknet_data block block_id_by_hash update is_best s).1

  pub data Steps (s : Shared Fe Block Update) : Shared Fe Block Update → Type 0 where
    done : Steps s s
    then_step : (s' s'' : Shared Fe Block Update) → Steps s s' → Step s' s'' → Steps s s''

  -- Only `update_l2` writes the status.
  status-update_starknet_data :
      (block : Result (Unit {0}) (Fe × Block)) (block_id_by_hash : Fe → Result (Unit {0}) ℕ)
      (update : Result (Unit {0}) Update) (is_best : Fe → Bool) (s : Shared Fe Block Update)
      → (update_starknet_data block block_id_by_hash update is_best s).1.sync_status ≡ s.sync_status
  unfolding update_starknet_data
  status-update_starknet_data (err e) block_id_by_hash update is_best s = refl
  status-update_starknet_data (ok (parent, block)) block_id_by_hash update is_best s =
      kept (block_id_by_hash parent) (is_best parent) update
    where
      kept :
          (number : Result (Unit {0}) ℕ) (best : Bool) (u : Result (Unit {0}) Update)
          → (store_data parent block number best u s).1.sync_status ≡ s.sync_status
      kept (err e) best u = refl
      kept (ok number) false u = refl
      kept (ok number) true (err e) = refl
      kept (ok number) true (ok u) = refl

  status-update_l2 :
      (update : Verified Fe) (s : Shared Fe Block Update)
      → (update_l2 update s).sync_status ≡ (
          if leb s.ethereum_state_update.block_number update.block_number
          then sync_unverified_state
          else s.sync_status)
  unfolding update_l2
  status-update_l2 update s = ground arith

  -- Every step leaves the status alone or makes it unverified.
  status-Step :
      (s s' : Shared Fe Block Update)
      → Step s s'
      → (s'.sync_status ≡ s.sync_status) ⊎ (s'.sync_status ≡ sync_unverified_state)
  unfolding update_l1
  status-Step s s' (l1 update) = inl refl
  status-Step s s' (l2 update) =
      elim (Bool-cases (leb s.ethereum_state_update.block_number update.block_number)) [
        | inl reached ↦ inr (rw (status-update_l2 update s, reached) refl)
        | inr behind ↦ inl (rw (status-update_l2 update s, behind) refl)
      ]
  status-Step s s' (pending block block_id_by_hash update is_best) =
      inl (status-update_starknet_data block block_id_by_hash update is_best s)

  -- In whatever order the tasks run, a status that is unverified stays so, also when Ethereum's verified
  -- state moves ahead of the node again; and the pending status is never reached from another one.
  pub sync_status-Steps :
      (s s' : Shared Fe Block Update)
      → Steps s s'
      → (s.sync_status ≡ sync_unverified_state → s'.sync_status ≡ sync_unverified_state)
        × (s.sync_status ≢ sync_pending_state → s'.sync_status ≢ sync_pending_state)
  sync_status-Steps s s' done = (λ h. h, λ h. h)
  sync_status-Steps s s' (then_step middle last steps step) =
      let before = sync_status-Steps s middle steps in
      elim (status-Step middle last step) [
        | inl kept ↦ (λ h. kept ∙ before.0 h, λ h is_pending. before.1 h (sym kept ∙ is_pending))
        | inr moved ↦ (λ h. moved, λ h is_pending. cc (moved, is_pending))
      ]

  -- What a call of `update_starknet_data` needs of the provider: the pending block, the number of its
  -- parent and, where that parent is the client's best block, the pending state update.
  abbrev pub IsAnswered :
      Result (Unit {0}) (Fe × Block)
      → (Fe → Result (Unit {0}) ℕ)
      → Result (Unit {0}) Update
      → (Fe → Bool)
      → Type 0
  IsAnswered (err e) block_id_by_hash update is_best = ⊥
  IsAnswered (ok (parent, block)) block_id_by_hash update is_best =
      ((number : ℕ) × (block_id_by_hash parent ≡ ok number))
      × (is_best parent ≡ true → (u : Update) × (update ≡ ok u))

  -- The shared state after such a call: the parent is the highest block, and the pending block and
  -- state update are replaced exactly where it is the best one.
  abbrev pub IsStored :
      Result (Unit {0}) (Fe × Block)
      → (Fe → Result (Unit {0}) ℕ)
      → Result (Unit {0}) Update
      → (Fe → Bool)
      → Shared Fe Block Update
      → Shared Fe Block Update
      → Type 0
  IsStored (err e) block_id_by_hash update is_best s s' = ⊥
  IsStored (ok (parent, block)) block_id_by_hash update is_best s s' =
      (number : ℕ) × (block_id_by_hash parent ≡ ok number)
      × (is_best parent ≡ false
          → s' ≡ record s { highest_block_hash_and_number = (parent, number) })
      × (is_best parent ≡ true
          → (u : Update) × (update ≡ ok u)
            × (s' ≡ record s {
              highest_block_hash_and_number = (parent, number);
              pending_block = some block;
              pending_state_update = some u;
            }))
