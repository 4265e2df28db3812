-- ===== src/StateSync/Fetch.antt =====
-- The fetch of a block with its updates: crates/client/sync/src/fetch/fetchers.rs. What the provider
-- answers is an argument, by the number of the attempt where calls are repeated.
use deoxys.Base.{
  ℕ, zero, suc, ◌+◌, ◌-◌, ◌^◌, Bool, true, false, ◌||◌, Option, none, some, List, [], ◌∷◌, ◌++◌,
  map, filter, if◌then◌else◌, leb,
}
use deoxys.Base.Outcome.{Result, ok, err, ◌>>=◌}
use deoxys.Base.Assoc.{Eq, ◌==◌}
use deoxys.Commitments.Leaves.{StateUpdate}
use deoxys.StateSync.L2.{L2SyncError, provider_rate_limited, fetch_retry_limit}

abbrev pub max_retry : ℕ
max_retry = 15

-- `block.as_ref().err().or(state_update.as_ref().err())`: whether that is the rate limit.
abbrev pub is_limit : L2SyncError → Bool
is_limit provider_rate_limited = true
is_limit e = false

abbrev pub rate_limited : {B U : Type 0} → Result L2SyncError B → Result L2SyncError U → Bool
rate_limited (err e) state_update = is_limit e
rate_limited (ok block) (err e) = is_limit e
rate_limited (ok block) (ok update) = false

-- `base_delay * 2_u32.pow(attempt - 1).min(6)`, in seconds.
abbrev pub delay : ℕ → ℕ
delay attempt = if leb (2 ^ (attempt - 1)) 6 then 2 ^ (attempt - 1) else 6

abbrev pub both :
    {B U : Type 0} → Result L2SyncError B → Result L2SyncError U → Result L2SyncError (B × U)
both block state_update = block >>= λ b. state_update >>= λ u. ok (b, u)

module _ {B U : Type 0} (fetch_block : ℕ → Result L2SyncError B)
    (fetch_state_and_class_update : ℕ → Result L2SyncError U) where
  -- The rounds of the loop from an attempt on, with the seconds slept so far; `none` where the fuel ends.
  unfoldable pub attempts : ℕ → ℕ → ℕ → Option (Result L2SyncError (B × U) × ℕ)
  attempts zero attempt slept = none
  attempts (suc fuel) attempt slept =
      let again = attempts fuel (suc attempt) (slept + delay (suc attempt)) in
      if rate_limited (fetch_block attempt) (fetch_state_and_class_update attempt)
      then (if leb max_retry (suc attempt) then some (err fetch_retry_limit, slept) else again)
      else some (both (fetch_block attempt) (fetch_state_and_class_update attempt), slept)

  unfoldable pub fetch_block_and_updates : Option (Result L2SyncError (B × U) × ℕ)
  unfolding attempts
  fetch_block_and_updates = attempts max_retry 0 0

module _ {Fe : Type 0} ⦃e : Eq Fe⦄ where
  abbrev pub contains : Fe → List Fe → Bool
  contains h [] = false
  contains h (x ∷ xs) = x == h || contains h xs

  -- `unique()`: the first of each, after those that were seen.
  abbrev pub unique_after : List Fe → List Fe → List Fe
  unique_after seen [] = []
  unique_after seen (x ∷ xs) =
      let rest = unique_after (if contains x seen then seen else x ∷ seen) xs in
      if contains x seen then rest else x ∷ rest

  unfoldable pub aggregate_classes : StateUpdate Fe → List Fe
  aggregate_classes update = unique_after [] (
      map (λ contract. contract.1) update.deployed_contracts
      ++ map (λ class. class.0) update.declared_classes)

  module _ {Class Hash : Type 0} (contract_class_by_class_hash : Hash → Fe → Option Class) where
    abbrev pub is_none : Option Class → Bool
    is_none none = true
    is_none (some class) = false

    unfoldable pub is_missing_class : Hash → Fe → Bool
    is_missing_class block_hash class_hash =
        is_none (contract_class_by_class_hash block_hash class_hash)

    unfoldable pub fetch_missing_classes : StateUpdate Fe → Hash → List Fe
    unfolding aggregate_classes is_missing_class
    fetch_missing_classes update block_hash =
        filter (is_missing_class block_hash) (aggregate_classes update)

    abbrev pub classes_to_fetch : StateUpdate Fe → Option Hash → List Fe
    classes_to_fetch update (some block_hash) = fetch_missing_classes update block_hash
    classes_to_fetch update none = aggregate_classes update

  -- `fetch_class`, the class by its hash; `completed` is the order in which the downloads end.
  module _ {Class Hash : Type 0} (contract_class_by_class_hash : Hash → Fe → Option Class)
      (completed : List Fe → List Fe) (get_class : Fe → Result L2SyncError Class) where
    unfoldable pub fetch_class : Fe → Result L2SyncError (Fe × Class)
    fetch_class class_hash = get_class class_hash >>= λ class. ok (class_hash, class)

    abbrev pub fetch_all : List Fe → Result L2SyncError (List (Fe × Class))
    fetch_all [] = ok []
    fetch_all (h ∷ hs) = fetch_class h >>= λ class. fetch_all hs >>= λ rest. ok (class ∷ rest)

    unfoldable pub fetch_class_update :
        StateUpdate Fe → Option Hash → Result L2SyncError (List (Fe × Class))
    unfolding fetch_class aggregate_classes fetch_missing_classes
    fetch_class_update update block_hash_substrate =
        fetch_all
          (completed (classes_to_fetch contract_class_by_class_hash update block_hash_substrate))
