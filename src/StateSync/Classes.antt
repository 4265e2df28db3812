-- ===== src/StateSync/Classes.antt =====
-- Which classes are downloaded, and that the fetch ends: crates/client/sync/src/fetch/fetchers.rs.
use deoxys.Base.{
  ℕ, zero, suc, ◌+◌, ◌-◌, ◌*◌, ◌≤◌, ◌<◌, ◌≡◌, refl, ap, sym, ◌∙◌, Bool, true, false, ◌||◌, ◌&&◌,
  Option, none, some, List, [], ◌∷◌, ◌++◌, map, filter, arith, inl, inr, Bool-cases, leb, leb→le,
  ◌⊎◌,
}
use deoxys.Base.Outcome.{Result, ok, err, >>=-eq-ok}
use deoxys.Base.Assoc.{Eq, ◌==◌}
use deoxys.Commitments.Leaves.{StateUpdate}
use deoxys.StateSync.L2.{L2SyncError, fetch_retry_limit}
use deoxys.StateSync.Fetch.{
  rate_limited, delay, both, attempts, fetch_block_and_updates, contains, unique_after,
  aggregate_classes, is_missing_class, fetch_missing_classes, classes_to_fetch, fetch_class,
  fetch_all, fetch_class_update, max_retry,
}

module _ {Fe : Type 0} ⦃e : Eq Fe⦄ where
  contains-append :
      (h : Fe) (xs ys : List Fe) → contains h (xs ++ ys) ≡ (contains h xs || contains h ys)
  contains-append h [] ys = refl
  contains-append h (x ∷ xs) ys = ground (arith, contains-append h xs ys)

  contains-filter :
      (keep : Fe → Bool) (h : Fe) (xs : List Fe)
      → contains h (filter keep xs) ≡ (contains h xs && keep h)
  contains-filter keep h [] = refl
  contains-filter keep h (x ∷ xs) = elim (Bool-cases (x == h)) [
    | inl same ↦ elim (Bool-cases (keep x)) [
      | inl kept ↦
          let at_h : keep h ≡ true = cc (ap keep ((e.same_iff x h).0 same), kept) in
          rw (kept, same, at_h) refl
      | inr dropped ↦
          let at_h : keep h ≡ false = cc (ap keep ((e.same_iff x h).0 same), dropped) in
          rw (dropped, contains-filter keep h xs, same, at_h) (and_false (contains h xs))
    ]
    | inr differs ↦ elim (Bool-cases (keep x)) [
      | inl kept ↦ rw (kept, differs) (contains-filter keep h xs)
      | inr dropped ↦ rw (dropped, differs) (contains-filter keep h xs)
    ]
  ]
    where
      and_false : (b : Bool) → (b && false) ≡ false
      and_false true = refl
      and_false false = refl

  -- What was seen is left out; the rest is kept.
  contains-unique_after :
      (h : Fe) (seen xs : List Fe)
      → (contains h seen || contains h (unique_after seen xs)) ≡ (contains h seen || contains h xs)
  contains-unique_after h seen [] = refl
  contains-unique_after h seen (x ∷ xs) = elim (Bool-cases (contains x seen)) [
    | inl old ↦ elim (Bool-cases (x == h)) [
      | inl same ↦
          let at_h : contains h seen ≡ true =
            ap (λ (t : Fe). contains t seen) (sym ((e.same_iff x h).0 same)) ∙ old in
          rw (old, same, at_h) refl
      | inr differs ↦ rw (old, differs) (contains-unique_after h seen xs)
    ]
    | inr new ↦ rw new (ground (arith, contains-unique_after h (x ∷ seen) xs))
  ]

  contains-aggregate_classes :
      (h : Fe) (update : StateUpdate Fe)
      → contains h (aggregate_classes update) ≡ (
          contains h (map (λ contract. contract.1) update.deployed_contracts)
          || contains h (map (λ class. class.0) update.declared_classes))
  unfolding aggregate_classes
  contains-aggregate_classes h update =
      contains-unique_after h [] (
        map (λ contract. contract.1) update.deployed_contracts
        ++ map (λ class. class.0) update.declared_classes)
      ∙ contains-append h (map (λ contract. contract.1) update.deployed_contracts)
          (map (λ class. class.0) update.declared_classes)

module _ {Fe : Type 0} ⦃e : Eq Fe⦄ {Class Hash : Type 0}
    (contract_class_by_class_hash : Hash → Fe → Option Class) (completed : List Fe → List Fe)
    (get_class : Fe → Result L2SyncError Class) where
  or_nil : Result L2SyncError (List (Fe × Class)) → List (Fe × Class)
  or_nil (ok classes) = classes
  or_nil (err e) = []

  hash_of : Fe → Result L2SyncError (Fe × Class) → Fe
  hash_of h (ok class) = class.0
  hash_of h (err e) = h

  hashes-fetch_all :
      (hs : List Fe) (classes : List (Fe × Class))
      → fetch_all contract_class_by_class_hash completed get_class hs ≡ ok classes
      → map (λ class. class.0) classes ≡ hs
  unfolding fetch_class or_nil hash_of
  hashes-fetch_all [] classes done =
      ap (λ (r : Result L2SyncError (List (Fe × Class))). map (λ class. class.0) (or_nil r))
        (sym done)
  hashes-fetch_all (h ∷ hs) classes done =
      let first =
        >>=-eq-ok (fetch_class contract_class_by_class_hash completed get_class h) _ done in
      let downloaded = >>=-eq-ok (get_class h) _ first.1 in
      let others =
        >>=-eq-ok (fetch_all contract_class_by_class_hash completed get_class hs) _ first.2 in
      ap (λ (r : Result L2SyncError (List (Fe × Class))). map (λ class. class.0) (or_nil r))
        (sym others.2)
      ∙ ap (λ (k : Fe). k ∷ map (λ class. class.0) others.0) (sym (ap (hash_of h) downloaded.2))
      ∙ ap (λ (ks : List Fe). h ∷ ks) (hashes-fetch_all hs others.0 others.1)

  -- Whether a class is fetched: every class, where the block is not in the chain yet, and otherwise those
  -- that its state does not have.
  abbrev pub is_wanted : Option Hash → Fe → Bool
  is_wanted none h = true
  is_wanted (some block_hash) h = is_missing_class contract_class_by_class_hash block_hash h

  contains-classes_to_fetch :
      (update : StateUpdate Fe) (block_hash : Option Hash) (h : Fe)
      → contains h (classes_to_fetch contract_class_by_class_hash update block_hash)
        ≡ (contains h (aggregate_classes update) && is_wanted block_hash h)
  unfolding fetch_missing_classes
  contains-classes_to_fetch update none h =
      elim (Bool-cases (contains h (aggregate_classes update))) [
        | inl here ↦ rw here refl
        | inr gone ↦ rw gone refl
      ]
  contains-classes_to_fetch update (some block_hash) h =
      contains-filter (is_missing_class contract_class_by_class_hash block_hash) h
        (aggregate_classes update)

  -- Where each download that was started ends, in any order, and none fails, the classes that are fetched
  -- are exactly those of the update's deployed contracts and declared classes that the local state does not
  -- have; all of them, where the block's Substrate hash is not known.
  pub fetch_class_update_complete :
      (update : StateUpdate Fe) (block_hash : Option Hash) (classes : List (Fe × Class)) (h : Fe)
      → ((k : Fe) (hs : List Fe) → contains k (completed hs) ≡ contains k hs)
      → fetch_class_update contract_class_by_class_hash completed get_class update block_hash
        ≡ ok classes
      → contains h (map (λ class. class.0) classes) ≡ (
          (contains h (map (λ contract. contract.1) update.deployed_contracts)
            || contains h (map (λ class. class.0) update.declared_classes))
          && is_wanted block_hash h)
  unfolding fetch_class_update
  fetch_class_update_complete update block_hash classes h all_end done =
      let wanted = classes_to_fetch contract_class_by_class_hash update block_hash in
      ap (contains h) (hashes-fetch_all (completed wanted) classes done)
      ∙ all_end h wanted
      ∙ contains-classes_to_fetch update block_hash h
      ∙ ap (λ (b : Bool). b && is_wanted block_hash h) (contains-aggregate_classes h update)

module _ {B U : Type 0} (fetch_block : ℕ → Result L2SyncError B)
    (fetch_state_and_class_update : ℕ → Result L2SyncError U) where
  abbrev pub is_limited : ℕ → Bool
  is_limited attempt = rate_limited (fetch_block attempt) (fetch_state_and_class_update attempt)

  -- What the rounds may answer: the first answer that is not the rate limit, or the error after fifteen.
  pub data Answers (from : ℕ) : Result L2SyncError (B × U) → Type 0 where
    exhausted :
        ((attempt : ℕ) → from ≤ attempt → attempt < 15 → is_limited attempt ≡ true)
        → Answers from (err fetch_retry_limit)
    answered :
        (attempt : ℕ)
        → from ≤ attempt
        → attempt < 15
        → ((earlier : ℕ) → from ≤ earlier → earlier < attempt → is_limited earlier ≡ true)
        → is_limited attempt ≡ false
        → Answers from (both (fetch_block attempt) (fetch_state_and_class_update attempt))

  ≤-cases : (a b : ℕ) → a ≤ b → (a ≡ b) ⊎ (suc a ≤ b)
  ≤-cases a b h = ground arith

  only_one : (k attempt : ℕ) → attempt ≤ k → k < 15 → 15 ≤ suc attempt → k ≡ attempt
  only_one k attempt h1 h2 h3 = omega arith

  not_leb : (a b : ℕ) → leb a b ≡ false → b < a
  not_leb a b h = ground arith

  widen :
      (from : ℕ) (r : Result L2SyncError (B × U))
      → is_limited from ≡ true
      → Answers (suc from) r
      → Answers from r
  widen from r limited (exhausted all_limited) =
      exhausted λ k h1 h2. or_later k h1 (λ h. all_limited k h h2)
    where
      or_later : (k : ℕ) → from ≤ k → (suc from ≤ k → is_limited k ≡ true) → is_limited k ≡ true
      or_later k h1 later = elim (≤-cases from k h1) [
        | inl same ↦ ap is_limited (sym same) ∙ limited
        | inr h ↦ later h
      ]
  widen from r limited (answered attempt above below earlier_limited fine) =
      answered attempt (omega arith) below (λ k h1 h2. or_later k h1 (λ h. earlier_limited k h h2))
        fine
    where
      or_later : (k : ℕ) → from ≤ k → (suc from ≤ k → is_limited k ≡ true) → is_limited k ≡ true
      or_later k h1 later = elim (≤-cases from k h1) [
        | inl same ↦ ap is_limited (sym same) ∙ limited
        | inr h ↦ later h
      ]

  delay_bound : (attempt : ℕ) → delay attempt ≤ 6
  delay_bound attempt = ground arith

  attempts-Answers :
      (fuel attempt slept : ℕ)
      → fuel + attempt ≡ 15
      → 1 ≤ fuel
      → (r : Result L2SyncError (B × U)) × (total : ℕ) × (attempts fetch_block
            fetch_state_and_class_update fuel attempt slept
          ≡ some (r, total))
        × Answers attempt r
        × (total ≤ slept + 6 * (14 - attempt))
  unfolding attempts
  attempts-Answers zero attempt slept here fits = absurd (omega arith)
  attempts-Answers (suc fuel) attempt slept here fits = elim (Bool-cases (is_limited attempt)) [
    | inl limited ↦ elim (Bool-cases (leb max_retry (suc attempt))) [
      | inl last ↦ (
        err fetch_retry_limit,
        slept,
        rw (limited, last) refl,
        exhausted (λ k h1 h2.
            ap is_limited (only_one k attempt h1 h2 (leb→le 15 (suc attempt) last)) ∙ limited),
        omega arith,
      )
      | inr more ↦
          let short = not_leb 15 (suc attempt) more in
          let ih =
            attempts-Answers fuel (suc attempt) (slept + delay (suc attempt)) (omega arith)
              (omega arith) in
          (
            ih.0,
            ih.1,
            rw (limited, more) ih.2,
            widen attempt ih.0 limited ih.3,
            omega (arith, delay_bound (suc attempt), ih.4),
          )
    ]
    | inr answer ↦ (
      both (fetch_block attempt) (fetch_state_and_class_update attempt),
      slept,
      rw answer refl,
      answered attempt (omega arith) (omega arith) (λ k h1 h2. absurd (omega arith)) answer,
      omega arith,
    )
  ]

  -- Fifteen rounds are enough: the fetch answers, with the first answer of the provider that is not a rate
  -- limit, or with an error after fifteen rate limits, having slept no more than 84 seconds in all.
  pub fetch_block_and_updates-Answers :
      (r : Result L2SyncError (B × U)) × (slept : ℕ) × (fetch_block_and_updates fetch_block
          fetch_state_and_class_update
        ≡ some (r, slept))
      × Answers 0 r
      × (slept ≤ 84)
  unfolding fetch_block_and_updates
  fetch_block_and_updates-Answers = attempts-Answers 15 0 0 refl (omega arith)
