-- ===== src/Rpc/GetEvents/Filter.antt =====
-- The filter of `get_events` (crates/client/rpc/src/methods/read/get_events.rs): the code's test by
-- index against the recursion.
use mathlib.Core.Path.{subst}
use mathlib.Core.Option.{some-injective}
use deoxys.Base.{
  ℕ, zero, suc, ◌≡◌, refl, ◌↔◌, ◌⊎◌, inl, inr, true, false, ◌&&◌, ◌||◌, some, List, [], ◌∷◌,
  get_elem?, is_empty, sym, Bool,
}
use deoxys.Base.Assoc.{Eq}
use deoxys.Rpc.GetEvents.{contains, match_keys}

and_left : (a b : Bool) → (a && b) ≡ true → a ≡ true
and_left true b h = refl
and_left false b h = h

and_right : (a b : Bool) → (a && b) ≡ true → b ≡ true
and_right true b h = h
and_right false b h = cc

module _ {F : Type 0} ⦃e : Eq F⦄ where
  -- One pattern lets a key through: it is empty, or it lists the key.
  abbrev Allows : List F → F → Type 0
  Allows ks k = (ks ≡ []) ⊎ (contains k ks ≡ true)

  -- Every pattern, by its position, finds a key at that position that it lets through.
  abbrev pub AllMatch : List (List F) → List F → Type 0
  AllMatch patterns keys =
      (i : ℕ) (ks : List F)
      → get_elem? patterns i ≡ some ks
      → (k : F) × (get_elem? keys i ≡ some k) × Allows ks k

  Allows-sound : (ks : List F) (k : F) → (is_empty ks || contains k ks) ≡ true → Allows ks k
  Allows-sound [] k h = inl refl
  Allows-sound (x ∷ ks) k h = inr h

  Allows-complete : (ks : List F) (k : F) → Allows ks k → (is_empty ks || contains k ks) ≡ true
  Allows-complete [] k h = refl
  Allows-complete (x ∷ ks) k (inl h) = cc
  Allows-complete (x ∷ ks) k (inr h) = h

  match_keys_sound :
      (patterns : List (List F)) (keys : List F)
      → match_keys patterns keys ≡ true
      → AllMatch patterns keys
  unfolding match_keys
  match_keys_sound [] keys h i ks at = cc
  match_keys_sound (p ∷ ps) [] h i ks at = cc
  match_keys_sound (p ∷ ps) (k ∷ keys) h zero ks at = (
    k,
    refl,
    subst (λ t. Allows t k) (some-injective p ks at) (Allows-sound p k (and_left _ _ h)),
  )
  match_keys_sound (p ∷ ps) (k ∷ keys) h (suc i) ks at =
      match_keys_sound ps keys (and_right _ _ h) i ks at

  match_keys_complete :
      (patterns : List (List F)) (keys : List F)
      → AllMatch patterns keys
      → match_keys patterns keys ≡ true
  unfolding match_keys
  match_keys_complete [] keys h = refl
  match_keys_complete (p ∷ ps) [] h = let (k, at, _) = h 0 p refl in cc
  match_keys_complete (p ∷ ps) (k ∷ keys) h =
      let (k', at, allowed) = h 0 p refl in
      let here : (is_empty p || contains k p) ≡ true =
        Allows-complete p k (subst (Allows p) (sym (some-injective k k' at)) allowed) in
      rw (here, match_keys_complete ps keys (λ i ks at'. h (suc i) ks at'))

  -- The patterns match the keys of an event exactly when every pattern finds, at its own position, a
  -- key that it allows.
  pub match_keys_iff :
      (patterns : List (List F)) (keys : List F)
      → (match_keys patterns keys ≡ true) ↔ AllMatch patterns keys
  match_keys_iff patterns keys = (match_keys_sound patterns keys, match_keys_complete patterns keys)
