-- ===== src/Db/Mapping/Consistent.antt =====
-- The invariant of the mapping database (crates/client/db/src/mapping_db.rs).
use deoxys.Base.{
  ◌≡◌, refl, Bool, true, false, ◌||◌, Option, none, some, List, [], ◌∷◌, ◌++◌, arith, if◌then◌else◌,
  inl, inr, Bool-cases, ◌⊎◌,
}
use deoxys.Base.Outcome.{Result, ok, err}
use deoxys.Base.Assoc.{Eq, ◌==◌, ==_self}
use deoxys.Db.Rocks.{DbError, Rocks, RocksLaws}
use deoxys.Db.Mapping.{
  Codecs, MappingCommitment, is_synced, block_hash, write_hashes, block_hash_from_transaction_hash,
}
use deoxys.Db.Mapping.Views.{elem, earlier, write_hashes_views}

abbrev pub Distinct : {A : Type 0} ⦃e : Eq A⦄ → List A → Type 0
Distinct [] = Unit
Distinct (x ∷ xs) = (elem x xs ≡ false) × Distinct xs

module _ {A : Type 0} ⦃e : Eq A⦄ where
  elem-append : (a : A) (xs ys : List A) → elem a (xs ++ ys) ≡ (elem a xs || elem a ys)
  elem-append a [] ys = refl
  elem-append a (x ∷ xs) ys = ground (arith, elem-append a xs ys)

  Distinct-append :
      (xs : List A) (a : A) → Distinct xs → elem a xs ≡ false → Distinct (xs ++ a ∷ [])
  Distinct-append [] a h n = (refl, tt)
  Distinct-append (x ∷ xs) a h n =
      ground
        (arith, e.same_iff x a, e.same_iff a x, elem-append x xs (a ∷ []), Distinct-append xs a h.1)

module _ {H S : Type 0} ⦃eh : Eq H⦄ ⦃es : Eq S⦄ (r : Rocks) (codecs : Codecs H S) where
  -- Whatever block a Starknet block or a transaction maps to has been marked as synced, and no block
  -- is listed twice.
  pub record IsConsistent (s : r.Db) : Type 0 where
    pub blocks_synced :
        (sh : S) (hs : List H) (h : H)
        → block_hash r codecs s sh ≡ ok (some hs)
        → elem h hs ≡ true
        → is_synced r codecs s h ≡ ok true
    pub transactions_synced :
        (t : S) (h : H)
        → block_hash_from_transaction_hash r codecs s t ≡ ok (some h)
        → is_synced r codecs s h ≡ ok true
    pub distinct : (sh : S) (hs : List H) → block_hash r codecs s sh ≡ ok (some hs) → Distinct hs

  module _ (s : r.Db) (old : IsConsistent s) where
    -- What is pushed to is consistent too.
    push-synced :
        (sh : S) (bh h : H)
        → elem h (earlier (block_hash r codecs s sh) ++ bh ∷ []) ≡ true
        → (is_synced r codecs s h ≡ ok true) ⊎ ((bh == h) ≡ true)
    push-synced sh bh h = go (block_hash r codecs s sh) refl
      where
        go :
            (x : Result DbError (Option (List H)))
            → block_hash r codecs s sh ≡ x
            → elem h (earlier x ++ bh ∷ []) ≡ true
            → (is_synced r codecs s h ≡ ok true) ⊎ ((bh == h) ≡ true)
        go (ok (some hs)) eq m =
            ground (arith, elem-append h hs (bh ∷ []), old.blocks_synced sh hs h eq)
        go (ok none) eq m = ground arith
        go (err x) eq m = ground arith

    push-Distinct :
        (sh : S) (bh : H)
        → is_synced r codecs s bh ≡ ok false
        → Distinct (earlier (block_hash r codecs s sh) ++ bh ∷ [])
    push-Distinct sh bh fresh = go (block_hash r codecs s sh) refl
      where
        go :
            (x : Result DbError (Option (List H)))
            → block_hash r codecs s sh ≡ x
            → Distinct (earlier x ++ bh ∷ [])
        go (ok (some hs)) eq =
            Distinct-append hs bh (old.distinct sh hs eq) (elim (Bool-cases (elem bh hs)) [
              | inl m ↦ cc (fresh, old.blocks_synced sh hs bh eq m)
              | inr n ↦ n
            ])
        go (ok none) eq = (refl, tt)
        go (err x) eq = (refl, tt)

  -- A batch for a block that was not synced keeps the database consistent.
  pub write_hashes-IsConsistent :
      (laws : RocksLaws r) (s s' : r.Db) (cache : Bool) (c : MappingCommitment H S)
      → IsConsistent s
      → is_synced r codecs s c.block_hash ≡ ok false
      → write_hashes r codecs s cache c ≡ ok s'
      → IsConsistent s'
  write_hashes-IsConsistent laws s s' cache c old fresh e = record {
    blocks_synced = λ sh hs h at m. elim (Bool-cases (c.starknet_block_hash == sh)) [
      | inl here ↦
          ground (arith, views h sh sh, push-synced s old c.starknet_block_hash c.block_hash h)
      | inr there ↦ ground (arith, views h sh sh, old.blocks_synced sh hs h)
    ];
    transactions_synced = λ t h at. ground (
      arith,
      views h c.starknet_block_hash t,
      ==_self c.block_hash,
      old.transactions_synced t h,
      views c.block_hash c.starknet_block_hash t,
    );
    distinct = λ sh hs at. ground (
      arith,
      views c.block_hash sh sh,
      old.distinct sh hs,
      push-Distinct s old c.starknet_block_hash c.block_hash fresh,
    );
  }
    where
      views :
          (h : H) (sh t : S)
          → (is_synced r codecs s' h
              ≡ (if c.block_hash == h then ok true else is_synced r codecs s h))
            × (block_hash r codecs s' sh ≡ (
                if c.starknet_block_hash == sh
                then ok (
                    some
                      (earlier (block_hash r codecs s c.starknet_block_hash) ++ c.block_hash ∷ []))
                else block_hash r codecs s sh))
            × (block_hash_from_transaction_hash r codecs s' t ≡ (
                if elem t c.starknet_transaction_hashes
                then ok (some c.block_hash)
                else block_hash_from_transaction_hash r codecs s t))
      views = write_hashes_views r codecs laws s s' cache c e
