-- ===== src/Reorgs.antt =====
-- The search for a common ancestor after a reorg: crates/client/sync/src/reorgs/lib.rs. `highest i` is the
-- hash that the call number `i` of `get_highest_block_hash_and_number` gives: the function itself changes
-- nothing, so the answers change only as other tasks write them.
mod Tests
use deoxys.Base.{
  ℕ, zero, suc, ◌+◌, ◌≡◌, refl, sym, ap, ◌∙◌, Bool, true, false, Option, none, some, List,
  if◌then◌else◌, arith,
}
use deoxys.Base.Assoc.{Eq, ◌==◌}

module _ {H : Type 0} ⦃e : Eq H⦄ (highest : ℕ → H) (parent : H) where
  -- `while block.parent_block_hash != new_lsbh`, before the call number `i`; `none` when the fuel is used.
  unfoldable pub seek_parent : ℕ → ℕ → H → Option Bool
  seek_parent zero i new_lsbh = if parent == new_lsbh then some true else none
  seek_parent (suc fuel) i new_lsbh =
      let rest = seek_parent fuel (suc i) (highest i) in
      if parent == new_lsbh then some true else rest

  unfoldable pub reorg : ℕ → Option Bool
  unfolding seek_parent
  reorg fuel =
      let sought = seek_parent fuel 1 (highest 0) in
      if parent == highest 0 then some false else sought

module _ {H : Type 0} ⦃e : Eq H⦄ (parent : H) where
  seek_parent-stuck :
      (last : H) (fuel i : ℕ)
      → (parent == last) ≡ false
      → seek_parent (λ _. last) parent fuel i last ≡ none
  unfolding seek_parent
  seek_parent-stuck last zero i differs = rw differs
  seek_parent-stuck last (suc fuel) i differs =
      rw differs (seek_parent-stuck last fuel (suc i) differs)

  -- While no other task changes the highest block, a block whose parent is not that block is never
  -- answered: no number of rounds is enough.
  pub reorg-stuck :
      (last : H) (fuel : ℕ) → (parent == last) ≡ false → reorg (λ _. last) parent fuel ≡ none
  unfolding reorg
  reorg-stuck last fuel differs = rw differs (seek_parent-stuck last fuel 1 differs)

module _ {H : Type 0} ⦃e : Eq H⦄ (highest : ℕ → H) (parent : H) where
  at_index : (n m : ℕ) → n ≡ m → (parent == highest n) ≡ true → (parent == highest m) ≡ true
  at_index n m e found = sym (ap (λ (k : ℕ). parent == highest k) e) ∙ found

  seek_parent-finds :
      (rounds i : ℕ) (new_lsbh : H)
      → (parent == highest (i + rounds)) ≡ true
      → seek_parent highest parent (suc rounds) i new_lsbh ≡ some true
  unfolding seek_parent
  seek_parent-finds zero i new_lsbh found = ground (arith, at_index (i + 0) i (omega arith) found)
  seek_parent-finds (suc rounds) i new_lsbh found = ground (
    arith,
    seek_parent-finds rounds (suc i) (highest i)
        (at_index (i + suc rounds) (suc i + rounds) (omega arith) found),
  )

  -- A block is answered once another task has made its parent the highest block; the answer is that there
  -- was a reorg unless it was the highest block from the start.
  pub reorg-finds :
      (rounds : ℕ)
      → (parent == highest (1 + rounds)) ≡ true
      → reorg highest parent (suc rounds) ≡ some (if parent == highest 0 then false else true)
  unfolding reorg
  reorg-finds rounds found = ground (arith, seek_parent-finds rounds 1 (highest 0) found)
