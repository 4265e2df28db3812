-- ===== src/Commitments/Roots/Writes.antt =====
-- What the writes of crates/client/sync/src/commitments/lib.rs leave in the state tries, when the storages
-- do not fail.
use deoxys.Base.{◌≡◌, refl, ap, ◌∙◌, Bool, true, List, [], ◌∷◌, All, drop, Bool-cases, inl, inr}
use deoxys.Base.Assoc.{nat_Eq, list_Eq, ◌==◌, ==_self}
use deoxys.Db.Rocks.{Bytes}
use deoxys.Db.Storage.Keys.{as_bits}
use deoxys.Db.Storage.Trie.{BonsaiStorage, BonsaiLaws, Forest, set}
use deoxys.Db.Storage.Handlers.{Felts}

-- A storage after several insertions under one identifier, in their order.
module _ {Fe : Type 0} (b : BonsaiStorage Fe) (laws : BonsaiLaws b) where
  abbrev pub inserted_all : Bytes → List (List Bool × Fe) → b.Storage → b.Storage
  inserted_all i [] s = s
  inserted_all i ((k, v) ∷ rest) s = inserted_all i rest (laws.inserted i k v s)

  abbrev pub set_all : Bytes → List (List Bool × Fe) → Forest Fe → Forest Fe
  set_all i [] forest = forest
  set_all i ((k, v) ∷ rest) forest = set_all i rest (set i k (laws.kept v) forest)

  pub contents-inserted_all :
      (i : Bytes) (changes : List (List Bool × Fe)) (s : b.Storage)
      → laws.contents (inserted_all i changes s) ≡ set_all i changes (laws.contents s)
  contents-inserted_all i [] s = refl
  contents-inserted_all i ((k, v) ∷ rest) s =
      contents-inserted_all i rest (laws.inserted i k v s)
      ∙ ap (set_all i rest) (laws.contents-inserted i k v s)

  pub known-inserted_all :
      (i j : Bytes) (changes : List (List Bool × Fe)) (s : b.Storage)
      → laws.is_known (inserted_all i changes s) j ≡ laws.is_known s j
  known-inserted_all i j [] s = refl
  known-inserted_all i j ((k, v) ∷ rest) s =
      known-inserted_all i j rest (laws.inserted i k v s) ∙ laws.known-inserted i j k v s

  -- A trie that is known stays so, and is known once it is initialised.
  pub known-init : (i : Bytes) (s : b.Storage) → laws.is_known (laws.inited i s) i ≡ true
  known-init i s = rw (laws.known-inited i i s, ==_self i) refl

  pub known-init_other :
      (i j : Bytes) (s : b.Storage)
      → laws.is_known s j ≡ true
      → laws.is_known (laws.inited i s) j ≡ true
  known-init_other i j s h = elim (Bool-cases (j == i)) [
    | inl same ↦ rw (laws.known-inited i j s, same) refl
    | inr differs ↦ rw (laws.known-inited i j s, differs) h
  ]

module _ {Fe : Type 0} (pedersen : BonsaiStorage Fe) (lp : BonsaiLaws pedersen)
    (felts : Felts Fe) where
  -- The changes of one contract's storage, by trie key.
  abbrev pub storage_changes : List (Fe × Fe) → List (List Bool × Fe)
  storage_changes [] = []
  storage_changes ((key, v) ∷ rest) =
      (drop 5 (as_bits (felts.to_bytes key)), felts.from_bytes_be (felts.to_bytes v))
      ∷ storage_changes rest

  -- The leaves of contracts, and those of classes, by trie key.
  abbrev pub contract_changes : List (Fe × Fe) → List (List Bool × Fe)
  contract_changes [] = []
  contract_changes ((address, leaf) ∷ rest) =
      (drop 5 (as_bits (felts.to_bytes address)), leaf) ∷ contract_changes rest

  abbrev pub class_changes : List (Fe × Fe) → List (List Bool × Fe)
  class_changes [] = []
  class_changes ((class, leaf) ∷ rest) =
      (drop 5 (as_bits (felts.to_bytes class)), felts.from_bytes_be (felts.to_bytes leaf))
      ∷ class_changes rest

  abbrev pub after_contract : Fe × List (Fe × Fe) → pedersen.Storage → pedersen.Storage
  after_contract (address, updates) s =
      inserted_all pedersen lp (felts.to_bytes address) (storage_changes updates)
        (lp.inited (felts.to_bytes address) s)

  abbrev pub after_contracts : List (Fe × List (Fe × Fe)) → pedersen.Storage → pedersen.Storage
  after_contracts [] s = s
  after_contracts (contract ∷ rest) s = after_contracts rest (after_contract contract s)

  -- What the storage tries hold then.
  abbrev pub storage_forest : List (Fe × List (Fe × Fe)) → Forest Fe → Forest Fe
  storage_forest [] forest = forest
  storage_forest ((address, updates) ∷ rest) forest =
      storage_forest rest
        (set_all pedersen lp (felts.to_bytes address) (storage_changes updates) forest)

  pub contents-after_contracts :
      (updates : List (Fe × List (Fe × Fe))) (s : pedersen.Storage)
      → lp.contents (after_contracts updates s) ≡ storage_forest updates (lp.contents s)
  contents-after_contracts [] s = refl
  contents-after_contracts ((address, updates) ∷ rest) s =
      contents-after_contracts rest (after_contract (address, updates) s)
      ∙ ap (storage_forest rest) (
          contents-inserted_all pedersen lp (felts.to_bytes address) (storage_changes updates)
            (lp.inited (felts.to_bytes address) s)
          ∙ ap (set_all pedersen lp (felts.to_bytes address) (storage_changes updates))
              (lp.contents-inited (felts.to_bytes address) s))

  pub known-after_contract :
      (j : Bytes) (contract : Fe × List (Fe × Fe)) (s : pedersen.Storage)
      → lp.is_known s j ≡ true
      → lp.is_known (after_contract contract s) j ≡ true
  known-after_contract j (address, updates) s h =
      known-inserted_all pedersen lp (felts.to_bytes address) j (storage_changes updates)
        (lp.inited (felts.to_bytes address) s)
      ∙ known-init_other pedersen lp (felts.to_bytes address) j s h

  pub known-after_contracts :
      (j : Bytes) (updates : List (Fe × List (Fe × Fe))) (s : pedersen.Storage)
      → lp.is_known s j ≡ true
      → lp.is_known (after_contracts updates s) j ≡ true
  known-after_contracts j [] s h = h
  known-after_contracts j (contract ∷ rest) s h =
      known-after_contracts j rest (after_contract contract s) (known-after_contract j contract s h)

  abbrev pub HasTrie : pedersen.Storage → Fe × List (Fe × Fe) → Type 0
  HasTrie s contract = lp.is_known s (felts.to_bytes contract.0) ≡ true

  -- Each contract with storage changes has its trie afterwards.
  pub known-contracts :
      (updates : List (Fe × List (Fe × Fe))) (s : pedersen.Storage)
      → All (HasTrie (after_contracts updates s)) updates
  known-contracts [] s = tt
  known-contracts ((address, updates) ∷ rest) s = (
    known-after_contracts (felts.to_bytes address) rest (after_contract (address, updates) s) (
        known-inserted_all pedersen lp (felts.to_bytes address) (felts.to_bytes address)
          (storage_changes updates) (lp.inited (felts.to_bytes address) s)
        ∙ known-init pedersen lp (felts.to_bytes address) s),
    known-contracts rest (after_contract (address, updates) s),
  )
