-- ===== src/Commitments/Roots/Tests.antt =====
-- The state root of crates/client/sync/src/commitments/lib.rs at a small block.
use deoxys.Base.{ℕ, ◌≡◌, refl, false, none, some, Option, [], ◌∷◌, ◌+◌, ◌*◌}
use deoxys.Base.Assoc.{nat_Eq}
use deoxys.Db.Storage.Handlers.{Backend, contract_trie, class_trie}
use deoxys.Db.Storage.Memory.{TreesInMemory, TreesInMemory_laws, number_felts, Trees, leaf_root}
use deoxys.Commitments.Leaves.{
  CommitmentStateDiff, StateHash, calculate_state_root, contract_updates, contract_state_leaf_hash,
  class_hash,
}
use deoxys.Commitments.Roots.{update_state_root}
use deoxys.Commitments.Roots.Writes.{storage_forest}
use deoxys.Commitments.Roots.Refines.{
  new_root, contract_forest, class_forest, update_state_root-contents,
}

abbrev pub empty_trees : Trees
empty_trees = record { names = λ i. false; leaves = λ i k. none }

abbrev pub empty_backend : Backend TreesInMemory TreesInMemory
empty_backend = record {
  bonsai_contract = empty_trees;
  bonsai_storage = empty_trees;
  bonsai_class = empty_trees;
}

abbrev pub sums : StateHash ℕ
sums = record {
  zero_fe = 0;
  one_fe = 1;
  pedersen = λ a b. a + 31 * b;
  poseidon = λ a b. a + 37 * b;
  poseidon_on_elements = λ fs. 9;
  state_prefix = 3;
  contract_class_hash_version = 5;
}

-- Contract 8, of class 41, is written to.
abbrev pub a_diff : CommitmentStateDiff ℕ
a_diff = record {
  address_to_class_hash = (8, 41) ∷ [];
  address_to_nonce = (8, 2) ∷ [];
  storage_updates = (8, (1, 2) ∷ []) ∷ [];
  class_hash_to_compiled_class_hash = (41, 6) ∷ [];
}

abbrev pub no_class : ℕ → ℕ → Option ℕ
no_class block address = none

abbrev pub a_leaf : ℕ
a_leaf =
    41
    + 31
      * leaf_root (
          storage_forest TreesInMemory TreesInMemory_laws number_felts a_diff.storage_updates
            empty_trees.leaves (number_felts.to_bytes 8))
    + 31 * 2
    + 31 * 0

a_leaf_hashed :
    contract_updates sums no_class a_diff
      (new_root TreesInMemory TreesInMemory TreesInMemory_laws TreesInMemory_laws number_felts sums
        a_diff.storage_updates empty_backend)
      none
    ≡ some ((8, a_leaf) ∷ [])
unfolding contract_updates contract_state_leaf_hash class_hash
a_leaf_hashed = refl

update_state_root-contents_example :
    (d' : Backend TreesInMemory TreesInMemory) × (update_state_root TreesInMemory TreesInMemory
        number_felts sums no_class a_diff 7 none empty_backend
      ≡ (
        some (
            calculate_state_root sums
              (leaf_root (
                contract_forest TreesInMemory TreesInMemory TreesInMemory_laws TreesInMemory_laws
                  number_felts sums
                  ((8, a_leaf) ∷ [])
                  empty_backend
                  contract_trie))
              (leaf_root (
                class_forest TreesInMemory TreesInMemory TreesInMemory_laws TreesInMemory_laws
                  number_felts sums a_diff empty_backend class_trie))),
        d',
      ))
    × (d'.bonsai_contract.leaves
        ≡ contract_forest TreesInMemory TreesInMemory TreesInMemory_laws TreesInMemory_laws
            number_felts sums
            ((8, a_leaf) ∷ [])
            empty_backend)
    × (d'.bonsai_storage.leaves
        ≡ storage_forest TreesInMemory TreesInMemory_laws number_felts a_diff.storage_updates
            empty_trees.leaves)
    × (d'.bonsai_class.leaves
        ≡ class_forest TreesInMemory TreesInMemory TreesInMemory_laws TreesInMemory_laws
            number_felts sums a_diff empty_backend)
update_state_root-contents_example =
    update_state_root-contents TreesInMemory TreesInMemory TreesInMemory_laws TreesInMemory_laws
      number_felts sums no_class a_diff 7 none empty_backend ((8, a_leaf) ∷ []) tt tt tt refl refl
      refl a_leaf_hashed
