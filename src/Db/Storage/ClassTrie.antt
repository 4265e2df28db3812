-- ===== src/Db/Storage/ClassTrie.antt =====
-- `ClassTrieMut` and `ClassTrieView` of crates/client/db/src/storage.rs: the hash of each class's compiled
-- class. Every operation acts on the storage of the backend.
use deoxys.Base.{ℕ, Option, List}
use deoxys.Base.Outcome.{Result, map_err}
use deoxys.Base.Effect.{pure, reads, for_each}
use deoxys.Db.Storage.Keys.{conv_class_key}
use deoxys.Db.Storage.Trie.{BonsaiStorage}
use deoxys.Db.Storage.Handlers.{
  class, DeoxysStorageError, storage_insertion_error, storage_retrieval_error, trie_init_error,
  trie_root_error, trie_commit_error, Felts, class_trie, Handled, on_class,
}

module _ {Fe : Type 0} (pedersen poseidon : BonsaiStorage Fe) (felts : Felts Fe) where
  unfoldable pub update : List (Fe × Fe) → Handled pedersen poseidon (Unit {0})
  unfolding conv_class_key
  update = for_each λ change. on_class pedersen poseidon storage_insertion_error (
      poseidon.insert class_trie (conv_class_key (felts.to_bytes change.0))
        (felts.from_bytes_be (felts.to_bytes change.1)))

  unfoldable pub commit : ℕ → Handled pedersen poseidon (Unit {0})
  commit block_number = on_class pedersen poseidon trie_commit_error (poseidon.commit block_number)

  unfoldable pub init : Handled pedersen poseidon (Unit {0})
  init = on_class pedersen poseidon trie_init_error (poseidon.init_tree class_trie)

  unfoldable pub apply_changes : Handled pedersen poseidon (Unit {0})
  apply_changes = pure tt

  unfoldable pub get : Fe → Handled pedersen poseidon (Option Fe)
  unfolding conv_class_key
  get key =
      on_class pedersen poseidon storage_retrieval_error
        (reads λ s. poseidon.get s class_trie (conv_class_key (felts.to_bytes key)))

  unfoldable pub view_get : poseidon.Storage → Fe → Result DeoxysStorageError (Option Fe)
  unfolding conv_class_key
  view_get s key =
      map_err (λ _. storage_retrieval_error class)
        (poseidon.get s class_trie (conv_class_key (felts.to_bytes key)))

  unfoldable pub view_root : poseidon.Storage → Result DeoxysStorageError Fe
  view_root s = map_err (λ _. trie_root_error class) (poseidon.root_hash s class_trie)
