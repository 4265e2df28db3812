-- ===== src/Db/Storage/ContractTrie.antt =====
-- `ContractTrieMut` and `ContractTrieView` of crates/client/db/src/storage.rs: the class, the storage root
-- and the nonce of each contract, hashed. Every operation acts on the storage of the backend.
use deoxys.Base.{ℕ, Option, List}
use deoxys.Base.Outcome.{Result, map_err}
use deoxys.Base.Effect.{pure, reads, for_each}
use deoxys.Db.Storage.Keys.{conv_contract_key}
use deoxys.Db.Storage.Trie.{BonsaiStorage}
use deoxys.Db.Storage.Handlers.{
  contract, DeoxysStorageError, storage_insertion_error, storage_retrieval_error, trie_init_error,
  trie_root_error, trie_commit_error, Felts, contract_trie, Handled, on_contract,
}

module _ {Fe : Type 0} (pedersen poseidon : BonsaiStorage Fe) (felts : Felts Fe) where
  unfoldable pub update : List (Fe × Fe) → Handled pedersen poseidon (Unit {0})
  unfolding conv_contract_key
  update = for_each λ change.
      on_contract pedersen poseidon storage_insertion_error
        (pedersen.insert contract_trie (conv_contract_key (felts.to_bytes change.0)) change.1)

  unfoldable pub commit : ℕ → Handled pedersen poseidon (Unit {0})
  commit block_number =
      on_contract pedersen poseidon trie_commit_error (pedersen.commit block_number)

  unfoldable pub init : Handled pedersen poseidon (Unit {0})
  init = on_contract pedersen poseidon trie_init_error (pedersen.init_tree contract_trie)

  -- Nothing is left to merge: the operations have written already.
  unfoldable pub apply_changes : Handled pedersen poseidon (Unit {0})
  apply_changes = pure tt

  unfoldable pub get : Fe → Handled pedersen poseidon (Option Fe)
  unfolding conv_contract_key
  get key =
      on_contract pedersen poseidon storage_retrieval_error
        (reads λ s. pedersen.get s contract_trie (conv_contract_key (felts.to_bytes key)))

  unfoldable pub view_get : pedersen.Storage → Fe → Result DeoxysStorageError (Option Fe)
  unfolding conv_contract_key
  view_get s key =
      map_err (λ _. storage_retrieval_error contract)
        (pedersen.get s contract_trie (conv_contract_key (felts.to_bytes key)))

  unfoldable pub view_root : pedersen.Storage → Result DeoxysStorageError Fe
  view_root s = map_err (λ _. trie_root_error contract) (pedersen.root_hash s contract_trie)
