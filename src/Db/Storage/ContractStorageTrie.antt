-- ===== src/Db/Storage/ContractStorageTrie.antt =====
-- `ContractStorageTrieMut` and `ContractStorageTrieView` of crates/client/db/src/storage.rs: a trie for
-- each contract, under its address. Every operation acts on the storage of the backend.
use deoxys.Base.{ℕ, Option, List, map}
use deoxys.Base.Outcome.{◌>>=◌, Result, ok, map_err}
use deoxys.Base.Effect.{pure, reads}
use deoxys.Db.Rocks.{Bytes}
use deoxys.Db.Storage.Keys.{conv_contract_identifier, conv_contract_storage_key}
use deoxys.Db.Storage.Trie.{BonsaiStorage}
use deoxys.Db.Storage.Handlers.{
  contract_storage, DeoxysStorageError, storage_insertion_error, storage_retrieval_error,
  trie_init_error, trie_root_error, trie_commit_error, Felts, Handled, on_storage,
}

module _ {Fe : Type 0} (pedersen poseidon : BonsaiStorage Fe) (felts : Felts Fe) where
  abbrev pub conv_contract_value : Fe → Fe
  conv_contract_value value = felts.from_bytes_be (felts.to_bytes value)

  unfoldable pub insert : Fe → Fe → Fe → Handled pedersen poseidon (Unit {0})
  unfolding conv_contract_identifier conv_contract_storage_key
  insert identifier key value = on_storage pedersen poseidon storage_insertion_error (
      pedersen.insert (conv_contract_identifier (felts.to_bytes identifier))
        (conv_contract_storage_key (felts.to_bytes key)) (conv_contract_value value))

  unfoldable pub commit : ℕ → Handled pedersen poseidon (Unit {0})
  commit block_number =
      on_storage pedersen poseidon trie_commit_error (pedersen.commit block_number)

  unfoldable pub init : Fe → Handled pedersen poseidon (Unit {0})
  unfolding conv_contract_identifier
  init identifier =
      on_storage pedersen poseidon trie_init_error
        (pedersen.init_tree (conv_contract_identifier (felts.to_bytes identifier)))

  unfoldable pub apply_changes : Handled pedersen poseidon (Unit {0})
  apply_changes = pure tt

  abbrev pub felt_pairs : List (Bytes × Bytes) → List (Fe × Fe)
  felt_pairs = map λ pair. (felts.from_bytes_be pair.0, felts.from_bytes_be pair.1)

  unfoldable pub view_get : pedersen.Storage → Fe → Fe → Result DeoxysStorageError (Option Fe)
  unfolding conv_contract_identifier conv_contract_storage_key
  view_get s identifier key =
      map_err (λ _. storage_retrieval_error contract_storage)
        (pedersen.get s (conv_contract_identifier (felts.to_bytes identifier))
          (conv_contract_storage_key (felts.to_bytes key)))

  unfoldable pub view_get_storage :
      pedersen.Storage → Fe → Result DeoxysStorageError (List (Fe × Fe))
  unfolding conv_contract_identifier
  view_get_storage s identifier = do
    pairs ←
        map_err (λ _. storage_retrieval_error contract_storage)
          (pedersen.get_key_value_pairs s (conv_contract_identifier (felts.to_bytes identifier)))
    ok (felt_pairs pairs)

  unfoldable pub view_root : pedersen.Storage → Fe → Result DeoxysStorageError Fe
  unfolding conv_contract_identifier
  view_root s identifier =
      map_err (λ _. trie_root_error contract_storage)
        (pedersen.root_hash s (conv_contract_identifier (felts.to_bytes identifier)))

  -- The handle reads the backend's storage too, as a view does.
  unfoldable pub get : Fe → Fe → Handled pedersen poseidon (Option Fe)
  unfolding conv_contract_identifier conv_contract_storage_key
  get identifier key = on_storage pedersen poseidon storage_retrieval_error (
      reads λ s.
        pedersen.get s (conv_contract_identifier (felts.to_bytes identifier))
          (conv_contract_storage_key (felts.to_bytes key)))

  unfoldable pub get_storage : Fe → Handled pedersen poseidon (List (Fe × Fe))
  unfolding view_get_storage
  get_storage identifier = reads λ d. view_get_storage d.bonsai_storage identifier
