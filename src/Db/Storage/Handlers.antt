-- ===== src/Db/Storage/Handlers.antt =====
-- The handlers of crates/client/db/src/storage.rs on the three storages of the backend. The locks are not
-- modelled: each call holds its lock from its start to its end, and a lock is poisoned only by a panic of
-- its holder.
use deoxys.Base.{ℕ, Option, none, some, [], ◌∷◌}
use deoxys.Base.Outcome.{◌>>=◌ as bind, Result, ok, err, map_err, ok_or}
use deoxys.Base.Effect.{Effect, reads}
use deoxys.Db.Rocks.{Bytes}
use deoxys.Db.Storage.Trie.{BonsaiStorage}

pub data StorageType : Type 0 where
  contract contract_storage class : StorageType

pub data DeoxysStorageError : Type 0 where
  storave_view_error storage_insertion_error storage_retrieval_error :
      StorageType → DeoxysStorageError
  trie_init_error trie_root_error trie_commit_error : StorageType → DeoxysStorageError
  trie_merge_error trie_id_error : StorageType → DeoxysStorageError

-- `starknet_core::types::BlockId`; a hash is its felt.
pub data BlockId (Fe : Type 0) : Type 0 where
  hash : Fe → BlockId Fe
  number : ℕ → BlockId Fe
  tag : BlockId Fe

-- The bytes of a Starknet value, and the felt of a buffer (`Felt::from_bytes_be`, also of a slice).
pub record Felts (Fe : Type 0) : Type 0 where
  pub to_bytes : Fe → Bytes
  pub from_bytes_be : Bytes → Fe

-- `bonsai_identifier`: the texts "0xcontract" and "0xclass".
abbrev pub contract_trie : Bytes
contract_trie = 48 ∷ 120 ∷ 99 ∷ 111 ∷ 110 ∷ 116 ∷ 114 ∷ 97 ∷ 99 ∷ 116 ∷ []

abbrev pub class_trie : Bytes
class_trie = 48 ∷ 120 ∷ 99 ∷ 108 ∷ 97 ∷ 115 ∷ 115 ∷ []

-- `map_err(|_| e)` on a call that changes a storage.
abbrev pub fails_with : {S F E A : Type 0} → E → Result F A × S → Result E A × S
fails_with e (r, s) = (map_err (λ _. e) r, s)

-- The storages of `DeoxysBackend`: the tries of contracts and of their storage are hashed by Pedersen,
-- that of classes by Poseidon.
module _ {Fe : Type 0} (pedersen poseidon : BonsaiStorage Fe) where
  pub record Backend : Type 0 where
    pub bonsai_contract : pedersen.Storage
    pub bonsai_storage : pedersen.Storage
    pub bonsai_class : poseidon.Storage

  abbrev pub Handled : Type 0 → Type 0
  Handled A = Effect Backend DeoxysStorageError A

  -- A call under the write lock of one storage.
  abbrev pub put_contract :
      {A : Type 0}
      → Backend
      → Result DeoxysStorageError A × pedersen.Storage
      → Result DeoxysStorageError A × Backend
  put_contract d (r, s) = (r, record d { bonsai_contract = s })

  abbrev pub put_storage :
      {A : Type 0}
      → Backend
      → Result DeoxysStorageError A × pedersen.Storage
      → Result DeoxysStorageError A × Backend
  put_storage d (r, s) = (r, record d { bonsai_storage = s })

  abbrev pub put_class :
      {A : Type 0}
      → Backend
      → Result DeoxysStorageError A × poseidon.Storage
      → Result DeoxysStorageError A × Backend
  put_class d (r, s) = (r, record d { bonsai_class = s })

  abbrev pub on_contract :
      {A : Type 0}
      → (StorageType → DeoxysStorageError)
      → Effect pedersen.Storage pedersen.Fault A
      → Handled A
  on_contract e m d = put_contract d (fails_with (e contract) (m d.bonsai_contract))

  abbrev pub on_storage :
      {A : Type 0}
      → (StorageType → DeoxysStorageError)
      → Effect pedersen.Storage pedersen.Fault A
      → Handled A
  on_storage e m d = put_storage d (fails_with (e contract_storage) (m d.bonsai_storage))

  abbrev pub on_class :
      {A : Type 0}
      → (StorageType → DeoxysStorageError)
      → Effect poseidon.Storage poseidon.Fault A
      → Handled A
  on_class e m d = put_class d (fails_with (e class) (m d.bonsai_class))

  -- A transactional state that is there; a failure and a missing one are the same error.
  abbrev pub transactional :
      {F T : Type 0} → StorageType → Result F (Option T) → Result DeoxysStorageError T
  transactional kind (ok (some transaction)) = ok transaction
  transactional kind (ok none) = err (storave_view_error kind)
  transactional kind (err fault) = err (storave_view_error kind)

  -- Any block that is not named by its number is the latest one.
  abbrev pub conv_block_id :
      (bonsai : BonsaiStorage Fe)
      → bonsai.Storage
      → BlockId Fe
      → StorageType
      → Result DeoxysStorageError ℕ
  conv_block_id bonsai s (number block_number) kind = ok block_number
  conv_block_id bonsai s (hash h) kind = ok_or (bonsai.get_latest_id s) (trie_id_error kind)
  conv_block_id bonsai s tag kind = ok_or (bonsai.get_latest_id s) (trie_id_error kind)

  -- `StorageHandler`: a handle to change a trie holds a transactional state, which no operation uses;
  -- a view reads the storage as it is while the view is held.
  unfoldable pub contract_mut : BlockId Fe → Handled pedersen.Transaction
  contract_mut block_id = reads λ d.
      bind (conv_block_id pedersen d.bonsai_contract block_id contract)
        λ id. transactional contract (pedersen.get_transactional_state d.bonsai_contract id)

  unfoldable pub contract_storage_mut : BlockId Fe → Handled pedersen.Transaction
  contract_storage_mut block_id = reads λ d.
      bind (conv_block_id pedersen d.bonsai_storage block_id contract_storage)
        λ id. transactional contract_storage (pedersen.get_transactional_state d.bonsai_storage id)

  unfoldable pub class_mut : BlockId Fe → Handled poseidon.Transaction
  class_mut block_id = reads λ d.
      bind (conv_block_id poseidon d.bonsai_class block_id class)
        λ id. transactional class (poseidon.get_transactional_state d.bonsai_class id)

  unfoldable pub contract_view : Handled pedersen.Storage
  contract_view = reads λ d. ok d.bonsai_contract

  unfoldable pub contract_storage_view : Handled pedersen.Storage
  contract_storage_view = reads λ d. ok d.bonsai_storage

  unfoldable pub class_view : Handled poseidon.Storage
  class_view = reads λ d. ok d.bonsai_class
