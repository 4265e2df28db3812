-- ===== src/Commitments/Roots.antt =====
-- The roots of the state tries of a block: `contract_trie_root`, `class_trie_root` and `update_state_root`
-- of crates/client/sync/src/commitments/lib.rs, on the storages of crates/client/db/src/storage.rs.
mod Writes
mod Refines
pub mod Tests
use deoxys.Base.{ℕ, ◌+◌, Option, none, some, List, [], ◌∷◌}
use deoxys.Base.Outcome.{Result, ok, err}
use deoxys.Base.Effect.{Effect, pure, reads, ◌>>=◌, ◌>>◌, for_each}
use deoxys.Base.Assoc.{Eq}
use deoxys.Db.Storage.Trie.{BonsaiStorage}
use deoxys.Db.Storage.Handlers.{
  DeoxysStorageError, Felts, Backend, Handled, number, contract_mut, contract_storage_mut,
  class_mut, contract_view, contract_storage_view, class_view,
}
use deoxys.Db.Storage.ContractTrie
use deoxys.Db.Storage.ContractStorageTrie
use deoxys.Db.Storage.ClassTrie
use deoxys.Commitments.Leaves.{
  CommitmentStateDiff, StateHash, contract_updates, class_updates, calculate_state_root,
}

-- An error that is passed on, or a panic.
pub data Stop : Type 0 where
  panicked : Stop
  failed : DeoxysStorageError → Stop

abbrev pub or_stop : {A : Type 0} → Result DeoxysStorageError A → Result Stop A
or_stop (ok a) = ok a
or_stop (err e) = err (failed e)

abbrev pub or_panic : {A : Type 0} → Option A → Result Stop A
or_panic none = err panicked
or_panic (some a) = ok a

-- `unwrap()`
abbrev pub unwrap : {A : Type 0} → Result DeoxysStorageError A → Option A
unwrap (ok a) = some a
unwrap (err e) = none

abbrev pub stopped : {A D : Type 0} → Result DeoxysStorageError A × D → Result Stop A × D
stopped (r, d) = (or_stop r, d)

-- `expect` on both results of `rayon::join`.
abbrev pub join : {A : Type 0} → (A → A → A) → Result Stop A → Result Stop A → Option A
join f (ok a) (ok b) = some (f a b)
join f (ok a) (err e) = none
join f (err e) r = none

module _ {Fe : Type 0} (pedersen poseidon : BonsaiStorage Fe) where
  abbrev pub Rooted : Type 0 → Type 0
  Rooted A = Effect (Backend pedersen poseidon) Stop A

  -- `?` on a call of a handler.
  abbrev pub try : {A : Type 0} → Handled pedersen poseidon A → Rooted A
  try m d = stopped (m d)

module _ {Fe : Type 0} ⦃e : Eq Fe⦄ (pedersen poseidon : BonsaiStorage Fe) (felts : Felts Fe)
    (hs : StateHash Fe) where
  -- The storage changes of one contract, after its trie is initialised.
  unfoldable pub write_contract_storage : Fe × List (Fe × Fe) → Rooted pedersen poseidon (Unit {0})
  unfolding ContractStorageTrie.init ContractStorageTrie.insert
  write_contract_storage (address, updates) = do
    try pedersen poseidon (ContractStorageTrie.init pedersen poseidon felts address)
    for_each
        (λ change.
          try pedersen poseidon
            (ContractStorageTrie.insert pedersen poseidon felts address change.0 change.1))
        updates

  module _ {Block : Type 0} (overrides : Block → Fe → Option Fe) where
    unfoldable pub contract_trie_root :
        CommitmentStateDiff Fe → ℕ → Option Block → Rooted pedersen poseidon Fe
    unfolding contract_mut contract_storage_mut contract_view contract_storage_view
        write_contract_storage contract_updates ContractTrie.init ContractTrie.update
        ContractTrie.commit ContractTrie.apply_changes ContractTrie.view_root
        ContractStorageTrie.commit ContractStorageTrie.apply_changes ContractStorageTrie.view_root
    contract_trie_root csd block_number maybe_block = do
      contract_write ← try pedersen poseidon (contract_mut pedersen poseidon (number block_number))
      storage_write ←
          try pedersen poseidon (contract_storage_mut pedersen poseidon (number block_number))
      try pedersen poseidon (ContractTrie.init pedersen poseidon felts)
      for_each write_contract_storage csd.storage_updates
      try pedersen poseidon (ContractStorageTrie.commit pedersen poseidon felts (block_number + 1))
      try pedersen poseidon (ContractStorageTrie.apply_changes pedersen poseidon felts)
      storage_read ← try pedersen poseidon (contract_storage_view pedersen poseidon)
      let root_of = λ (address : Fe).
          unwrap (ContractStorageTrie.view_root pedersen poseidon felts storage_read address)
      updates ← reads (λ d. or_panic (contract_updates hs overrides csd root_of maybe_block))
      try pedersen poseidon (ContractTrie.update pedersen poseidon felts updates)
      try pedersen poseidon (ContractTrie.commit pedersen poseidon felts (block_number + 1))
      try pedersen poseidon (ContractTrie.apply_changes pedersen poseidon felts)
      contract_read ← try pedersen poseidon (contract_view pedersen poseidon)
      reads (λ d. or_stop (ContractTrie.view_root pedersen poseidon felts contract_read))

  unfoldable pub class_trie_root : CommitmentStateDiff Fe → ℕ → Rooted pedersen poseidon Fe
  unfolding class_mut class_view class_updates ClassTrie.init ClassTrie.update ClassTrie.commit
      ClassTrie.apply_changes ClassTrie.view_root
  class_trie_root csd block_number = do
    class_write ← try pedersen poseidon (class_mut pedersen poseidon (number block_number))
    try pedersen poseidon (ClassTrie.init pedersen poseidon felts)
    try pedersen poseidon (ClassTrie.update pedersen poseidon felts (class_updates hs csd))
    try pedersen poseidon (ClassTrie.commit pedersen poseidon felts (block_number + 1))
    try pedersen poseidon (ClassTrie.apply_changes pedersen poseidon felts)
    class_read ← try pedersen poseidon (class_view pedersen poseidon)
    reads (λ d. or_stop (ClassTrie.view_root pedersen poseidon felts class_read))

  -- The two run at once; they use different storages, and both run to their end.
  module _ {Block : Type 0} (overrides : Block → Fe → Option Fe) where
    unfoldable pub update_state_root :
        CommitmentStateDiff Fe
        → ℕ
        → Option Block
        → Backend pedersen poseidon
        → Option Fe × Backend pedersen poseidon
    unfolding contract_trie_root class_trie_root calculate_state_root
    update_state_root csd block_number maybe_block d =
        let contracts = contract_trie_root overrides csd block_number maybe_block d in
        let classes = class_trie_root csd block_number contracts.1 in
        (join (calculate_state_root hs) contracts.0 classes.0, classes.1)
