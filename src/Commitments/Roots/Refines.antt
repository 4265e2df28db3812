-- ===== src/Commitments/Roots/Refines.antt =====
-- The state root of crates/client/sync/src/commitments/lib.rs against a description of it by what the
-- tries hold.
use deoxys.Base.{ℕ, ◌+◌, ◌≡◌, refl, ap, ◌∙◌, true, Option, some, List, [], ◌∷◌, All, drop}
use deoxys.Base.Opt.{◌>>=◌, collect}
use deoxys.Base.Outcome.{ok}
use deoxys.Base.Effect.{for_each}
use deoxys.Base.Assoc.{Eq}
use deoxys.Db.Storage.Keys.{
  as_bits, conv_contract_identifier, conv_contract_key, conv_contract_storage_key, conv_class_key,
}
use deoxys.Db.Storage.Trie.{BonsaiStorage, BonsaiLaws, Forest}
use deoxys.Db.Storage.Handlers.{
  Felts, Backend, contract_trie, class_trie, contract_mut, contract_storage_mut, class_mut,
  contract_view, contract_storage_view, class_view,
}
use deoxys.Db.Storage.ContractTrie
use deoxys.Db.Storage.ContractStorageTrie
use deoxys.Db.Storage.ClassTrie
use deoxys.Commitments.Leaves.{
  CommitmentStateDiff, StateHash, contract_state_leaf_hash, contract_updates, class_updates,
  calculate_state_root,
}
use deoxys.Commitments.Roots.{
  unwrap, try, write_contract_storage, contract_trie_root, class_trie_root, update_state_root,
}
use deoxys.Commitments.Roots.Writes.{
  inserted_all, set_all, storage_changes, storage_forest, contract_changes, class_changes,
  contents-after_contracts, contents-inserted_all, known-inserted_all, known-contracts,
  after_contract, after_contracts, HasTrie, known-init,
}

module _ {Fe : Type 0} ⦃e : Eq Fe⦄ (pedersen poseidon : BonsaiStorage Fe) (lp : BonsaiLaws pedersen)
    (lq : BonsaiLaws poseidon) (felts : Felts Fe) (hs : StateHash Fe) where
  inserts_run :
      (address : Fe) (updates : List (Fe × Fe)) (d : Backend pedersen poseidon)
      → lp.is_known d.bonsai_storage (felts.to_bytes address) ≡ true
      → for_each
          (λ (change : Fe × Fe).
            try pedersen poseidon
              (ContractStorageTrie.insert pedersen poseidon felts address change.0 change.1))
          updates
          d
        ≡ (
          ok tt,
          record d {
            bonsai_storage =
                inserted_all pedersen lp
                  (felts.to_bytes address)
                  (storage_changes pedersen lp felts updates)
                  d.bonsai_storage;
          },
        )
  unfolding ContractStorageTrie.insert conv_contract_identifier conv_contract_storage_key
  inserts_run address [] d known = refl
  inserts_run address ((k, v) ∷ rest) d known =
      rw
        (lp.inserts (felts.to_bytes address) (drop 5 (as_bits (felts.to_bytes k)))
          (felts.from_bytes_be (felts.to_bytes v)) d.bonsai_storage known)
        (inserts_run address rest
          (record d {
            bonsai_storage =
                lp.inserted (felts.to_bytes address) (drop 5 (as_bits (felts.to_bytes k)))
                  (felts.from_bytes_be (felts.to_bytes v)) d.bonsai_storage;
          })
          (lp.known-inserted (felts.to_bytes address) (felts.to_bytes address)
              (drop 5 (as_bits (felts.to_bytes k))) (felts.from_bytes_be (felts.to_bytes v))
              d.bonsai_storage
            ∙ known))

  contract_run :
      (contract : Fe × List (Fe × Fe)) (d : Backend pedersen poseidon)
      → write_contract_storage pedersen poseidon felts hs contract d ≡ (
        ok tt,
        record d { bonsai_storage = after_contract pedersen lp felts contract d.bonsai_storage },
      )
  unfolding write_contract_storage ContractStorageTrie.init conv_contract_identifier
  contract_run (address, updates) d = rw (lp.inits (felts.to_bytes address) d.bonsai_storage) (
      inserts_run address updates
        (record d { bonsai_storage = lp.inited (felts.to_bytes address) d.bonsai_storage })
        (known-init pedersen lp (felts.to_bytes address) d.bonsai_storage))

  contracts_run :
      (updates : List (Fe × List (Fe × Fe))) (d : Backend pedersen poseidon)
      → for_each (write_contract_storage pedersen poseidon felts hs) updates d ≡ (
        ok tt,
        record d { bonsai_storage = after_contracts pedersen lp felts updates d.bonsai_storage },
      )
  contracts_run [] d = refl
  contracts_run (contract ∷ rest) d = rw (contract_run contract d) (
      contracts_run rest
        (record d { bonsai_storage = after_contract pedersen lp felts contract d.bonsai_storage }))

  leaves_run :
      (leaves : List (Fe × Fe)) (d : Backend pedersen poseidon)
      → lp.is_known d.bonsai_contract contract_trie ≡ true
      → ContractTrie.update pedersen poseidon felts leaves d ≡ (
        ok tt,
        record d {
          bonsai_contract =
              inserted_all pedersen lp contract_trie
                (contract_changes pedersen lp felts leaves)
                d.bonsai_contract;
        },
      )
  unfolding ContractTrie.update conv_contract_key
  leaves_run [] d known = refl
  leaves_run ((address, leaf) ∷ rest) d known =
      let key = drop 5 (as_bits (felts.to_bytes address)) in
      rw (lp.inserts contract_trie key leaf d.bonsai_contract known) (
        leaves_run rest
          (record d { bonsai_contract = lp.inserted contract_trie key leaf d.bonsai_contract })
          (lp.known-inserted contract_trie contract_trie key leaf d.bonsai_contract ∙ known))

  classes_run :
      (leaves : List (Fe × Fe)) (d : Backend pedersen poseidon)
      → lq.is_known d.bonsai_class class_trie ≡ true
      → ClassTrie.update pedersen poseidon felts leaves d ≡ (
        ok tt,
        record d {
          bonsai_class =
              inserted_all poseidon lq class_trie
                (class_changes poseidon lq felts leaves)
                d.bonsai_class;
        },
      )
  unfolding ClassTrie.update conv_class_key
  classes_run [] d known = refl
  classes_run ((class, leaf) ∷ rest) d known =
      let key = drop 5 (as_bits (felts.to_bytes class)) in
      let v = felts.from_bytes_be (felts.to_bytes leaf) in
      rw (lq.inserts class_trie key v d.bonsai_class known) (
        classes_run rest (record d { bonsai_class = lq.inserted class_trie key v d.bonsai_class })
          (lq.known-inserted class_trie class_trie key v d.bonsai_class ∙ known))

  -- The storage root that a contract has by the time its leaf is hashed.
  abbrev pub new_root : List (Fe × List (Fe × Fe)) → Backend pedersen poseidon → Fe → Option Fe
  new_root updates d address = some (
      lp.root_of (
        storage_forest pedersen lp felts updates (lp.contents d.bonsai_storage)
          (felts.to_bytes address)))

  read_root : ℕ → List (Fe × List (Fe × Fe)) → Backend pedersen poseidon → Fe → Option Fe
  read_root n updates d address = unwrap (
      ContractStorageTrie.view_root pedersen poseidon felts
        (lp.committed n (after_contracts pedersen lp felts updates d.bonsai_storage)) address)

  read_root_lem :
      (n : ℕ) (updates : List (Fe × List (Fe × Fe))) (d : Backend pedersen poseidon) (address : Fe)
      → lp.is_known
          (after_contracts pedersen lp felts updates d.bonsai_storage)
          (felts.to_bytes address)
        ≡ true
      → read_root n updates d address ≡ new_root updates d address
  unfolding read_root ContractStorageTrie.view_root conv_contract_identifier
  read_root_lem n updates d address known =
      rw
        (
          lp.roots n (after_contracts pedersen lp felts updates d.bonsai_storage)
              (felts.to_bytes address) known,
          contents-after_contracts pedersen lp felts updates d.bonsai_storage,
        )
        refl

  -- `contract_updates` asks for the roots of the contracts with storage changes only.
  contract_updates_agree :
      {Block : Type 0} (overrides : Block → Fe → Option Fe) (csd : CommitmentStateDiff Fe)
      (maybe_block : Option Block) (f g : Fe → Option Fe)
      → All (λ (c : Fe × List (Fe × Fe)). f c.0 ≡ g c.0) csd.storage_updates
      → contract_updates hs overrides csd f maybe_block
        ≡ contract_updates hs overrides csd g maybe_block
  unfolding contract_updates
  contract_updates_agree overrides csd maybe_block f g agree = walk csd.storage_updates agree
    where
      leaf : (Fe → Option Fe) → Fe × List (Fe × Fe) → Option (Fe × Fe)
      leaf root contract = root contract.0 >>= λ r.
          contract_state_leaf_hash hs overrides csd contract.0 r maybe_block >>= λ l.
          some (contract.0, l)

      walk :
          (cs : List (Fe × List (Fe × Fe)))
          → All (λ (c : Fe × List (Fe × Fe)). f c.0 ≡ g c.0) cs
          → collect (leaf f) cs ≡ collect (leaf g) cs
      walk [] h = refl
      walk (c ∷ cs) h = rw (h.0, walk cs h.1) refl

  -- The storages that a block leaves.
  abbrev stored : ℕ → CommitmentStateDiff Fe → Backend pedersen poseidon → pedersen.Storage
  stored n csd d =
      lp.committed (n + 1) (after_contracts pedersen lp felts csd.storage_updates d.bonsai_storage)

  abbrev written_contracts : List (Fe × Fe) → Backend pedersen poseidon → pedersen.Storage
  written_contracts leaves d =
      inserted_all pedersen lp contract_trie (contract_changes pedersen lp felts leaves)
        (lp.inited contract_trie d.bonsai_contract)

  abbrev written_classes : CommitmentStateDiff Fe → Backend pedersen poseidon → poseidon.Storage
  written_classes csd d =
      inserted_all poseidon lq class_trie (class_changes poseidon lq felts (class_updates hs csd))
        (lq.inited class_trie d.bonsai_class)

  -- What the tries of contracts and classes hold then.
  abbrev pub contract_forest : List (Fe × Fe) → Backend pedersen poseidon → Forest Fe
  contract_forest leaves d =
      set_all pedersen lp contract_trie (contract_changes pedersen lp felts leaves)
        (lp.contents d.bonsai_contract)

  abbrev pub class_forest : CommitmentStateDiff Fe → Backend pedersen poseidon → Forest Fe
  class_forest csd d =
      set_all poseidon lq class_trie (class_changes poseidon lq felts (class_updates hs csd))
        (lq.contents d.bonsai_class)

  contents-written_contracts :
      (leaves : List (Fe × Fe)) (d : Backend pedersen poseidon)
      → lp.contents (written_contracts leaves d) ≡ contract_forest leaves d
  contents-written_contracts leaves d =
      contents-inserted_all pedersen lp contract_trie (contract_changes pedersen lp felts leaves)
        (lp.inited contract_trie d.bonsai_contract)
      ∙ ap (set_all pedersen lp contract_trie (contract_changes pedersen lp felts leaves))
          (lp.contents-inited contract_trie d.bonsai_contract)

  contents-written_classes :
      (csd : CommitmentStateDiff Fe) (d : Backend pedersen poseidon)
      → lq.contents (written_classes csd d) ≡ class_forest csd d
  contents-written_classes csd d =
      let changes = class_changes poseidon lq felts (class_updates hs csd) in
      contents-inserted_all poseidon lq class_trie changes (lq.inited class_trie d.bonsai_class)
      ∙ ap (set_all poseidon lq class_trie changes) (lq.contents-inited class_trie d.bonsai_class)

  class_trie_root_run :
      (csd : CommitmentStateDiff Fe) (n : ℕ) (d : Backend pedersen poseidon)
      (transaction : poseidon.Transaction)
      → poseidon.get_transactional_state d.bonsai_class n ≡ ok (some transaction)
      → class_trie_root pedersen poseidon felts hs csd n d ≡ (
        ok (lq.root_of (class_forest csd d class_trie)),
        record d { bonsai_class = lq.committed (n + 1) (written_classes csd d) },
      )
  unfolding class_trie_root class_mut class_view ClassTrie.init ClassTrie.commit
      ClassTrie.apply_changes ClassTrie.view_root
  class_trie_root_run csd n d transaction opened =
      let s = lq.inited class_trie d.bonsai_class in
      let known = known-init poseidon lq class_trie d.bonsai_class in
      let changes = class_changes poseidon lq felts (class_updates hs csd) in
      rw
        (
          opened,
          lq.inits class_trie d.bonsai_class,
          classes_run (class_updates hs csd) (record d { bonsai_class = s }) known,
          lq.commits (n + 1) (written_classes csd d),
          lq.roots (n + 1) (written_classes csd d) class_trie
              (known-inserted_all poseidon lq class_trie class_trie changes s ∙ known),
          contents-written_classes csd d,
        )
        refl

  module _ {Block : Type 0} (overrides : Block → Fe → Option Fe) where
    -- The leaves are hashed with the storage roots that the block's own changes give.
    leaves_lem :
        (csd : CommitmentStateDiff Fe) (n : ℕ) (maybe_block : Option Block)
        (d : Backend pedersen poseidon)
        → contract_updates hs overrides csd (read_root n csd.storage_updates d) maybe_block
          ≡ contract_updates hs overrides csd (new_root csd.storage_updates d) maybe_block
    leaves_lem csd n maybe_block d =
        contract_updates_agree overrides csd maybe_block (read_root n csd.storage_updates d)
          (new_root csd.storage_updates d)
          (walk csd.storage_updates
            (known-contracts pedersen lp felts csd.storage_updates d.bonsai_storage))
      where
        walk :
            (cs : List (Fe × List (Fe × Fe)))
            → All
                (HasTrie pedersen lp felts
                  (after_contracts pedersen lp felts csd.storage_updates d.bonsai_storage))
                cs
            → All
                (λ (c : Fe × List (Fe × Fe)).
                  read_root n csd.storage_updates d c.0 ≡ new_root csd.storage_updates d c.0)
                cs
        walk [] h = tt
        walk (c ∷ cs) h = (read_root_lem n csd.storage_updates d c.0 h.0, walk cs h.1)

    contract_trie_root_run :
        (csd : CommitmentStateDiff Fe) (n : ℕ) (maybe_block : Option Block)
        (d : Backend pedersen poseidon) (leaves : List (Fe × Fe)) (t u : pedersen.Transaction)
        → pedersen.get_transactional_state d.bonsai_contract n ≡ ok (some t)
        → pedersen.get_transactional_state d.bonsai_storage n ≡ ok (some u)
        → contract_updates hs overrides csd (new_root csd.storage_updates d) maybe_block
          ≡ some leaves
        → contract_trie_root pedersen poseidon felts hs overrides csd n maybe_block d ≡ (
          ok (lp.root_of (contract_forest leaves d contract_trie)),
          record d {
            bonsai_contract = lp.committed (n + 1) (written_contracts leaves d);
            bonsai_storage = stored n csd d;
          },
        )
    unfolding contract_trie_root contract_mut contract_storage_mut contract_view
        contract_storage_view ContractTrie.init ContractTrie.commit ContractTrie.apply_changes
        ContractTrie.view_root ContractStorageTrie.commit ContractStorageTrie.apply_changes
        read_root
    contract_trie_root_run csd n maybe_block d leaves t u opened opened_storage hashed =
        let s = lp.inited contract_trie d.bonsai_contract in
        let known = known-init pedersen lp contract_trie d.bonsai_contract in
        let changes = contract_changes pedersen lp felts leaves in
        rw
          (
            opened,
            opened_storage,
            lp.inits contract_trie d.bonsai_contract,
            contracts_run csd.storage_updates (record d { bonsai_contract = s }),
            lp.commits (n + 1)
                (after_contracts pedersen lp felts csd.storage_updates d.bonsai_storage),
            leaves_lem csd (n + 1) maybe_block d,
            hashed,
            leaves_run leaves (record d { bonsai_contract = s; bonsai_storage = stored n csd d })
                known,
            lp.commits (n + 1) (written_contracts leaves d),
            lp.roots (n + 1) (written_contracts leaves d) contract_trie
                (known-inserted_all pedersen lp contract_trie contract_trie changes s ∙ known),
            contents-written_contracts leaves d,
          )
          refl

    -- Where the storages do not fail, the tries of the block can be opened, and each contract with storage
    -- changes has a class, `update_state_root` does not panic: its result is the state root of the two
    -- tries that hold what they held before with the block's leaves written over it, the contracts' leaves
    -- hashed with the roots that their storage tries have after the block's changes. The storages are left
    -- with exactly these contents.
    pub update_state_root-contents :
        (csd : CommitmentStateDiff Fe) (n : ℕ) (maybe_block : Option Block)
        (d : Backend pedersen poseidon) (leaves : List (Fe × Fe)) (t u : pedersen.Transaction)
        (w : poseidon.Transaction)
        → pedersen.get_transactional_state d.bonsai_contract n ≡ ok (some t)
        → pedersen.get_transactional_state d.bonsai_storage n ≡ ok (some u)
        → poseidon.get_transactional_state d.bonsai_class n ≡ ok (some w)
        → contract_updates hs overrides csd (new_root csd.storage_updates d) maybe_block
          ≡ some leaves
        → (d' : Backend pedersen poseidon) × (update_state_root pedersen poseidon felts hs overrides
              csd n maybe_block d
            ≡ (
              some (
                  calculate_state_root hs
                    (lp.root_of (contract_forest leaves d contract_trie))
                    (lq.root_of (class_forest csd d class_trie))),
              d',
            ))
          × (lp.contents d'.bonsai_contract ≡ contract_forest leaves d)
          × (lp.contents d'.bonsai_storage
              ≡ storage_forest pedersen lp felts csd.storage_updates (lp.contents d.bonsai_storage))
          × (lq.contents d'.bonsai_class ≡ class_forest csd d)
    unfolding update_state_root
    update_state_root-contents csd n maybe_block d leaves t u w opened opened_storage opened_class
          hashed =
        let d1 : Backend pedersen poseidon = record d {
          bonsai_contract = lp.committed (n + 1) (written_contracts leaves d);
          bonsai_storage = stored n csd d;
        } in
        (
          record d1 { bonsai_class = lq.committed (n + 1) (written_classes csd d) },
          rw
              (
                contract_trie_root_run csd n maybe_block d leaves t u opened opened_storage hashed,
                class_trie_root_run csd n d1 w opened_class,
              )
              refl,
          lp.contents-committed (n + 1) (written_contracts leaves d)
              ∙ contents-written_contracts leaves d,
          lp.contents-committed (n + 1)
                (after_contracts pedersen lp felts csd.storage_updates d.bonsai_storage)
              ∙ contents-after_contracts pedersen lp felts csd.storage_updates d.bonsai_storage,
          lq.contents-committed (n + 1) (written_classes csd d) ∙ contents-written_classes csd d,
        )
