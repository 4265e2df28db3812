-- ===== src/Commitments/Leaves.antt =====
-- The state diff of a block and the leaves of the state tries: crates/client/sync/src/commitments/lib.rs.
-- `none` stands for a panic.
use deoxys.Base.{Option, none, some, List, [], ◌∷◌, if◌then◌else◌}
use deoxys.Base.Opt.{◌>>=◌, collect}
use deoxys.Base.Assoc.{Eq, ◌==◌, lookup}
use deoxys.Pallet.State.{insert_all, or_default}

-- The fields of `StateUpdateWrapper`'s state diff.
pub record StateUpdate (Fe : Type 0) : Type 0 where
  pub deployed_contracts : List (Fe × Fe)
  pub replaced_classes : List (Fe × Fe)
  pub nonces : List (Fe × Fe)
  pub storage_diffs : List (Fe × List (Fe × Fe))
  pub declared_classes : List (Fe × Fe)

pub record CommitmentStateDiff (Fe : Type 0) : Type 0 where
  pub address_to_class_hash : List (Fe × Fe)
  pub address_to_nonce : List (Fe × Fe)
  pub storage_updates : List (Fe × List (Fe × Fe))
  pub class_hash_to_compiled_class_hash : List (Fe × Fe)

-- The felts 0 and 1, the Pedersen and Poseidon hashes of two elements, Poseidon's of a list, and the two
-- texts that are hashed.
pub record StateHash (Fe : Type 0) : Type 0 where
  pub zero_fe : Fe
  pub one_fe : Fe
  pub pedersen : Fe → Fe → Fe
  pub poseidon : Fe → Fe → Fe
  pub poseidon_on_elements : List Fe → Fe
  pub state_prefix : Fe
  pub contract_class_hash_version : Fe

module _ {Fe : Type 0} ⦃e : Eq Fe⦄ (hs : StateHash Fe) where
  -- System contracts have no class hash.
  abbrev pub deployed_class : Fe × Fe → Fe × Fe
  deployed_class (address, class) = (address, if address == hs.one_fe then hs.zero_fe else class)

  abbrev pub all_deployed : List (Fe × Fe) → List (Fe × Fe)
  all_deployed [] = []
  all_deployed (contract ∷ contracts) = deployed_class contract ∷ all_deployed contracts

  abbrev pub storage_maps : List (Fe × List (Fe × Fe)) → List (Fe × List (Fe × Fe))
  storage_maps [] = []
  storage_maps ((address, diffs) ∷ contracts) =
      (address, insert_all diffs []) ∷ storage_maps contracts

  unfoldable pub build_commitment_state_diff : StateUpdate Fe → CommitmentStateDiff Fe
  build_commitment_state_diff update = record {
    address_to_class_hash = insert_all (all_deployed update.deployed_contracts) [];
    address_to_nonce = insert_all update.nonces [];
    storage_updates = insert_all (storage_maps update.storage_diffs) [];
    class_hash_to_compiled_class_hash = insert_all update.declared_classes [];
  }

  unfoldable pub calculate_state_root : Fe → Fe → Fe
  calculate_state_root contracts_trie_root classes_trie_root =
      if classes_trie_root == hs.zero_fe
      then contracts_trie_root
      else hs.poseidon_on_elements (hs.state_prefix ∷ contracts_trie_root ∷ classes_trie_root ∷ [])

  -- `overrides` is the class hash of a contract in the state of a Substrate block.
  module _ {Block : Type 0} (overrides : Block → Fe → Option Fe) where
    abbrev pub class_of : Option Fe → Option Block → Fe → Option Fe
    class_of (some class) maybe_block address = some class
    class_of none (some h) address = overrides h address
    class_of none none address = none

    unfoldable pub class_hash : CommitmentStateDiff Fe → Fe → Option Block → Option Fe
    class_hash csd address maybe_block =
        class_of (lookup address csd.address_to_class_hash) maybe_block address

    unfoldable pub contract_state_leaf_hash :
        CommitmentStateDiff Fe → Fe → Fe → Option Block → Option Fe
    unfolding class_hash
    contract_state_leaf_hash csd address storage_root maybe_block = do
      class ← class_hash csd address maybe_block
      let nonce = or_default hs.zero_fe (lookup address csd.address_to_nonce)
      some (hs.pedersen (hs.pedersen (hs.pedersen class storage_root) nonce) hs.zero_fe)

    -- The leaves that `contract_trie_root` writes, one for each contract with storage updates;
    -- `storage_root` is the root that its storage trie has by then.
    unfoldable pub contract_updates :
        CommitmentStateDiff Fe → (Fe → Option Fe) → Option Block → Option (List (Fe × Fe))
    unfolding contract_state_leaf_hash
    contract_updates csd storage_root maybe_block =
        collect
          (λ contract. storage_root contract.0 >>= λ root.
            contract_state_leaf_hash csd contract.0 root maybe_block >>= λ leaf.
            some (contract.0, leaf))
          csd.storage_updates

  abbrev pub class_leaves : List (Fe × Fe) → List (Fe × Fe)
  class_leaves [] = []
  class_leaves ((class, compiled) ∷ classes) =
      (class, hs.poseidon hs.contract_class_hash_version compiled) ∷ class_leaves classes

  -- The leaves that `class_trie_root` writes.
  unfoldable pub class_updates : CommitmentStateDiff Fe → List (Fe × Fe)
  class_updates csd = class_leaves csd.class_hash_to_compiled_class_hash
