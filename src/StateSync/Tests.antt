-- ===== src/StateSync/Tests.antt =====
-- The theorems on crates/client/sync at small inputs, over numbers in place of felts.
use deoxys.Base.{
  ℕ, ◌≡◌, ◌≢◌, ◌≤◌, ◌↔◌, ◌&&◌, ◌||◌, refl, true, false, none, some, Option, List, [], ◌∷◌, ◌++◌,
  map, ◌+◌, if◌then◌else◌,
}
use deoxys.Base.Outcome.{Result, ok, err}
use deoxys.Base.Assoc.{nat_Eq, ◌==◌}
use deoxys.Db.Storage.Handlers.{
  contract_mut, contract_storage_mut, class_mut, contract_view, contract_storage_view, class_view,
}
use deoxys.Db.Storage.ContractTrie
use deoxys.Db.Storage.ContractStorageTrie
use deoxys.Db.Storage.ClassTrie
use deoxys.Db.Storage.Memory.{TreesInMemory, number_felts}
use deoxys.Commitments.Roots.{update_state_root, contract_trie_root, class_trie_root}
use deoxys.Commitments.Leaves.{
  StateUpdate, contract_updates, class_updates, build_commitment_state_diff, calculate_state_root,
}
use deoxys.Commitments.Roots.Tests.{empty_backend, sums}
use deoxys.StateSync.State.{Verified, Shared, initial, sync_unverified_state, sync_pending_state}
use deoxys.StateSync.L1.{result, verify_l1, verify_l1_iff, get_state_update_at, update_l1}
use deoxys.StateSync.L2.{
  L2SyncError, FeederUpdate, Host, Node, update_l2, update_starknet_data, apply_blocks, apply_block,
  create_block, verify_l2,
}
use deoxys.StateSync.Statuses.{l1, done, then_step, sync_status-Steps}
use deoxys.StateSync.Deliveries.{delivered, up_to_missing, apply_blocks-delivered}
use deoxys.StateSync.Fetch.{
  fetch_missing_classes, aggregate_classes, fetch_class, is_missing_class, contains,
  fetch_class_update, fetch_block_and_updates,
}
use deoxys.StateSync.Classes.{
  is_wanted, fetch_class_update_complete, Answers, fetch_block_and_updates-Answers,
}

abbrev start : Shared ℕ ℕ ℕ
start = initial 0

abbrev at_seven : Verified ℕ
at_seven = record { block_number = 7; global_root = 70; block_hash = 71 }

abbrev reached : Shared ℕ ℕ ℕ
reached = record start { starknet_state_update = at_seven }

verify_l1_iff_example : (verify_l1 at_seven (λ n attempt. result at_seven) reached ≡ ok tt) ↔ (
    (7 ≤ reached.starknet_state_update.block_number)
    × (get_state_update_at (λ attempt. result at_seven) ≡ ok at_seven))
verify_l1_iff_example = verify_l1_iff at_seven (λ n attempt. result at_seven) reached

-- A block is applied before Ethereum's state is known; then that state is ahead.
sync_status-Steps_example :
    ((update_l2 at_seven start).sync_status ≡ sync_unverified_state
      → (update_l1 (record at_seven { block_number = 900 }) (update_l2 at_seven start)).sync_status
        ≡ sync_unverified_state)
    × ((update_l2 at_seven start).sync_status ≢ sync_pending_state
        → (update_l1
            (record at_seven { block_number = 900 })
            (update_l2 at_seven start)).sync_status
          ≢ sync_pending_state)
sync_status-Steps_example =
    sync_status-Steps (update_l2 at_seven start)
      (update_l1 (record at_seven { block_number = 900 }) (update_l2 at_seven start))
      (then_step (update_l2 at_seven start)
        (update_l1 (record at_seven { block_number = 900 }) (update_l2 at_seven start)) done
        (l1 (record at_seven { block_number = 900 })))

-- The parent of the pending block is not the best block, and there is no pending state update.
abbrev behind : Result (Unit {0}) (Unit {0}) × Shared ℕ ℕ ℕ
behind = update_starknet_data (ok (5, 50)) (λ h. ok 6) (err tt) (λ h. false) start

abbrev small_host : Host ℕ
small_host = record {
  Hash = ℕ;
  Block = ℕ;
  Update = ℕ;
  Fetched = ℕ;
  Converted = ℕ;
  Classes = ℕ;
  Client = ℕ;
  overrides = λ h fe. some 9;
  convert_block_sync = λ b. b + 1;
  block_hash_substrate = λ c n. some n;
  seal_new_block = λ c. some (c, c + 1);
}

abbrev no_changes : FeederUpdate ℕ
no_changes = record {
  block_hash = some 4;
  new_root = some 5;
  old_root = 6;
  state_diff = record {
    deployed_contracts = [];
    replaced_classes = [];
    nonces = [];
    storage_diffs = [];
    declared_classes = [];
  };
}

abbrev small_node : Node TreesInMemory TreesInMemory number_felts sums small_host
small_node = record {
  backend = empty_backend;
  shared = start;
  client = 0;
  blocks = [];
  state_updates = [];
  classes = [];
  last_block_hash = none;
}

abbrev or_small :
    Option (Node TreesInMemory TreesInMemory number_felts sums small_host)
    → Node TreesInMemory TreesInMemory number_felts sums small_host
or_small none = small_node
or_small (some n) = n

abbrev two_items : List (ℕ × FeederUpdate ℕ × ℕ)
two_items = (10, no_changes, 20) ∷ (11, no_changes, 21) ∷ []

abbrev two_blocks : Option (Node TreesInMemory TreesInMemory number_felts sums small_host)
two_blocks =
    apply_blocks TreesInMemory TreesInMemory number_felts sums small_host true 5
      (up_to_missing TreesInMemory TreesInMemory number_felts sums small_host two_items [])
      small_node

two_blocks_lem : two_blocks ≡ some (or_small two_blocks)
unfolding apply_blocks apply_block create_block verify_l2 update_l2 update_state_root
    build_commitment_state_diff contract_trie_root class_trie_root contract_mut contract_storage_mut
    class_mut contract_view contract_storage_view class_view contract_updates class_updates
    ContractTrie.init ContractTrie.update ContractTrie.commit ContractTrie.apply_changes
    ContractTrie.view_root ContractStorageTrie.commit ContractStorageTrie.apply_changes
    ClassTrie.init ClassTrie.update ClassTrie.commit ClassTrie.apply_changes ClassTrie.view_root
    calculate_state_root
two_blocks_lem = refl

apply_blocks-delivered_example :
    delivered TreesInMemory TreesInMemory number_felts sums small_host (or_small two_blocks)
    ≡ ([] ++ 11 ∷ 12 ∷ [], [] ++ no_changes ∷ no_changes ∷ [], [] ++ 20 ∷ 21 ∷ [])
apply_blocks-delivered_example =
    apply_blocks-delivered TreesInMemory TreesInMemory number_felts sums small_host true 5 two_items
      [] small_node (or_small two_blocks) two_blocks_lem

abbrev deploys : StateUpdate ℕ
deploys = record {
  deployed_contracts = (6, 60) ∷ (7, 60) ∷ [];
  replaced_classes = [];
  nonces = [];
  storage_diffs = [];
  declared_classes = (61, 1) ∷ (62, 2) ∷ [];
}

-- Class 62 is known.
abbrev known_class : ℕ → ℕ → Option ℕ
known_class block_hash h = if h == 62 then some 0 else none

fetch_class_update_complete_example :
    contains {Fe = ℕ} 61 (map (λ (class : ℕ × ℕ). class.0) ((60, 3) ∷ (61, 3) ∷ [])) ≡ (
      (contains {Fe = ℕ} 61 (60 ∷ 60 ∷ []) || contains {Fe = ℕ} 61 (61 ∷ 62 ∷ []))
      && is_wanted known_class (λ hs. hs) (λ h. ok 3) (some 1) 61)
unfolding fetch_class_update fetch_missing_classes aggregate_classes fetch_class is_missing_class
fetch_class_update_complete_example =
    fetch_class_update_complete known_class (λ hs. hs) (λ h. ok 3) deploys (some 1)
      ((60, 3) ∷ (61, 3) ∷ []) 61 (λ k hs. refl) refl

fetch_block_and_updates-Answers_example :
    (r : Result L2SyncError (ℕ × ℕ)) × (slept : ℕ) × (fetch_block_and_updates
        (λ attempt. ok 1)
        (λ attempt. ok 2)
      ≡ some (r, slept))
    × Answers (λ attempt. ok 1) (λ attempt. ok 2) 0 r
    × (slept ≤ 84)
fetch_block_and_updates-Answers_example =
    fetch_block_and_updates-Answers (λ attempt. ok 1) (λ attempt. ok 2)
