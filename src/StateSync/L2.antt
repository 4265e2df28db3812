-- ===== src/StateSync/L2.antt =====
-- The sync of blocks from the feeder: crates/client/sync/src/l2.rs. `none` stands for a panic, which ends
-- the task. The tasks share the state of the statics, each access under its lock.
use deoxys.Base.{
  ℕ, suc, ◌+◌, ◌-◌, ◌%◌, ◌^◌, Bool, true, false, Option, none, some, List, [], ◌∷◌, ◌++◌,
  if◌then◌else◌, leb,
}
use deoxys.Base.Opt.{◌>>=◌}
use deoxys.Base.Outcome.{Result, ok, err}
use deoxys.Base.Assoc.{Eq, nat_Eq, ◌==◌}
use deoxys.Db.Storage.Trie.{BonsaiStorage}
use deoxys.Db.Storage.Handlers.{Felts, Backend}
use deoxys.Commitments.Leaves.{StateUpdate, StateHash, build_commitment_state_diff}
use deoxys.Commitments.Roots.{update_state_root}
use deoxys.StateSync.State.{Verified, sync_unverified_state, Shared}

-- `ProviderError`, as far as the sync tells its cases apart, and `L2SyncError`.
pub data L2SyncError : Type 0 where
  provider_rate_limited provider_block_not_found provider_other fetch_retry_limit : L2SyncError

-- `StateUpdate` of the feeder, which `StateUpdateWrapper::from` copies field by field.
pub record FeederUpdate (Fe : Type 0) : Type 0 where
  pub block_hash : Option Fe
  pub new_root : Option Fe
  pub old_root : Fe
  pub state_diff : StateUpdate Fe

module _ {Fe Block Update : Type 0} where
  unfoldable pub update_l2 : Verified Fe → Shared Fe Block Update → Shared Fe Block Update
  update_l2 state_update s =
      if leb s.ethereum_state_update.block_number state_update.block_number
      then record s { starknet_state_update = state_update; sync_status = sync_unverified_state }
      else record s { starknet_state_update = state_update }

  -- What the fetched answers change; the pending state update is asked for at the best block only.
  abbrev pub store_data :
      Fe
      → Block
      → Result (Unit {0}) ℕ
      → Bool
      → Result (Unit {0}) Update
      → Shared Fe Block Update
      → Result (Unit {0}) (Unit {0}) × Shared Fe Block Update
  store_data parent block (err e) is_best update s = (err e, s)
  store_data parent block (ok number) false update s =
      (ok tt, record s { highest_block_hash_and_number = (parent, number) })
  store_data parent block (ok number) true (err e) s = (err e, s)
  store_data parent block (ok number) true (ok state_update) s = (
    ok tt,
    record s {
      highest_block_hash_and_number = (parent, number);
      pending_block = some block;
      pending_state_update = some state_update;
    },
  )

  -- The pending block by its parent's hash, the number of that parent, and the pending state update, as
  -- the provider answers; `is_best` is the test of the parent's hash against the client's best hash.
  unfoldable pub update_starknet_data :
      Result (Unit {0}) (Fe × Block)
      → (Fe → Result (Unit {0}) ℕ)
      → Result (Unit {0}) Update
      → (Fe → Bool)
      → Shared Fe Block Update
      → Result (Unit {0}) (Unit {0}) × Shared Fe Block Update
  update_starknet_data (err e) block_id_by_hash update is_best s = (err e, s)
  update_starknet_data (ok (parent, block)) block_id_by_hash update is_best s =
      store_data parent block (block_id_by_hash parent) (is_best parent) update s

-- What the sync uses of the node and of other crates: hashes of the Substrate chain, the classes of its
-- states, the conversion of a fetched block, the chain's hash of a block, and the sealing of a block by the
-- consensus engine.
pub record Host (Fe : Type 0) : Type 1 where
  pub Hash : Type 0
  pub Block : Type 0
  pub Update : Type 0
  pub Fetched : Type 0
  pub Converted : Type 0
  pub Classes : Type 0
  pub Client : Type 0
  pub overrides : Hash → Fe → Option Fe
  pub convert_block_sync : Fetched → Converted
  pub block_hash_substrate : Client → ℕ → Option Hash
  pub seal_new_block : Client → Option (Hash × Client)

module _ {Fe : Type 0} ⦃e : Eq Fe⦄ (pedersen poseidon : BonsaiStorage Fe) (felts : Felts Fe)
    (hs : StateHash Fe) (host : Host Fe) where
  unfoldable pub verify_l2 :
      ℕ
      → FeederUpdate Fe
      → Option host.Hash
      → Backend pedersen poseidon × Shared Fe host.Block host.Update
      → Option (Backend pedersen poseidon × Shared Fe host.Block host.Update)
  unfolding update_l2 update_state_root build_commitment_state_diff
  verify_l2 block_number update substrate_block_hash (d, s) = do
    let rooted =
        update_state_root pedersen poseidon felts hs host.overrides
          (build_commitment_state_diff hs update.state_diff) block_number substrate_block_hash d
    root ← rooted.0
    hash ← update.block_hash
    some (
      rooted.1,
      update_l2 (record { block_number = block_number; global_root = root; block_hash = hash }) s,
    )

  -- What the task that applies blocks changes: the tries, the shared state, the client's chain, and what
  -- it has sent to the block, state update and class receivers; the hash of the last sealed block.
  pub record Node : Type 0 where
    pub backend : Backend pedersen poseidon
    pub shared : Shared Fe host.Block host.Update
    pub client : host.Client
    pub blocks : List host.Converted
    pub state_updates : List (FeederUpdate Fe)
    pub classes : List host.Classes
    pub last_block_hash : Option host.Hash

  unfoldable pub create_block : Node → Option Node
  create_block n = do
    created ← host.seal_new_block n.client
    some (record n { client = created.1; last_block_hash = some created.0 })

  -- `block_n - 1` on u64.
  abbrev pub before : ℕ → ℕ
  before block_n = (block_n + (2 ^ 64 - 1)) % 2 ^ 64

  abbrev pub verified : Bool → ℕ → FeederUpdate Fe → Node → Option Node
  verified false block_n update n = some n
  verified true block_n update n =
      verify_l2 block_n update (host.block_hash_substrate n.client (before block_n))
        (n.backend, n.shared)
      >>= λ after. some (record n { backend = after.0; shared = after.1 })

  unfoldable pub apply_block :
      Bool → ℕ → host.Fetched → FeederUpdate Fe → host.Classes → Node → Option Node
  unfolding create_block verify_l2
  apply_block verify block_n block update class_update n = do
    n' ← verified verify block_n update n
    create_block (record n' {
      blocks = n'.blocks ++ host.convert_block_sync block ∷ [];
      state_updates = n'.state_updates ++ update ∷ [];
      classes = n'.classes ++ class_update ∷ [];
    })

  -- The loop over what is received, until the feeder has no such block or the channel is closed.
  unfoldable pub apply_blocks :
      Bool
      → ℕ
      → List (Result L2SyncError (host.Fetched × FeederUpdate Fe × host.Classes))
      → Node
      → Option Node
  unfolding apply_block
  apply_blocks verify block_n [] n = some n
  apply_blocks verify block_n (err provider_block_not_found ∷ received) n = some n
  apply_blocks verify block_n (err provider_rate_limited ∷ received) n = none
  apply_blocks verify block_n (err provider_other ∷ received) n = none
  apply_blocks verify block_n (err fetch_retry_limit ∷ received) n = none
  apply_blocks verify block_n (ok (block, update, class_update) ∷ received) n =
      apply_block verify block_n block update class_update n
      >>= apply_blocks verify (suc block_n) received

  -- The genesis update is verified before the first block.
  unfoldable pub sync :
      Bool
      → ℕ
      → Option (FeederUpdate Fe)
      → List (Result L2SyncError (host.Fetched × FeederUpdate Fe × host.Classes))
      → Node
      → Option Node
  unfolding apply_blocks verify_l2
  sync verify first_block genesis_update received n =
      if first_block == 1
      then (do
        update ← genesis_update
        after ← verify_l2 0 update none (n.backend, n.shared)
        apply_blocks verify first_block received (record n { backend = after.0; shared = after.1 }))
      else apply_blocks verify first_block received n
