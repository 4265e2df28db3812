-- ===== src/StateSync/Deliveries.antt =====
-- What the task that applies blocks hands on: the loop of crates/client/sync/src/l2.rs.
use deoxys.Base.{
  ℕ, suc, ◌+◌, ◌≡◌, refl, ap, sym, ◌∙◌, Bool, true, false, Option, none, some, List, [], ◌∷◌, ◌++◌,
  map, length, arith, append-nil, append_assoc,
}
use deoxys.Base.Opt.{>>=-eq-some}
use deoxys.Base.Outcome.{Result, ok, err}
use deoxys.Base.Assoc.{Eq}
use deoxys.Db.Storage.Trie.{BonsaiStorage}
use deoxys.Db.Storage.Handlers.{Felts, Backend}
use deoxys.Commitments.Leaves.{StateHash, build_commitment_state_diff}
use deoxys.Commitments.Roots.{update_state_root}
use deoxys.StateSync.State.{Verified, Shared}
use deoxys.StateSync.L2.{
  L2SyncError, provider_block_not_found, FeederUpdate, update_l2, Host, Node, verify_l2,
  create_block, before, verified, apply_block, apply_blocks,
}

module _ {Fe : Type 0} ⦃e : Eq Fe⦄ (pedersen poseidon : BonsaiStorage Fe) (felts : Felts Fe)
    (hs : StateHash Fe) (host : Host Fe) where
  -- The receivers' view of a node.
  abbrev pub delivered :
      Node pedersen poseidon felts hs host
      → List host.Converted × List (FeederUpdate Fe) × List host.Classes
  delivered n = (n.blocks, n.state_updates, n.classes)

  or_node :
      Node pedersen poseidon felts hs host
      → Option (Node pedersen poseidon felts hs host)
      → Node pedersen poseidon felts hs host
  or_node n none = n
  or_node n (some n') = n'

  some_node :
      (n n' : Node pedersen poseidon felts hs host)
      → ◌≡◌ {A = Option (Node pedersen poseidon felts hs host)} (some n) (some n')
      → n ≡ n'
  unfolding or_node
  some_node n n' h = ap (or_node n) h

  verified-delivered :
      (verify : Bool) (block_n : ℕ) (update : FeederUpdate Fe)
      (n n' : Node pedersen poseidon felts hs host)
      → verified pedersen poseidon felts hs host verify block_n update n ≡ some n'
      → delivered n' ≡ delivered n
  verified-delivered false block_n update n n' h = ap delivered (sym (some_node n n' h))
  verified-delivered true block_n update n n' h =
      let checked =
        >>=-eq-some
          (verify_l2 pedersen poseidon felts hs host block_n update
            (host.block_hash_substrate n.client (before pedersen poseidon felts hs host block_n))
            (n.backend, n.shared))
          _ h in
      ap delivered (sym (some_node _ n' checked.2))

  update_l2_lem :
      (v : Verified Fe) (s : Shared Fe host.Block host.Update)
      → (update_l2 v s).starknet_state_update ≡ v
  unfolding update_l2
  update_l2_lem v s = ground arith

  verify_l2-number :
      (block_n : ℕ) (update : FeederUpdate Fe) (h : Option host.Hash)
      (s s' : Backend pedersen poseidon × Shared Fe host.Block host.Update)
      → verify_l2 pedersen poseidon felts hs host block_n update h s ≡ some s'
      → s'.1.starknet_state_update.block_number ≡ block_n
  unfolding verify_l2
  verify_l2-number block_n update h (d, s) s' done =
      let rooted =
        >>=-eq-some
          (update_state_root pedersen poseidon felts hs host.overrides
            (build_commitment_state_diff hs update.state_diff) block_n h d).0
          _ done in
      let hashed = >>=-eq-some update.block_hash _ rooted.2 in
      ap (λ (v : Verified Fe). v.block_number)
        (ap (λ (t : Shared Fe host.Block host.Update). t.starknet_state_update)
            (sym (ap (second_of s s') hashed.2))
          ∙ update_l2_lem
              (record { block_number = block_n; global_root = rooted.0; block_hash = hashed.0 }) s)
    where
      second_of :
          Shared Fe host.Block host.Update
          → Backend pedersen poseidon × Shared Fe host.Block host.Update
          → Option (Backend pedersen poseidon × Shared Fe host.Block host.Update)
          → Shared Fe host.Block host.Update
      second_of t t' none = t
      second_of t t' (some after) = after.1

  verified-number :
      (block_n : ℕ) (update : FeederUpdate Fe) (n n' : Node pedersen poseidon felts hs host)
      → verified pedersen poseidon felts hs host true block_n update n ≡ some n'
      → n'.shared.starknet_state_update.block_number ≡ block_n
  verified-number block_n update n n' h =
      let checked =
        >>=-eq-some
          (verify_l2 pedersen poseidon felts hs host block_n update
            (host.block_hash_substrate n.client (before pedersen poseidon felts hs host block_n))
            (n.backend, n.shared))
          _ h in
      ap (λ (m : Node pedersen poseidon felts hs host). m.shared.starknet_state_update.block_number)
        (sym (some_node _ n' checked.2))
      ∙ verify_l2-number block_n update _ (n.backend, n.shared) checked.0 checked.1

  -- A block that is applied is delivered with its updates.
  apply_block-delivered :
      (verify : Bool) (block_n : ℕ) (block : host.Fetched) (update : FeederUpdate Fe)
      (class_update : host.Classes) (n n' : Node pedersen poseidon felts hs host)
      → apply_block pedersen poseidon felts hs host verify block_n block update class_update n
        ≡ some n'
      → delivered n' ≡ (
        n.blocks ++ host.convert_block_sync block ∷ [],
        n.state_updates ++ update ∷ [],
        n.classes ++ class_update ∷ [],
      )
  unfolding apply_block create_block
  apply_block-delivered verify block_n block update class_update n n' h =
      let checked =
        >>=-eq-some (verified pedersen poseidon felts hs host verify block_n update n) _ h in
      let sealed = >>=-eq-some (host.seal_new_block checked.0.client) _ checked.2 in
      ap delivered (sym (some_node _ n' sealed.2))
      ∙ ap
          (λ (d : List host.Converted × List (FeederUpdate Fe) × List host.Classes). (
            d.0 ++ host.convert_block_sync block ∷ [],
            d.1 ++ update ∷ [],
            d.2 ++ class_update ∷ [],
          ))
          (verified-delivered verify block_n update n checked.0 checked.1)

  -- The stream of the fetches that succeed, up to the block that the feeder does not have.
  abbrev pub up_to_missing :
      List (host.Fetched × FeederUpdate Fe × host.Classes)
      → List (Result L2SyncError (host.Fetched × FeederUpdate Fe × host.Classes))
      → List (Result L2SyncError (host.Fetched × FeederUpdate Fe × host.Classes))
  up_to_missing [] rest = err provider_block_not_found ∷ rest
  up_to_missing (item ∷ items) rest = ok item ∷ up_to_missing items rest

  -- Where the task does not panic, it hands on every fetched block, converted, with its state update and
  -- its classes, each once and in the order of the blocks, until the feeder has no next block; what comes after that
  -- is not looked at.
  pub apply_blocks-delivered :
      (verify : Bool) (block_n : ℕ) (items : List (host.Fetched × FeederUpdate Fe × host.Classes))
      (rest : List (Result L2SyncError (host.Fetched × FeederUpdate Fe × host.Classes)))
      (n n' : Node pedersen poseidon felts hs host)
      → apply_blocks pedersen poseidon felts hs host verify block_n (up_to_missing items rest) n
        ≡ some n'
      → delivered n' ≡ (
        n.blocks ++ map (λ item. host.convert_block_sync item.0) items,
        n.state_updates ++ map (λ item. item.1) items,
        n.classes ++ map (λ item. item.2) items,
      )
  unfolding apply_blocks
  apply_blocks-delivered verify block_n [] rest n n' h =
      ap delivered (sym (some_node n n' h))
      ∙ rw (append-nil n.blocks, append-nil n.state_updates, append-nil n.classes) refl
  apply_blocks-delivered verify block_n ((block, update, class_update) ∷ items) rest n n' h =
      let applied =
        >>=-eq-some
          (apply_block pedersen poseidon felts hs host verify block_n block update class_update n) _
          h in
      let ih = apply_blocks-delivered verify (suc block_n) items rest applied.0 n' applied.2 in
      let first =
        apply_block-delivered verify block_n block update class_update n applied.0 applied.1 in
      ih
      ∙ ap
          (λ (d : List host.Converted × List (FeederUpdate Fe) × List host.Classes). (
            d.0 ++ map (λ item. host.convert_block_sync item.0) items,
            d.1 ++ map (λ item. item.1) items,
            d.2 ++ map (λ item. item.2) items,
          ))
          first
      ∙ rw
          (
            append_assoc n.blocks (host.convert_block_sync block ∷ []) (
                map
                  (λ (item : host.Fetched × FeederUpdate Fe × host.Classes).
                    host.convert_block_sync item.0)
                  items),
            append_assoc n.state_updates (update ∷ [])
                (map (λ (item : host.Fetched × FeederUpdate Fe × host.Classes). item.1) items),
            append_assoc n.classes (class_update ∷ [])
                (map (λ (item : host.Fetched × FeederUpdate Fe × host.Classes). item.2) items),
          )
          refl

  apply_block-number :
      (block_n : ℕ) (block : host.Fetched) (update : FeederUpdate Fe) (class_update : host.Classes)
      (n n' : Node pedersen poseidon felts hs host)
      → apply_block pedersen poseidon felts hs host true block_n block update class_update n
        ≡ some n'
      → n'.shared.starknet_state_update.block_number ≡ block_n
  unfolding apply_block create_block
  apply_block-number block_n block update class_update n n' h =
      let checked =
        >>=-eq-some (verified pedersen poseidon felts hs host true block_n update n) _ h in
      let sealed = >>=-eq-some (host.seal_new_block checked.0.client) _ checked.2 in
      ap (λ (m : Node pedersen poseidon felts hs host). m.shared.starknet_state_update.block_number)
        (sym (some_node _ n' sealed.2))
      ∙ verified-number block_n update n checked.0 checked.1

  -- With the verification on, the shared state ends at the number of the last block that was fetched, where
  -- at least one was.
  pub apply_blocks-number :
      (block_n : ℕ) (item : host.Fetched × FeederUpdate Fe × host.Classes)
      (items : List (host.Fetched × FeederUpdate Fe × host.Classes))
      (rest : List (Result L2SyncError (host.Fetched × FeederUpdate Fe × host.Classes)))
      (n n' : Node pedersen poseidon felts hs host)
      → apply_blocks pedersen poseidon felts hs host true block_n
          (up_to_missing (item ∷ items) rest)
          n
        ≡ some n'
      → n'.shared.starknet_state_update.block_number ≡ block_n + length items
  unfolding apply_blocks
  apply_blocks-number block_n (block, update, class_update) [] rest n n' h =
      let applied =
        >>=-eq-some
          (apply_block pedersen poseidon felts hs host true block_n block update class_update n) _
          h in
      ap (λ (m : Node pedersen poseidon felts hs host). m.shared.starknet_state_update.block_number)
        (sym (some_node applied.0 n' applied.2))
      ∙ apply_block-number block_n block update class_update n applied.0 applied.1
      ∙ omega arith
  apply_blocks-number block_n (block, update, class_update) (next ∷ items) rest n n' h =
      let applied =
        >>=-eq-some
          (apply_block pedersen poseidon felts hs host true block_n block update class_update n) _
          h in
      apply_blocks-number (suc block_n) next items rest applied.0 n' applied.2 ∙ omega arith
