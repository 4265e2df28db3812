-- ===== src/Pallet/Adapter.antt =====
-- The state that blockifier reads and writes: crates/pallets/starknet/src/blockifier_state_adapter.rs. What
-- an execution writes is kept over the pallet's storage; `stored` is the read of the storage trie at the
-- current block, and `try_increment` starknet-api's on nonces.
use deoxys.Base.{
  ℕ, ◌≡◌, ◌↔◌, Bool, true, ◌&&◌, Option, none, some, List, [], ◌++◌, if◌then◌else◌, arith,
}
use deoxys.Base.Outcome.{Result, ok, err, ◌>>=◌, ok_or}
use deoxys.Base.Assoc.{Eq, lookup, insert, lookup-insert}
use deoxys.Pallet.State.{Types, Pallet, or_default}

pub data StateError (Fe : Type 0) : Type 0 where
  state_read_error : Fe → Fe → StateError Fe
  undeclared_class_hash : Fe → StateError Fe
  starknet_api_error : StateError Fe

module _ {A : Type 0} ⦃e : Eq A⦄ where
  abbrev pub same_pair : A × A → A × A → Bool
  same_pair p q = e.same p.0 q.0 && e.same p.1 q.1

  pub same_pair_iff : (p q : A × A) → (same_pair p q ≡ true) ↔ (p ≡ q)
  same_pair_iff (a, b) (c, d) = ground (arith, e.same_iff a c, e.same_iff b d)

  abbrev pub pair_Eq : Eq (A × A)
  pair_Eq = record { same = same_pair; same_iff = same_pair_iff }

pub record BlockifierStateAdapter (t : Types) : Type 0 where
  pub storage_update : List ((t.Fe × t.Fe) × t.Fe)
  pub nonce_update : List (t.Fe × t.Fe)
  pub class_hash_update : List (t.Fe × t.Fe)
  pub compiled_class_hash_update : List (t.Fe × t.Fe)
  pub contract_class_update : List (t.Fe × t.Class)
  pub visited_pcs : List (t.Fe × List ℕ)

-- What an execution wrote, else what is below.
abbrev pub written_or : {A : Type 0} → Option A → A → A
written_or none below = below
written_or (some a) below = a

module _ (t : Types) (stored : t.Fe → t.Fe → Option (Option t.Fe)) (s : Pallet t) where
  abbrev pub stored_value : t.Fe → t.Fe → Option (Option t.Fe) → Result (StateError t.Fe) t.Fe
  stored_value address key (some (some value)) = ok value
  stored_value address key (some none) = ok t.zero_fe
  stored_value address key none = err (state_read_error address key)

  unfoldable pub get_storage_at :
      BlockifierStateAdapter t → t.Fe → t.Fe → Result (StateError t.Fe) t.Fe
  get_storage_at adapter address key =
      elim (lookup ⦃e = pair_Eq ⦃e = t.fe_Eq⦄⦄ (address, key) adapter.storage_update) [
        | some value ↦ ok value
        | none ↦ stored_value address key (stored address key)
      ]

  unfoldable pub get_nonce_at : BlockifierStateAdapter t → t.Fe → Result (StateError t.Fe) t.Fe
  get_nonce_at adapter address = ok (
      written_or (lookup ⦃e = t.fe_Eq⦄ address adapter.nonce_update)
        (or_default t.zero_fe (lookup ⦃e = t.fe_Eq⦄ address s.nonces)))

  unfoldable pub get_class_hash_at : BlockifierStateAdapter t → t.Fe → Result (StateError t.Fe) t.Fe
  get_class_hash_at adapter address = ok (
      written_or (lookup ⦃e = t.fe_Eq⦄ address adapter.class_hash_update)
        (or_default t.zero_fe (lookup ⦃e = t.fe_Eq⦄ address s.contract_class_hashes)))

  unfoldable pub get_compiled_contract_class :
      BlockifierStateAdapter t → t.Fe → Result (StateError t.Fe) t.Class
  get_compiled_contract_class adapter class_hash =
      elim (lookup ⦃e = t.fe_Eq⦄ class_hash adapter.contract_class_update) [
        | some class ↦ ok class
        | none ↦
            ok_or (lookup ⦃e = t.fe_Eq⦄ class_hash s.contract_classes)
              (undeclared_class_hash class_hash)
      ]

  unfoldable pub get_compiled_class_hash :
      BlockifierStateAdapter t → t.Fe → Result (StateError t.Fe) t.Fe
  get_compiled_class_hash adapter class_hash =
      elim (lookup ⦃e = t.fe_Eq⦄ class_hash adapter.compiled_class_hash_update) [
        | some compiled ↦ ok compiled
        | none ↦
            ok_or (lookup ⦃e = t.fe_Eq⦄ class_hash s.compiled_class_hashes)
              (undeclared_class_hash class_hash)
      ]

  unfoldable pub increment_nonce :
      (t.Fe → Option t.Fe)
      → BlockifierStateAdapter t
      → t.Fe
      → Result (StateError t.Fe) (BlockifierStateAdapter t)
  increment_nonce try_increment adapter address = do
    nonce ← get_nonce_at adapter address
    next ← ok_or (try_increment nonce) starknet_api_error
    ok (record adapter { nonce_update = insert ⦃e = t.fe_Eq⦄ address next adapter.nonce_update })

module _ (t : Types) where
  unfoldable pub set_storage_at :
      BlockifierStateAdapter t → t.Fe → t.Fe → t.Fe → BlockifierStateAdapter t
  set_storage_at adapter address key value = record adapter {
    storage_update = insert ⦃e = pair_Eq ⦃e = t.fe_Eq⦄⦄ (address, key) value adapter.storage_update;
  }

  unfoldable pub set_class_hash_at :
      BlockifierStateAdapter t → t.Fe → t.Fe → BlockifierStateAdapter t
  set_class_hash_at adapter address class_hash = record adapter {
    class_hash_update = insert ⦃e = t.fe_Eq⦄ address class_hash adapter.class_hash_update;
  }

  unfoldable pub set_contract_class :
      BlockifierStateAdapter t → t.Fe → t.Class → BlockifierStateAdapter t
  set_contract_class adapter class_hash class = record adapter {
    contract_class_update = insert ⦃e = t.fe_Eq⦄ class_hash class adapter.contract_class_update;
  }

  unfoldable pub set_compiled_class_hash :
      BlockifierStateAdapter t → t.Fe → t.Fe → BlockifierStateAdapter t
  set_compiled_class_hash adapter class_hash compiled = record adapter {
    compiled_class_hash_update =
        insert ⦃e = t.fe_Eq⦄ class_hash compiled adapter.compiled_class_hash_update;
  }

  -- The sets of program counters are lists here, with repetitions.
  unfoldable pub add_visited_pcs :
      BlockifierStateAdapter t → t.Fe → List ℕ → BlockifierStateAdapter t
  add_visited_pcs adapter class_hash pcs = record adapter {
    visited_pcs =
        insert ⦃e = t.fe_Eq⦄ class_hash
          (or_default [] (lookup ⦃e = t.fe_Eq⦄ class_hash adapter.visited_pcs) ++ pcs)
          adapter.visited_pcs;
  }

module _ (t : Types) (stored : t.Fe → t.Fe → Option (Option t.Fe)) (s : Pallet t) where
  -- A write of a storage value is seen by the reads of its contract and key, and by no other read of
  -- storage.
  pub get_storage_at-set_storage_at :
      (adapter : BlockifierStateAdapter t) (address key value address' key' : t.Fe)
      → get_storage_at t stored s (set_storage_at t adapter address key value) address' key' ≡ (
          if t.fe_Eq.same address address' && t.fe_Eq.same key key'
          then ok value
          else get_storage_at t stored s adapter address' key')
  unfolding get_storage_at set_storage_at
  get_storage_at-set_storage_at adapter address key value address' key' = ground (
    arith,
    lookup-insert ⦃e = pair_Eq ⦃e = t.fe_Eq⦄⦄ (address, key) (address', key') value
        adapter.storage_update,
  )

  increment_nonce-ok :
      (try_increment : t.Fe → Option t.Fe) (adapter : BlockifierStateAdapter t)
      (address nonce next : t.Fe)
      → get_nonce_at t stored s adapter address ≡ ok nonce
      → try_increment nonce ≡ some next
      → increment_nonce t stored s try_increment adapter address
        ≡ ok (record adapter {
          nonce_update = insert ⦃e = t.fe_Eq⦄ address next adapter.nonce_update;
        })
  unfolding increment_nonce
  increment_nonce-ok try_increment adapter address nonce next before incremented =
      rw (before, incremented)

  -- Where the nonce of a contract can be incremented, the incremented nonce is the one that is read for
  -- the contract from then on, and no other nonce changes.
  pub get_nonce_at-increment_nonce :
      (try_increment : t.Fe → Option t.Fe) (adapter : BlockifierStateAdapter t)
      (address address' nonce next : t.Fe)
      → get_nonce_at t stored s adapter address ≡ ok nonce
      → try_increment nonce ≡ some next
      → (adapter' : BlockifierStateAdapter t) × (increment_nonce t stored s try_increment adapter
            address
          ≡ ok adapter')
        × (get_nonce_at t stored s adapter' address' ≡ (
            if t.fe_Eq.same address address'
            then ok next
            else get_nonce_at t stored s adapter address'))
  unfolding get_nonce_at
  get_nonce_at-increment_nonce try_increment adapter address address' nonce next before
        incremented =
      (
        _,
        increment_nonce-ok try_increment adapter address nonce next before incremented,
        ground (arith, lookup-insert ⦃e = t.fe_Eq⦄ address address' next adapter.nonce_update),
      )

  -- The class hash of a contract, a class, and a compiled class hash that are written are seen by the
  -- reads of their own key, and by no other read of the same kind.
  pub get-set_classes :
      (adapter : BlockifierStateAdapter t) (k k' v : t.Fe) (class : t.Class)
      → (get_class_hash_at t stored s (set_class_hash_at t adapter k v) k'
          ≡ (if t.fe_Eq.same k k' then ok v else get_class_hash_at t stored s adapter k'))
        × (get_compiled_contract_class t stored s (set_contract_class t adapter k class) k' ≡ (
            if t.fe_Eq.same k k'
            then ok class
            else get_compiled_contract_class t stored s adapter k'))
        × (get_compiled_class_hash t stored s (set_compiled_class_hash t adapter k v) k'
            ≡ (if t.fe_Eq.same k k' then ok v else get_compiled_class_hash t stored s adapter k'))
  unfolding get_class_hash_at get_compiled_contract_class get_compiled_class_hash set_class_hash_at
      set_contract_class set_compiled_class_hash
  get-set_classes adapter k k' v class = (
    ground (arith, lookup-insert ⦃e = t.fe_Eq⦄ k k' v adapter.class_hash_update),
    ground (arith, lookup-insert ⦃e = t.fe_Eq⦄ k k' class adapter.contract_class_update),
    ground (arith, lookup-insert ⦃e = t.fe_Eq⦄ k k' v adapter.compiled_class_hash_update),
  )
