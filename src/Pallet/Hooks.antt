-- ===== src/Pallet/Hooks.antt =====
-- The hooks and the inherent of the Starknet pallet: crates/pallets/starknet/src/lib.rs. `none` stands for
-- a panic.
use deoxys.Base.{
  ℕ, Bool, true, false, ◌&&◌, Option, none, some, List, [], ◌∷◌, ◌++◌, ltb, if◌then◌else◌,
}
use deoxys.Base.Opt.{◌>>=◌}
use deoxys.Base.Outcome.{Result, ok, err}
use deoxys.Base.Assoc.{nat_Eq, insert}
use deoxys.DigestLog.{Log}
use deoxys.Pallet.State.{
  madara_engine_id, state_engine_id, class_engine_id, DigestItem, pre_runtime, consensus, Types,
  Pallet, insert_all,
}

-- Codecs of crates/primitives: the block and its log, and the hash that a block carries as extra data
-- (`None`, or no felt, panics).
pub record BlockCodec (t : Types) (B : Type 0) : Type 0 where
  pub decode_block : t.Bytes → Option B
  pub encode_log : B → t.Bytes
  pub decode_log : t.Bytes → Option (Log B)
  pub extra_data : B → Option t.Fe

-- The fields of `StateUpdateWrapper` and `ClassUpdateWrapper` that the pallet stores.
pub record StateDiff (Fe : Type 0) : Type 0 where
  pub nonces : List (Fe × Fe)
  pub deployed_contracts : List (Fe × Fe)
  pub replaced_classes : List (Fe × Fe)
  pub declared_classes : List (Fe × Fe)

pub record UpdateCodec (t : Types) : Type 0 where
  pub decode_state_update : t.Bytes → Option (StateDiff t.Fe)
  pub decode_class_update : t.Bytes → Option (List (t.Fe × t.Class × t.Abi))

pub data DispatchError : Type 0 where
  bad_origin sequencer_address_not_valid : DispatchError

module _ (t : Types) {B : Type 0} (codec : BlockCodec t B) where
  abbrev pub stored_block : Pallet t → ℕ → B → t.Fe → Pallet t
  stored_block s block_number b hash = record s {
    block_hash = insert block_number hash s.block_hash;
    pending = [];
    digest = s.digest ++ consensus madara_engine_id (codec.encode_log b) ∷ [];
  }

  abbrev pub store_decoded : Pallet t → ℕ → Option B → Option (Pallet t)
  store_decoded s block_number none = some s
  store_decoded s block_number (some b) = do
    hash ← codec.extra_data b
    some (stored_block s block_number b hash)

  abbrev pub store_first : Pallet t → ℕ → List (DigestItem t.Bytes) → Option (Pallet t)
  store_first s block_number [] = none
  store_first s block_number (pre_runtime madara_engine_id encoded_data ∷ items) =
      store_decoded s block_number (codec.decode_block encoded_data)
  store_first s block_number (item ∷ items) = some s

  -- The block of the first digest item; an empty digest panics.
  unfoldable pub store_block : Pallet t → ℕ → Option (Pallet t)
  store_block s block_number = store_first s block_number s.digest

  abbrev pub taken : Option Bool → Bool
  taken none = false
  taken (some b) = b

  unfoldable pub on_finalize : Pallet t → Option (Pallet t)
  unfolding store_block
  on_finalize s =
      let finalized = store_block (record s { seq_addr_update = none }) s.block_number in
      if taken s.seq_addr_update then finalized else none

module _ (t : Types) where
  abbrev pub exists : Option Bool → Bool
  exists none = false
  exists (some b) = true

  abbrev pub set_address : Pallet t → Option t.Fe → Result DispatchError (Pallet t)
  set_address s none = err sequencer_address_not_valid
  set_address s (some address) =
      ok (record s { sequencer_address = address; seq_addr_update = some true })

  -- `addr` is the address that the 32 bytes give, if they give one; `unsigned` is the origin's check.
  unfoldable pub set_sequencer_address :
      Bool → Option t.Fe → Pallet t → Option (Result DispatchError (Pallet t))
  set_sequencer_address unsigned addr s =
      if unsigned
      then (if ltb 1 s.block_number && exists s.seq_addr_update
          then none
          else some (set_address s addr))
      else some (err bad_origin)

module _ (t : Types) (codec : UpdateCodec t) where
  abbrev pub stored_diff : StateDiff t.Fe → Pallet t → Pallet t
  stored_diff diff s = record s {
    nonces = insert_all ⦃e = t.fe_Eq⦄ diff.nonces s.nonces;
    contract_class_hashes =
        insert_all ⦃e = t.fe_Eq⦄ (diff.deployed_contracts ++ diff.replaced_classes)
          s.contract_class_hashes;
    compiled_class_hashes = insert_all ⦃e = t.fe_Eq⦄ diff.declared_classes s.compiled_class_hashes;
  }

  -- Data that does not decode is logged, and nothing is stored.
  unfoldable pub store_state_update : t.Bytes → Pallet t → Pallet t
  store_state_update encoded_data s = elim (codec.decode_state_update encoded_data) [
    | none ↦ s
    | some diff ↦ stored_diff diff s
  ]

  abbrev pub store_classes : List (t.Fe × t.Class × t.Abi) → Pallet t → Pallet t
  store_classes [] s = s
  store_classes ((hash, class, abi) ∷ classes) s = store_classes classes (record s {
    contract_classes = insert ⦃e = t.fe_Eq⦄ hash class s.contract_classes;
    contract_abis = insert ⦃e = t.fe_Eq⦄ hash abi s.contract_abis;
  })

  unfoldable pub store_class_update : t.Bytes → Pallet t → Pallet t
  store_class_update encoded_data s = elim (codec.decode_class_update encoded_data) [
    | none ↦ s
    | some classes ↦ store_classes classes s
  ]

  -- `for log_entry in logs`
  unfoldable pub initialize_items : List (DigestItem t.Bytes) → Pallet t → Pallet t
  unfolding store_state_update store_class_update
  initialize_items [] s = s
  initialize_items (pre_runtime state_engine_id encoded_data ∷ items) s =
      initialize_items items (store_state_update encoded_data s)
  initialize_items (pre_runtime class_engine_id encoded_data ∷ items) s =
      initialize_items items (store_class_update encoded_data s)
  initialize_items (item ∷ items) s = initialize_items items s

  unfoldable pub on_initialize : Pallet t → Pallet t
  unfolding initialize_items
  on_initialize s = initialize_items s.digest s
