-- ===== src/Pallet/State.antt =====
-- The storage of the Starknet pallet, its genesis, and what is read from it:
-- crates/pallets/starknet/src/lib.rs. A storage map is an association list, and a value that may be absent
-- an option; the storage items that no operation reads or writes are left out. `digest` and
-- `block_number` are frame_system's.
use deoxys.Base.{
  ℕ, ◌+◌, ◌-◌, ◌/◌, Bool, true, false, Option, none, some, List, [], ◌∷◌, ◌++◌, length,
  if◌then◌else◌, ◌==◌ as nat_eq,
}
use deoxys.Base.Assoc.{Eq, nat_Eq, lookup, insert}
use deoxys.Pallet.CallInfo.{CallInfo, emit_events_in_call_info, aggregate_messages_in_call_info}

-- The engine ids of crates/primitives/digest-log.
pub data EngineId : Type 0 where
  madara_engine_id block_engine_id state_engine_id class_engine_id : EngineId
  other_engine_id : ℕ → EngineId

pub data DigestItem (Bytes : Type 0) : Type 0 where
  pre_runtime : EngineId → Bytes → DigestItem Bytes
  consensus : EngineId → Bytes → DigestItem Bytes
  other_item : Bytes → DigestItem Bytes

-- The types of other crates: felts (addresses, hashes, nonces and values are all `Fe`), transactions,
-- classes and ABIs, events, messages, and encoded bytes.
pub record Types : Type 1 where
  pub Fe : Type 0
  pub fe_Eq : Eq Fe
  pub zero_fe : Fe
  pub Tx : Type 0
  pub Class : Type 0
  pub Abi : Type 0
  pub Event : Type 0
  pub Message : Type 0
  pub Bytes : Type 0

pub record Pallet (t : Types) : Type 0 where
  pub digest : List (DigestItem t.Bytes)
  pub block_number : ℕ
  pub deposited : List (t.Fe × t.Event)
  pub pending : List t.Tx
  pub tx_events : List (t.Fe × List (t.Fe × t.Event))
  pub tx_messages : List (t.Fe × List (t.Fe × t.Message))
  pub block_hash : List (ℕ × t.Fe)
  pub contract_class_hashes : List (t.Fe × t.Fe)
  pub contract_classes : List (t.Fe × t.Class)
  pub contract_abis : List (t.Fe × t.Abi)
  pub compiled_class_hashes : List (t.Fe × t.Fe)
  pub nonces : List (t.Fe × t.Fe)
  pub last_known_eth_block : Option ℕ
  pub fee_tokens : t.Fe × t.Fe
  pub sequencer_address : t.Fe
  pub seq_addr_update : Option Bool

pub record GenesisConfig (t : Types) : Type 0 where
  pub contracts : List (t.Fe × t.Fe)
  pub sierra_to_casm_class_hash : List (t.Fe × t.Fe)
  pub strk_fee_token_address : t.Fe
  pub eth_fee_token_address : t.Fe

-- The block that a transaction is executed in; `chain_id` and the gas prices are configuration.
pub record BlockInfo (t : Types) : Type 0 where
  pub number : ℕ
  pub timestamp : ℕ
  pub sequencer : t.Fe
  pub use_kzg_da : Bool
  pub fee_token_addresses : t.Fe × t.Fe

-- `ValueQuery`: the default where there is no value.
abbrev pub or_default : {A : Type 0} → A → Option A → A
or_default d none = d
or_default d (some a) = a

module _ {K V : Type 0} ⦃e : Eq K⦄ where
  -- `into_iter().for_each(|(k, v)| Map::insert(k, v))`
  abbrev pub insert_all : List (K × V) → List (K × V) → List (K × V)
  insert_all [] m = m
  insert_all ((k, v) ∷ kvs) m = insert_all kvs (insert k v m)

  -- `Map::append(k, v)`, for each of the values.
  abbrev pub append_all : K → List V → List (K × List V) → List (K × List V)
  append_all k [] m = m
  append_all k (v ∷ vs) m = append_all k vs (insert k (or_default [] (lookup k m) ++ v ∷ []) m)

module _ (t : Types) where
  unfoldable pub build : GenesisConfig t → Pallet t → Pallet t
  build genesis s = record s {
    contract_class_hashes = insert_all ⦃e = t.fe_Eq⦄ genesis.contracts s.contract_class_hashes;
    compiled_class_hashes =
        insert_all ⦃e = t.fe_Eq⦄ genesis.sierra_to_casm_class_hash s.compiled_class_hashes;
    last_known_eth_block = none;
    fee_tokens = (genesis.strk_fee_token_address, genesis.eth_fee_token_address);
    seq_addr_update = some true;
  }

  unfoldable pub parent_block_hash : Pallet t → ℕ → t.Fe
  parent_block_hash s current_block_number =
      if nat_eq current_block_number 0
      then t.zero_fe
      else or_default t.zero_fe (lookup (current_block_number - 1) s.block_hash)

  -- `now` is the timestamp in milliseconds.
  unfoldable pub block_timestamp : ℕ → ℕ
  block_timestamp now = now / 1000

  unfoldable pub get_block_context : Pallet t → ℕ → BlockInfo t
  get_block_context s now = record {
    number = s.block_number;
    timestamp = block_timestamp now;
    sequencer = s.sequencer_address;
    use_kzg_da = false;
    fee_token_addresses = s.fee_tokens;
  }

  unfoldable pub transaction_count : Pallet t → ℕ
  transaction_count s = length s.pending

  abbrev pub count_values : {K V : Type 0} → List (K × List V) → ℕ
  count_values [] = 0
  count_values ((k, vs) ∷ m) = length vs + count_values m

  unfoldable pub event_count : Pallet t → ℕ
  event_count s = count_values s.tx_events

  -- The events and messages of one call, deposited and stored.
  unfoldable pub store_call_info : t.Fe → CallInfo t.Fe t.Event t.Message → Pallet t → Pallet t
  unfolding emit_events_in_call_info aggregate_messages_in_call_info
  store_call_info tx_hash call s =
      let events = (emit_events_in_call_info call 0).0 in
      let messages = (aggregate_messages_in_call_info call 0).0 in
      record s {
        deposited = s.deposited ++ events;
        tx_events = append_all ⦃e = t.fe_Eq⦄ tx_hash events s.tx_events;
        tx_messages = append_all ⦃e = t.fe_Eq⦄ tx_hash messages s.tx_messages;
      }

  abbrev pub store_some : t.Fe → Option (CallInfo t.Fe t.Event t.Message) → Pallet t → Pallet t
  store_some tx_hash none s = s
  store_some tx_hash (some call) s = store_call_info tx_hash call s

  unfoldable pub emit_and_store_tx_and_fees_events :
      t.Fe
      → Option (CallInfo t.Fe t.Event t.Message)
      → Option (CallInfo t.Fe t.Event t.Message)
      → Pallet t
      → Pallet t
  unfolding store_call_info
  emit_and_store_tx_and_fees_events tx_hash execute_call_info fee_transfer_call_info s =
      store_some tx_hash fee_transfer_call_info (store_some tx_hash execute_call_info s)
