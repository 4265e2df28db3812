-- ===== src/Pallet/Tests.antt =====
-- The theorems on the Starknet pallet at small states, over numbers in place of felts.
use deoxys.Base.{Option, ℕ, ◌≡◌, ◌+◌, refl, true, none, some, [], ◌∷◌}
use deoxys.Base.Outcome.{ok}
use deoxys.Base.Assoc.{nat_Eq, lookup}
use deoxys.DigestLog.{block, logs, find_starknet_block}
use deoxys.Pallet.CallInfo.{
  Calls, call_info, no_calls, next_call, emit_events_in_call_info, aggregate_messages_in_call_info,
}
use deoxys.Pallet.Emission.{
  done, emit, enter, emit_events_in_call_info-Execution, aggregate_messages_in_call_info-Execution,
}
use deoxys.Pallet.State.{madara_engine_id, pre_runtime, consensus, Types, Pallet, parent_block_hash}
use deoxys.Pallet.Hooks.{BlockCodec, UpdateCodec, StateDiff, store_block, store_state_update}
use deoxys.Pallet.Blocks.{try_to, store_block-find_starknet_block}
use deoxys.Pallet.Adapter.{BlockifierStateAdapter, get_nonce_at}
use deoxys.Pallet.Updates.{store_state_update-lookup}

-- A call at 1 that emits before and after its inner call at 2.
abbrev inner_call : Calls ℕ ℕ ℕ
inner_call = next_call (call_info 2 ((1, 60) ∷ []) ((0, 80) ∷ []) no_calls) no_calls

emit_events_example :
    emit_events_in_call_info (call_info 1 ((0, 50) ∷ (2, 70) ∷ []) [] inner_call) 0
    ≡ ((1, 50) ∷ (2, 60) ∷ (1, 70) ∷ [], 3)
emit_events_example =
    emit_events_in_call_info-Execution ((0, 50) ∷ (2, 70) ∷ []) []
      (emit (enter (emit done) (emit done)))

aggregate_messages_example :
    aggregate_messages_in_call_info (call_info 1 [] ((1, 90) ∷ []) inner_call) 0
    ≡ ((2, 80) ∷ (1, 90) ∷ [], 2)
aggregate_messages_example =
    aggregate_messages_in_call_info-Execution [] ((1, 90) ∷ []) (enter (emit done) (emit done))

abbrev number_types : Types
number_types = record {
  Fe = ℕ;
  fe_Eq = nat_Eq;
  zero_fe = 0;
  Tx = ℕ;
  Class = ℕ;
  Abi = ℕ;
  Event = ℕ;
  Message = ℕ;
  Bytes = ℕ;
}

abbrev block_codec : BlockCodec number_types ℕ
block_codec = record {
  decode_block = λ encoded. some encoded;
  encode_log = λ b. b;
  decode_log = λ encoded. some (block encoded);
  extra_data = λ b. some (b + 100);
}

abbrev a_pallet : Pallet number_types
a_pallet = record {
  digest = pre_runtime madara_engine_id 8 ∷ [];
  block_number = 4;
  deposited = [];
  pending = 1 ∷ [];
  tx_events = [];
  tx_messages = [];
  block_hash = [];
  contract_class_hashes = [];
  contract_classes = [];
  contract_abis = [];
  compiled_class_hashes = [];
  nonces = (1, 5) ∷ [];
  last_known_eth_block = none;
  fee_tokens = (0, 0);
  sequencer_address = 0;
  seq_addr_update = none;
}

no_logs : logs (try_to number_types block_codec) a_pallet.digest ≡ []
unfolding logs
no_logs = refl

store_block_example :
    (s' : Pallet number_types) × (store_block number_types block_codec a_pallet 4 ≡ some s')
    × (find_starknet_block (try_to number_types block_codec) s'.digest ≡ ok 8)
    × (parent_block_hash number_types s' 5 ≡ 108)
    × (s'.pending ≡ [])
store_block_example =
    store_block-find_starknet_block number_types block_codec (λ b. refl) a_pallet 8 [] 8 108 refl
      refl refl no_logs

abbrev with_sequencer : Pallet number_types
with_sequencer = record a_pallet { sequencer_address = 33; seq_addr_update = some true }

abbrev finalized : Pallet number_types
finalized = record a_pallet {
  digest = pre_runtime madara_engine_id 8 ∷ consensus madara_engine_id 8 ∷ [];
  block_hash = (4, 108) ∷ [];
  pending = [];
  sequencer_address = 33;
}

abbrev a_diff : StateDiff ℕ
a_diff = record {
  nonces = (1, 6) ∷ [];
  deployed_contracts = (2, 70) ∷ [];
  replaced_classes = (2, 71) ∷ [];
  declared_classes = (9, 90) ∷ [];
}

abbrev update_codec : UpdateCodec number_types
update_codec = record {
  decode_state_update = λ encoded. some a_diff;
  decode_class_update = λ encoded. none;
}

store_state_update_example :
    (lookup 2 (store_state_update number_types update_codec 0 a_pallet).nonces ≡ none)
    × (lookup 2 (store_state_update number_types update_codec 0 a_pallet).contract_class_hashes
        ≡ some 71)
    × (lookup 2 (store_state_update number_types update_codec 0 a_pallet).compiled_class_hashes
        ≡ none)
store_state_update_example =
    store_state_update-lookup number_types update_codec a_pallet 0 a_diff 2 refl

-- An execution that has written nothing, over a storage trie that holds nothing.
abbrev fresh_adapter : BlockifierStateAdapter number_types
fresh_adapter = record {
  storage_update = [];
  nonce_update = [];
  class_hash_update = [];
  compiled_class_hash_update = [];
  contract_class_update = [];
  visited_pcs = [];
}

abbrev no_storage : ℕ → ℕ → Option (Option ℕ)
no_storage address key = some none

nonce_of_one : get_nonce_at number_types no_storage a_pallet fresh_adapter 1 ≡ ok 5
unfolding get_nonce_at
nonce_of_one = refl
