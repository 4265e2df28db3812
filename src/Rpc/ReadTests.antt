-- ===== src/Rpc/ReadTests.antt =====
-- The theorems on the read handlers at a small server.
use deoxys.Base.{
  ℕ, zero, suc, ◌+◌, ◌^◌, ◌<◌, ltb, Option, ◌≡◌, ◌≢◌, refl, true, none, some, List, [], ◌∷◌,
  get_elem?, arith, if◌then◌else◌, ◌==◌,
}
use deoxys.Base.Outcome.{Result, ok, ok_or}
use deoxys.Base.Assoc.{nat_Eq}
use deoxys.Transactions.Types.{Field, Transaction, l1_handler}
use deoxys.Transactions.Core.{CoreTransaction}
use deoxys.Transactions.ToCore.{to_starknet_core_tx}
use deoxys.Transactions.HashKept.{transaction_hash_of, transaction_hash_of-to_starknet_core_tx}
use deoxys.Rpc.Types.{number}
use deoxys.Rpc.Server.{
  Block, Server, KeepsHash, panicked, calldata, chain_id, get_cached_transaction_hashes,
  substrate_block_hash_from_starknet_block,
}
use deoxys.Rpc.TransactionReads.{get_transaction_by_hash, get_transaction_by_block_id_and_index}
use deoxys.Rpc.Receipts.{
  Kind, invoke, declare, v0, Executable, ExecutionInfo, get_transaction_receipt_finalized,
  previous_block_hash,
}
use deoxys.Rpc.ReadLaws.{get_transaction-agree}
use deoxys.Rpc.BlockReads.{get_block_with_txs, get_block_with_tx_hashes}
use deoxys.Rpc.BlockLaws.{AgreeUnless, asked_transactions, get_block_with_txs-hashes}
use deoxys.Rpc.ReceiptLaws.{get_transaction_receipt_finalized-endless}

abbrev a_block : Block ℕ ℕ
a_block = record {
  block_hash = 77;
  block_number = 7;
  parent_block_hash = 76;
  global_state_root = 1;
  block_timestamp = 2;
  sequencer_address = 3;
  l1_gas_price = none;
  l1_da_mode = calldata;
  protocol_version = some [];
  transaction_count = 2;
  transactions = 4 ∷ 5 ∷ [];
}

abbrev a_server : Server ℕ ℕ ℕ ℕ ℕ ℕ
a_server = record {
  RpcTx = ℕ × ℕ;
  to_starknet_core_tx = λ tx h. if tx == 5 then some (tx, h) else none;
  best_number = 7;
  best_hash = 70;
  client_hash = λ n. ok (some 70);
  client_number = λ h. ok (some 7);
  get_block_by_block_hash = λ h. ok a_block;
  mapped_block_hashes = λ h. ok (some (70 ∷ []));
  block_hash_from_transaction_hash = λ h. if h == 999 then ok none else ok (some 70);
  cached_transaction_hashes = λ h. ok none;
  config_chain_id = some 1;
  contract_class_by_class_hash = λ h c. some 2;
  contract_abi_by_class_hash = λ h c. some 3;
  contract_class_by_address = λ h c. some 2;
  contract_abi_by_address = λ h c. some 3;
  contract_class_hash_by_address = λ h c. some 4;
  nonce = λ h c. some 0;
  to_rpc_class = λ c a. some 5;
  compute_hash = λ tx chain n. tx + 100;
  get_tx_execution_outcome = λ h c. ok none;
}

none_before : (j : ℕ) → j < 1 → get_elem? {A = ℕ} (104 ∷ 105 ∷ []) j ≢ some 105
none_before zero small same = absurd (omega (arith, bad same))
  where
    bad : get_elem? {A = ℕ} (104 ∷ 105 ∷ []) 0 ≡ some 105 → ◌≡◌ {A = ℕ} 104 105
    bad h = cc h
none_before (suc j) small same = absurd (omega arith)

get_transaction-agree_example :
    (get_transaction_by_block_id_and_index a_server (number 7) 1 ≡ ok_or (some (5, 105)) panicked)
    × (get_transaction_by_hash a_server 105 ≡ ok_or (some (5, 105)) panicked)
unfolding chain_id substrate_block_hash_from_starknet_block get_cached_transaction_hashes
get_transaction-agree_example =
    get_transaction-agree a_server (number 7) 70 a_block 1 1 5 105 refl refl refl refl refl refl
      none_before

abbrev kind_of : ℕ → Kind ℕ
kind_of tx = if tx == 5 then declare v0 8 else invoke

abbrev no_execution :
    ℕ
    → List (Executable ℕ ℕ)
    → List (Executable ℕ ℕ)
    → Result (Unit {0}) (List (ExecutionInfo ℕ ℕ ℕ ℕ))
no_execution h prev last = ok []

-- Transaction 5 declares a class; transaction 4 is before it.
get_transaction_receipt_finalized-endless_example :
    get_transaction_receipt_finalized a_server kind_of true (λ h. ok 0) no_execution 0 1000 1 70 105
    ≡ none
unfolding get_cached_transaction_hashes previous_block_hash substrate_block_hash_from_starknet_block
get_transaction_receipt_finalized-endless_example =
    get_transaction_receipt_finalized-endless a_server kind_of true (λ h. ok 0) no_execution 0 1000
      1 70 70 105 a_block 1 5 5 (4 ∷ []) [] v0 8 refl refl refl refl refl refl
      (Executable.invoke_transaction 4 104, (λ fuel. refl), tt) refl (2, refl)

-- A server whose answers are those of the conversion of transactions, over numbers. Its block holds an L1
-- handler transaction that can be converted.
abbrev a_field : Field
a_field = record {
  Fe = ℕ;
  from = λ n. n;
  from_mont = λ a b c d. a;
  add = λ a b. a + b;
  is_equal = λ a b. a == b;
  from_bytes_be = λ bs. none;
  from_byte_slice_be = λ bs. none;
  compute_hash_on_elements = λ xs. 1;
  starknet_keccak = λ xs. 1;
  calculate_contract_address = λ salt class_hash calldata. none;
}

abbrev u64_of : ℕ → Option ℕ
u64_of n = if ltb n (2 ^ 64) then some n else none

abbrev a_transaction : Transaction ℕ
a_transaction = l1_handler (record {
  version = 0;
  nonce = 6;
  contract_address = 2;
  entry_point_selector = 3;
  calldata = 4 ∷ [];
})

abbrev a_real_block : Block ℕ (Transaction ℕ)
a_real_block = record {
  block_hash = 77;
  block_number = 7;
  parent_block_hash = 76;
  global_state_root = 1;
  block_timestamp = 2;
  sequencer_address = 3;
  l1_gas_price = none;
  l1_da_mode = calldata;
  protocol_version = some [];
  transaction_count = 1;
  transactions = a_transaction ∷ [];
}

abbrev a_real_server : Server ℕ ℕ (Transaction ℕ) ℕ ℕ ℕ
a_real_server = record {
  RpcTx = CoreTransaction ℕ;
  to_starknet_core_tx = to_starknet_core_tx a_field u64_of;
  best_number = 7;
  best_hash = 70;
  client_hash = λ n. ok (some 70);
  client_number = λ h. ok (some 7);
  get_block_by_block_hash = λ h. ok a_real_block;
  mapped_block_hashes = λ h. ok (some (70 ∷ []));
  block_hash_from_transaction_hash = λ h. ok (some 70);
  cached_transaction_hashes = λ h. ok none;
  config_chain_id = some 1;
  contract_class_by_class_hash = λ h c. some 2;
  contract_abi_by_class_hash = λ h c. some 3;
  contract_class_by_address = λ h c. some 2;
  contract_abi_by_address = λ h c. some 3;
  contract_class_hash_by_address = λ h c. some 4;
  nonce = λ h c. some 0;
  to_rpc_class = λ c a. some 5;
  compute_hash = λ tx chain n. 100 + n;
  get_tx_execution_outcome = λ h c. ok none;
}

abbrev answers_keep_hash : KeepsHash a_real_server
answers_keep_hash = record {
  hash_of = transaction_hash_of;
  hash_of-to_starknet_core_tx = transaction_hash_of-to_starknet_core_tx a_field u64_of;
}

get_block_with_txs-hashes_example :
    AgreeUnless a_real_server transaction_hash_of
      (asked_transactions a_real_server 3 none (number 7))
      (get_block_with_txs a_real_server 3 none (number 7))
      (get_block_with_tx_hashes a_real_server 3 none (number 7))
unfolding get_cached_transaction_hashes
get_block_with_txs-hashes_example =
    get_block_with_txs-hashes a_real_server 3 none answers_keep_hash (number 7) (λ b hashes h. cc h)
