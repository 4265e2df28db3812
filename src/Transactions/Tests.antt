-- ===== src/Transactions/Tests.antt =====
-- The theorems on transaction hashes at small transactions, over numbers in place of field elements.
use deoxys.Base.{
  ℕ, ◌≡◌, ◌↔◌, ◌<◌, ◌+◌, ◌*◌, ◌^◌, refl, true, false, Option, none, some, List, [], ◌∷◌, ◌==◌,
  if◌then◌else◌, ltb, lt→ltb, arith,
}
use deoxys.Transactions.Types.{
  Field, l1_gas, l2_gas, ResourceBoundsMapping, l1, InvokeTransactionV0, InvokeTransactionV3,
  DeclareTransactionV0V1, invoke, invoke_v0, invoke_v3, declare, declare_v0,
}
use deoxys.Transactions.Bytes.{value}
use deoxys.Transactions.Hashing.{prepare_resource_bound_value}
use deoxys.Transactions.ComputeHash.{compute_hash}
use deoxys.Transactions.Bounds.{
  field_prime, FieldLaws, gas_number, prepare_resource_bound_value_packs,
}
use deoxys.Transactions.Eras.{compute_hash-era}
use deoxys.Transactions.Core.{CoreTransaction, core_declare_v0}
use deoxys.Transactions.ToCore.{to_starknet_core_tx, core_declare}
use deoxys.Transactions.ReadBack.{NumberLaws, read_back, answered}
use deoxys.Transactions.RoundTrip.{to_starknet_core_tx-read_back, compute_hash-read_back}
use deoxys.Transactions.Answers.{IsAnswerable, to_starknet_core_tx_answers_iff}
use mathlib.Core.Option.{some-injective}
use deoxys.Base.{Bool, sym}
use deoxys.Base.Outcome.{ok}
use deoxys.Transactions.Types.{
  InvokeTransaction, invoke_v1, DeployAccountTransaction, deploy_account, deploy_account_v1,
}
use deoxys.Transactions.Invoke.{hash_invoke, hash_invoke_v1}
use deoxys.Transactions.Deploy.{hash_deploy_account, hash_deploy_account_v1}
use deoxys.Transactions.Broadcast.{
  account_invoke, account_deploy_account, BroadcastedInvoke, broadcasted_invoke_v1,
  BroadcastedDeployAccount, broadcasted_deploy_account_v1, max_fee_of, invoke_transaction,
  invoke_to_account_transaction, deploy_account_transaction, account_address,
  deploy_account_to_account_transaction,
}
use deoxys.Transactions.Relay.{
  IsLossless, sent_invoke, sent_deploy_account, invoke_to_account_transaction-relayed,
  deploy_account_to_account_transaction-relayed,
}
use deoxys.Transactions.NoPanic.{Returns, compute_hash-Returns}

abbrev digest : List ℕ → ℕ
digest [] = 7
digest (x ∷ xs) = x + 31 * digest xs

abbrev numbers : Field
numbers = record {
  Fe = ℕ;
  from = λ n. n;
  from_mont = λ a b c d. a;
  add = λ a b. a + b;
  is_equal = λ a b. a == b;
  from_bytes_be = λ bs. if ltb (value bs) field_prime then some (value bs) else none;
  from_byte_slice_be = λ bs. some (value bs);
  compute_hash_on_elements = digest;
  starknet_keccak = value;
  calculate_contract_address = λ salt class_hash calldata. some (salt + class_hash);
}

below_prime :
    (bs : List ℕ)
    → value bs < field_prime
    → (if ltb (value bs) field_prime then some (value bs) else none) ≡ some (value bs)
below_prime bs h = rw (lt→ltb (value bs) field_prime h)

abbrev numbers_laws : FieldLaws numbers
numbers_laws = record {
  value_of = λ fe. fe;
  from_bytes_be-value = λ bs h below. (value bs, below_prime bs below, refl);
  from_byte_slice_be-value = λ bs h. (value bs, refl, refl);
}

abbrev some_bounds : ResourceBoundsMapping
some_bounds l1_gas = some (record { max_amount = 1000; max_price_per_unit = 20 })
some_bounds l2_gas = none

abbrev old_invoke : InvokeTransactionV0 ℕ
old_invoke = record {
  contract_address = 2;
  entry_point_selector = 3;
  calldata = 4 ∷ 5 ∷ [];
  max_fee = 6;
  signature = [];
}

abbrev new_invoke : InvokeTransactionV3 ℕ
new_invoke = record {
  fees = record {
    tip = 1;
    resource_bounds = some_bounds;
    paymaster_data = [];
    nonce_data_availability_mode = l1;
    fee_data_availability_mode = l1;
  };
  signature = 7 ∷ 8 ∷ [];
  sender_address = 2;
  calldata = 4 ∷ [];
  nonce = 9;
  account_deployment_data = [];
}

abbrev a_declare : DeclareTransactionV0V1 ℕ
a_declare = record { sender_address = 1; max_fee = 2; signature = []; nonce = 3; class_hash = 4 }

-- A pending transaction is hashed as one of block 1470.
compute_hash-era_example :
    compute_hash numbers digest (invoke (invoke_v0 old_invoke)) 5 false none
    ≡ compute_hash numbers digest (invoke (invoke_v0 old_invoke)) 5 false (some 1470)
compute_hash-era_example =
    compute_hash-era numbers digest 5 (invoke (invoke_v0 old_invoke)) false none (some 1470) refl

prepare_resource_bound_value_example :
    (fe : ℕ) × (prepare_resource_bound_value numbers some_bounds l1_gas ≡ some fe)
    × (fe ≡ gas_number l1_gas * 2 ^ 192 + 1000 * 2 ^ 128 + 20)
prepare_resource_bound_value_example =
    prepare_resource_bound_value_packs numbers numbers_laws some_bounds l1_gas
      (omega arith, omega arith)

compute_hash-Returns_example :
    Returns (compute_hash numbers digest (invoke (invoke_v3 new_invoke)) 5 false none)
compute_hash-Returns_example =
    compute_hash-Returns numbers numbers_laws digest 5
      (λ salt class_hash calldata. (salt + class_hash, refl)) (invoke (invoke_v3 new_invoke)) false
      none ((omega arith, omega arith), tt)

abbrev u64_of : ℕ → Option ℕ
u64_of n = if ltb n (2 ^ 64) then some n else none

same_number : (n : ℕ) → (n == n) ≡ true
same_number n = ground arith

abbrev number_laws : NumberLaws numbers u64_of
number_laws = record {
  value_of = λ n. n;
  value_of-from = λ n below. refl;
  from-value_of = λ n. refl;
  to_u64-value_of = λ n. refl;
  is_equal-same = same_number;
}

abbrev an_answer : CoreTransaction ℕ
an_answer = core_declare_v0 (record {
  transaction_hash = 99;
  max_fee = 2;
  signature = [];
  class_hash = 4;
  sender_address = 1;
})

converted : to_starknet_core_tx numbers u64_of (declare (declare_v0 a_declare)) 99 ≡ some an_answer
unfolding to_starknet_core_tx core_declare
converted = refl

to_starknet_core_tx-read_back_example :
    read_back numbers u64_of number_laws an_answer
    ≡ answered numbers u64_of number_laws (declare (declare_v0 a_declare))
to_starknet_core_tx-read_back_example =
    to_starknet_core_tx-read_back numbers u64_of number_laws (declare (declare_v0 a_declare)) 99
      an_answer (omega arith) converted

compute_hash-read_back_example :
    compute_hash numbers digest (read_back numbers u64_of number_laws an_answer) 5 false (some 2000)
    ≡ compute_hash numbers digest (declare (declare_v0 a_declare)) 5 false (some 2000)
compute_hash-read_back_example =
    compute_hash-read_back numbers u64_of number_laws digest 5 (some 2000)
      (declare (declare_v0 a_declare)) 99 an_answer (omega arith) tt converted

-- A transaction without bounds for its second resource is not answered.
to_starknet_core_tx_answers_example :
    Returns (to_starknet_core_tx numbers u64_of (invoke (invoke_v3 new_invoke)) 99)
    ↔ IsAnswerable numbers u64_of number_laws (invoke (invoke_v3 new_invoke))
to_starknet_core_tx_answers_example =
    to_starknet_core_tx_answers_iff numbers u64_of number_laws (invoke (invoke_v3 new_invoke)) 99

abbrev u128_of : ℕ → Option ℕ
u128_of n = if ltb n (2 ^ 128) then some n else none

tested_number : (b : Bool) (m n : ℕ) → (if b then some m else none) ≡ some n → n ≡ m
tested_number true m n done = sym (some-injective m n done)
tested_number false m n done = cc

abbrev lossless : IsLossless numbers u128_of
lossless = record { from-to_u128 = λ fe n done. tested_number (ltb fe (2 ^ 128)) fe n done }

abbrev sent : BroadcastedInvoke ℕ
sent = broadcasted_invoke_v1 (record {
  sender_address = 2;
  calldata = 4 ∷ 5 ∷ [];
  max_fee = 6;
  signature = 7 ∷ [];
  nonce = 9;
  is_query = false;
})

abbrev accepted : InvokeTransaction ℕ
accepted = invoke_v1 (record {
  max_fee = 6;
  signature = 7 ∷ [];
  nonce = 9;
  sender_address = 2;
  calldata = 4 ∷ 5 ∷ [];
})

sent_is_accepted :
    (tx_hash : ℕ) × (invoke_to_account_transaction numbers digest u128_of sent
      ≡ some (ok (account_invoke accepted tx_hash)))
unfolding invoke_to_account_transaction invoke_transaction max_fee_of compute_hash hash_invoke
    hash_invoke_v1
sent_is_accepted = (_, refl)

invoke_to_account_transaction-relayed_example :
    to_starknet_core_tx numbers u64_of (invoke accepted) 99 ≡ some (sent_invoke sent 99)
invoke_to_account_transaction-relayed_example =
    invoke_to_account_transaction-relayed numbers digest u64_of u128_of lossless sent 99 accepted
      (sent_is_accepted.0) (sent_is_accepted.1)

abbrev sent_account : BroadcastedDeployAccount ℕ
sent_account = broadcasted_deploy_account_v1 (record {
  max_fee = 6;
  signature = 7 ∷ [];
  nonce = 0;
  contract_address_salt = 3;
  constructor_calldata = 4 ∷ [];
  class_hash = 8;
  is_query = true;
})

abbrev accepted_account : DeployAccountTransaction ℕ
accepted_account = deploy_account_v1 (record {
  max_fee = 6;
  signature = 7 ∷ [];
  nonce = 0;
  class_hash = 8;
  contract_address_salt = 3;
  constructor_calldata = 4 ∷ [];
})

sent_account_is_accepted :
    (tx_hash : ℕ) × (deploy_account_to_account_transaction numbers digest u128_of sent_account
      ≡ some (ok (account_deploy_account accepted_account tx_hash 11)))
unfolding deploy_account_to_account_transaction deploy_account_transaction account_address
    max_fee_of compute_hash hash_deploy_account hash_deploy_account_v1
sent_account_is_accepted = (_, refl)

deploy_account_to_account_transaction-relayed_example :
    to_starknet_core_tx numbers u64_of (deploy_account accepted_account) 99
    ≡ some (sent_deploy_account sent_account 99)
deploy_account_to_account_transaction-relayed_example =
    deploy_account_to_account_transaction-relayed numbers digest u64_of u128_of lossless
      sent_account 99 accepted_account (sent_account_is_accepted.0) 11 (sent_account_is_accepted.1)
