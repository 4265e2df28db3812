-- ===== src/Commitments/Tests.antt =====
-- The theorems on commitments at small state updates, over numbers in place of felts.
use deoxys.Base.{ℕ, ◌+◌, ◌*◌, some, List, [], ◌∷◌, ◌==◌}
use deoxys.Base.Assoc.{nat_Eq}
use deoxys.Transactions.Types.{Field, Transaction, declare, declare_v1}
use deoxys.Commitments.Memory.{Hasher, Bonsai}
use deoxys.Commitments.Leaves.{StateUpdate, CommitmentStateDiff, StateHash}

abbrev digest : List ℕ → ℕ
digest [] = 7
digest (x ∷ xs) = x + 31 * digest xs

abbrev numbers : Field
numbers = record {
  Fe = ℕ;
  from = λ n. n;
  from_mont = λ a b c d. a;
  add = λ a b. a + b;
  is_equal = λ a b. a == b;
  from_bytes_be = λ bs. some (digest bs);
  from_byte_slice_be = λ bs. some (digest bs);
  compute_hash_on_elements = digest;
  starknet_keccak = digest;
  calculate_contract_address = λ salt class_hash calldata. some (salt + class_hash);
}

abbrev hasher : Hasher ℕ
hasher = record { hash_elements = λ a b. a + 31 * b; compute_hash_on_elements = digest }

abbrev sums : Bonsai ℕ
sums = record {
  Trie = ℕ;
  new = some 0;
  insert = λ trie key fe. some (trie + digest key * fe);
  commit = some;
  root_hash = some;
}

abbrev a_declare : Transaction ℕ
a_declare = declare (
    declare_v1
      (record { sender_address = 1; max_fee = 2; signature = []; nonce = 3; class_hash = 4 }))

abbrev hashes : StateHash ℕ
hashes = record {
  zero_fe = 0;
  one_fe = 1;
  pedersen = λ a b. a + 31 * b;
  poseidon = λ a b. a + 37 * b;
  poseidon_on_elements = digest;
  state_prefix = 3;
  contract_class_hash_version = 5;
}

-- Contract 8, of class 40 before the block, is replaced by class 41 and written to.
abbrev an_update : StateUpdate ℕ
an_update = record {
  deployed_contracts = (6, 60) ∷ [];
  replaced_classes = (8, 41) ∷ [];
  nonces = (6, 1) ∷ [];
  storage_diffs = (8, (1, 2) ∷ []) ∷ [];
  declared_classes = [];
}

abbrev a_diff : CommitmentStateDiff ℕ
a_diff = record {
  address_to_class_hash = (8, 40) ∷ [];
  address_to_nonce = (6, 1) ∷ [];
  storage_updates = (8, (1, 2) ∷ []) ∷ [];
  class_hash_to_compiled_class_hash = [];
}
