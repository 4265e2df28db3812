-- ===== src/Header/Tests.antt =====
-- The hash of a small header, over numbers in place of field elements.
use deoxys.Base.{
  ℕ, ◌≡◌, ◌+◌, ◌^◌, refl, true, none, some, Option, List, [], ◌∷◌, ◌==◌, if◌then◌else◌, ltb, arith,
}
use deoxys.Transactions.Types.{Field}
use deoxys.Transactions.ReadBack.{NumberLaws}
use deoxys.Header.Hashing.{
  Header, FitsHeader, Commits, modern_data, header_hash, header_hash-Commits,
}

abbrev numbers : Field
numbers = record {
  Fe = ℕ;
  from = λ n. n;
  from_mont = λ a b c d. a;
  add = λ a b. a + b;
  is_equal = λ a b. a == b;
  from_bytes_be = λ bs. none;
  from_byte_slice_be = λ bs. some 7;
  compute_hash_on_elements = λ xs. 1;
  starknet_keccak = λ xs. 1;
  calculate_contract_address = λ salt class_hash calldata. none;
}

abbrev u64_of : ℕ → Option ℕ
u64_of n = if ltb n (2 ^ 64) then some n else none

same_number : (n : ℕ) → (n == n) ≡ true
same_number n = ground arith

abbrev laws : NumberLaws numbers u64_of
laws = record {
  value_of = λ n. n;
  value_of-from = λ n below. refl;
  from-value_of = λ n. refl;
  to_u64-value_of = λ n. refl;
  is_equal-same = same_number;
}

abbrev digest : List ℕ → ℕ
digest [] = 7
digest (x ∷ xs) = x + digest xs

abbrev header : ℕ → Header ℕ
header version = record {
  parent_block_hash = 1;
  block_number = 900;
  global_state_root = 2;
  sequencer_address = 3;
  block_timestamp = 4;
  transaction_count = 5;
  transaction_commitment = 6;
  event_count = 7;
  event_commitment = 8;
  protocol_version = version;
}

fits : (version : ℕ) → FitsHeader numbers (header version)
fits version = record {
  number_fits = omega arith;
  timestamp_fits = omega arith;
  transactions_fit = omega arith;
  events_fit = omega arith;
}

same_data : modern_data numbers (header 1) ≡ modern_data numbers (header 2)
unfolding modern_data
same_data = refl

same_hash : header_hash numbers digest (header 1) ≡ header_hash numbers digest (header 2)
unfolding header_hash modern_data
same_hash = refl

header_hash-Commits_example : Commits numbers (header 1) (header 2)
header_hash-Commits_example =
    header_hash-Commits numbers u64_of laws digest (header 1) (header 2) (fits 1) (fits 2)
      (omega arith) (omega arith) (λ same. same_data) same_hash
