-- ===== src/Db/Samples.antt =====
-- Small codecs over numbers, and a store in memory, for the tests.
use deoxys.Base.{ℕ, ◌≡◌, refl, Bool, true, false, none, List, [], ◌∷◌, leb}
use deoxys.Base.Outcome.{Result, ok, err}
use deoxys.Base.Assoc.{nat_Eq}
use deoxys.Db.Rocks.{Bytes, DbError, deserialize_error, Memory, Codec, written}
use deoxys.Db.Mapping.{
  Codecs, MappingCommitment, block_hash, commitment_writes, block_hash_from_transaction_hash,
}
use deoxys.Db.Mapping.Consistent.{IsConsistent}

abbrev decode_number : Bytes → Result DbError ℕ
decode_number (n ∷ []) = ok n
decode_number _ = err deserialize_error

abbrev pub number_codec : Codec ℕ
number_codec = record { encode = λ n. n ∷ []; decode = decode_number; decode-encode = λ n. refl }

abbrev pub numbers_codec : Codec (List ℕ)
numbers_codec = record { encode = λ ns. ns; decode = ok; decode-encode = λ ns. refl }

abbrev encode_flag : Bool → Bytes
encode_flag true = 1 ∷ []
encode_flag false = 0 ∷ []

abbrev decode_flag : Bytes → Result DbError Bool
decode_flag (n ∷ []) = ok (leb 1 n)
decode_flag _ = err deserialize_error

abbrev pub flag_codec : Codec Bool
flag_codec = record { encode = encode_flag; decode = decode_flag; decode-encode = flag_round_trip }
  where
    flag_round_trip : (b : Bool) → decode_flag (encode_flag b) ≡ ok b
    flag_round_trip true = refl
    flag_round_trip false = refl

abbrev pub codecs : Codecs ℕ ℕ
codecs = record {
  hash = number_codec;
  hashes = numbers_codec;
  stark = number_codec;
  starks = numbers_codec;
  number = number_codec;
  flag = flag_codec;
}

abbrev pub empty_db : Memory.Db
empty_db = λ column key. none

-- Block 7 wraps the Starknet block 3 with the transactions 5 and 6.
abbrev pub block_seven : MappingCommitment ℕ ℕ
block_seven = record {
  block_number = 1;
  block_hash = 7;
  starknet_block_hash = 3;
  starknet_transaction_hashes = 5 ∷ 6 ∷ [];
}

abbrev pub with_block_seven : Memory.Db
with_block_seven = λ column key.
    written (commitment_writes Memory codecs empty_db true block_seven) column key none

-- Block 8 wraps the same Starknet block, with the transaction 9.
abbrev pub block_eight : MappingCommitment ℕ ℕ
block_eight = record {
  block_number = 1;
  block_hash = 8;
  starknet_block_hash = 3;
  starknet_transaction_hashes = 9 ∷ [];
}

abbrev pub with_block_eight : Memory.Db
with_block_eight = λ column key.
    written (commitment_writes Memory codecs with_block_seven true block_eight) column key
      (with_block_seven column key)

pub empty_db-IsConsistent : IsConsistent Memory codecs empty_db
unfolding block_hash block_hash_from_transaction_hash
empty_db-IsConsistent = record {
  blocks_synced = λ sh hs h at m. cc at;
  transactions_synced = λ t h at. cc at;
  distinct = λ sh hs at. cc at;
}
