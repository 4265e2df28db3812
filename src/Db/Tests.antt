-- ===== src/Db/Tests.antt =====
-- The theorems on crates/client/db at small stores.
use deoxys.Base.{ℕ, ◌≡◌, refl, true, none, some, List, [], ◌∷◌}
use deoxys.Base.Outcome.{ok}
use deoxys.Base.Assoc.{nat_Eq}
use deoxys.Db.Column.{l1_handler_paid_fee, da, meta}
use deoxys.Db.Rocks.{Memory, Memory_laws, put, written}
use deoxys.Db.Mapping.{
  is_synced, block_hash, commitment_writes, write_hashes, block_hash_from_transaction_hash,
}
use deoxys.Db.Mapping.Views.{write_hashes_views}
use deoxys.Db.Mapping.Consistent.{IsConsistent, write_hashes-IsConsistent}
use deoxys.Db.Meta.{current_syncing_tips_key}
use deoxys.Db.Da.{DaTypes}
use deoxys.Db.L1Fee.{to_le_bytes}
use deoxys.Db.Samples.{
  number_codec, numbers_codec, codecs, empty_db, block_seven, with_block_seven, block_eight,
  with_block_eight, empty_db-IsConsistent,
}

-- A second block for a Starknet block that has one.
write_hashes_views_example :
    (is_synced Memory codecs with_block_eight 8 ≡ ok true)
    × (block_hash Memory codecs with_block_eight 3 ≡ ok (some (7 ∷ 8 ∷ [])))
    × (block_hash_from_transaction_hash Memory codecs with_block_eight 9 ≡ ok (some 8))
unfolding write_hashes block_hash commitment_writes
write_hashes_views_example =
    write_hashes_views Memory codecs Memory_laws with_block_seven with_block_eight true block_eight
      refl 8 3 9

write_hashes-IsConsistent_example : IsConsistent Memory codecs with_block_seven
unfolding write_hashes is_synced
write_hashes-IsConsistent_example =
    write_hashes-IsConsistent Memory codecs Memory_laws empty_db with_block_seven true block_seven
      empty_db-IsConsistent refl refl

abbrev with_tips : Memory.Db
with_tips =
    λ column key. written (put meta current_syncing_tips_key (4 ∷ 9 ∷ []) ∷ []) column key none

abbrev da_types : DaTypes ℕ (List ℕ) ℕ
da_types = record {
  key = λ h. h ∷ [];
  felt = number_codec;
  diff = numbers_codec;
  uuid = number_codec;
}

abbrev with_diff : Memory.Db
with_diff = λ column key. written (put da (2 ∷ []) (8 ∷ 8 ∷ []) ∷ []) column key none

abbrev with_job : Memory.Db
with_job = λ column key. written (put da (2 ∷ []) (1 ∷ []) ∷ []) column key (with_diff column key)

abbrev with_fee : Memory.Db
with_fee = λ column key.
    written (put l1_handler_paid_fee (2 ∷ []) (to_le_bytes 16 1000) ∷ []) column key none
