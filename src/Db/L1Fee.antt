-- ===== src/Db/L1Fee.antt =====
-- The fees that were paid on L1: crates/client/db/src/l1_handler_tx_fee.rs. `none` stands for a panic.
use deoxys.Base.{
  ℕ, zero, suc, ◌+◌, ◌*◌, ◌/◌, ◌%◌, ◌^◌, ◌<◌, ◌≡◌, refl, ap, Option, none, some, [], ◌∷◌,
  ◌==◌ as nat_eq, length, arith, if◌then◌else◌,
}
use deoxys.Base.Outcome.{Result, ok, err}
use deoxys.Base.Assoc.{==_self, list_Eq, nat_Eq}
use deoxys.Db.Column.{l1_handler_paid_fee}
use deoxys.Db.Rocks.{Bytes, DbError, value_not_initialized, Rocks, RocksLaws, put_cf}

-- `to_le_bytes` and `from_le_bytes` of an unsigned integer.
abbrev pub to_le_bytes : ℕ → ℕ → Bytes
to_le_bytes zero n = []
to_le_bytes (suc width) n = n % 256 ∷ to_le_bytes width (n / 256)

abbrev pub from_le_bytes : Bytes → ℕ
from_le_bytes [] = 0
from_le_bytes (b ∷ bs) = b + 256 * from_le_bytes bs

pub length-to_le_bytes : (width n : ℕ) → length (to_le_bytes width n) ≡ width
length-to_le_bytes zero n = refl
length-to_le_bytes (suc width) n = ap suc (length-to_le_bytes width (n / 256))

pub from_le_bytes-to_le_bytes :
    (width n : ℕ) → n < 256 ^ width → from_le_bytes (to_le_bytes width n) ≡ n
from_le_bytes-to_le_bytes zero n fits = omega arith
from_le_bytes-to_le_bytes (suc width) n fits =
    omega (arith, from_le_bytes-to_le_bytes width (n / 256))

module _ {S : Type 0} (r : Rocks) (key : S → Bytes) where
  unfoldable pub store_fee_paid_for_l1_handler_tx : r.Db → S → ℕ → Result DbError r.Db
  store_fee_paid_for_l1_handler_tx s tx_hash fee =
      put_cf r s l1_handler_paid_fee (key tx_hash) (to_le_bytes 16 fee)

  -- `buff.copy_from_slice(&bytes)` panics unless there are 16 bytes.
  abbrev pub read_fee : S → Option Bytes → Option (Result DbError ℕ)
  read_fee tx_hash none = some (err (value_not_initialized l1_handler_paid_fee (key tx_hash)))
  read_fee tx_hash (some bytes) =
      if nat_eq (length bytes) 16 then some (ok (from_le_bytes bytes)) else none

  unfoldable pub get_fee_paid_for_l1_handler_tx : r.Db → S → Option (Result DbError ℕ)
  get_fee_paid_for_l1_handler_tx s tx_hash = elim (r.get_cf s l1_handler_paid_fee (key tx_hash)) [
    | err e ↦ some (err e)
    | ok found ↦ read_fee tx_hash found
  ]

  -- A u128 fee that was stored for a transaction is read back, without a panic.
  pub get_fee-store_fee :
      (laws : RocksLaws r) (s s' : r.Db) (tx_hash : S) (fee : ℕ)
      → fee < 2 ^ 128
      → store_fee_paid_for_l1_handler_tx s tx_hash fee ≡ ok s'
      → get_fee_paid_for_l1_handler_tx s' tx_hash ≡ some (ok fee)
  unfolding store_fee_paid_for_l1_handler_tx get_fee_paid_for_l1_handler_tx
  get_fee-store_fee laws s s' tx_hash fee fits e =
      rw
        (
          laws.reads s' l1_handler_paid_fee (key tx_hash),
          get_fee_paid_for_l1_handler_tx,
          laws.writes s s' _ l1_handler_paid_fee (key tx_hash) e,
          ==_self (key tx_hash),
        )
        (fee_read tx_hash fee fits)
    where
      fee_read :
          (tx_hash : S) (fee : ℕ)
          → fee < 2 ^ 128
          → read_fee tx_hash (some (to_le_bytes 16 fee)) ≡ some (ok fee)
      fee_read tx_hash fee fits =
          ap (λ (n : ℕ). some (ok n)) (from_le_bytes-to_le_bytes 16 fee (omega arith))
