-- ===== src/Transactions/Bytes.antt =====
-- Big-endian bytes, as `to_be_bytes` writes an unsigned integer and `FieldElement::from_bytes_be` reads a
-- buffer.
use native.Mathlib.Nat.{pow-suc}
use deoxys.Base.{
  ℕ, zero, suc, ◌+◌, ◌*◌, ◌^◌, ◌/◌, ◌%◌, ◌<◌, ◌≡◌, refl, ◌∙◌, sym, List, [], ◌∷◌, ◌++◌, length,
  length-append, replicate, arith,
}

abbrev pub to_be_bytes : ℕ → ℕ → List ℕ
to_be_bytes zero n = []
to_be_bytes (suc width) n = to_be_bytes width (n / 256) ++ n % 256 ∷ []

-- The number that a buffer holds, after the bytes that were read already.
abbrev pub value_from : ℕ → List ℕ → ℕ
value_from acc [] = acc
value_from acc (b ∷ bs) = value_from (acc * 256 + b) bs

abbrev pub value : List ℕ → ℕ
value = value_from 0

pub value_from-append :
    (acc : ℕ) (xs ys : List ℕ) → value_from acc (xs ++ ys) ≡ value_from (value_from acc xs) ys
value_from-append acc [] ys = refl
value_from-append acc (x ∷ xs) ys = value_from-append (acc * 256 + x) xs ys

pub length-to_be_bytes : (width n : ℕ) → length (to_be_bytes width n) ≡ width
length-to_be_bytes zero n = refl
length-to_be_bytes (suc width) n = omega (
  arith,
  length-append (to_be_bytes width (n / 256)) (n % 256 ∷ []),
  length-to_be_bytes width (n / 256),
)

shift : (acc p n : ℕ) → acc * (p * 256) + n ≡ (acc * p + n / 256) * 256 + n % 256
shift acc p n = omega arith

-- A number that fits is read back, in front of what was read already.
pub value_from-to_be_bytes :
    (width acc n : ℕ)
    → n < 256 ^ width
    → value_from acc (to_be_bytes width n) ≡ acc * 256 ^ width + n
value_from-to_be_bytes zero acc n fits = omega arith
value_from-to_be_bytes (suc width) acc n fits =
    value_from-append acc (to_be_bytes width (n / 256)) (n % 256 ∷ [])
    ∙ rw (value_from-to_be_bytes width acc (n / 256) (omega arith), pow-suc 256 width)
        (sym (shift acc (256 ^ width) n))

pub value_from-replicate : (width acc : ℕ) → value_from acc (replicate width 0) ≡ acc * 256 ^ width
value_from-replicate zero acc = omega arith
value_from-replicate (suc width) acc =
    value_from-replicate width (acc * 256 + 0)
    ∙ rw (pow-suc 256 width) (omega (arith, shift acc (256 ^ width) 0))
