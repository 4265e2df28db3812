-- ===== src/Db/Storage/Keys.antt =====
-- The keys of the state tries: the conversions of crates/client/db/src/storage.rs. A Starknet value is
-- its 32 bytes, the first one the most significant.
use native.Mathlib.Nat.{pow-suc}
use deoxys.Base.{
  ℕ, zero, suc, ◌+◌, ◌*◌, ◌/◌, ◌%◌, ◌^◌, ◌<◌, ◌≡◌, refl, sym, ap, ◌∙◌, Bool, false, List, [], ◌∷◌,
  ◌++◌, length, drop, All, arith, ◌==◌, if◌then◌else◌, ==_iff,
}
use deoxys.Db.Rocks.{Bytes}

-- The bits of a byte from the most significant one on (`Msb0`), for a width.
abbrev pub byte_bits : ℕ → ℕ → List Bool
byte_bits zero byte = []
byte_bits (suc width) byte = byte_bits width (byte / 2) ++ (byte % 2 == 1) ∷ []

-- `as_bits::<Msb0>()`
abbrev pub as_bits : Bytes → List Bool
as_bits [] = []
as_bits (byte ∷ bytes) = byte_bits 8 byte ++ as_bits bytes

-- The key of 251 bits: `as_bits()[5..]`.
unfoldable pub conv_contract_key : Bytes → List Bool
conv_contract_key key = drop 5 (as_bits key)

unfoldable pub conv_contract_storage_key : Bytes → List Bool
conv_contract_storage_key key = drop 5 (as_bits key)

unfoldable pub conv_class_key : Bytes → List Bool
conv_class_key key = drop 5 (as_bits key)

-- The identifier of a contract's own trie: all its bytes.
unfoldable pub conv_contract_identifier : Bytes → Bytes
conv_contract_identifier identifier = identifier

-- The number that bits stand for, after those that were read already.
abbrev pub bits_value : ℕ → List Bool → ℕ
bits_value acc [] = acc
bits_value acc (b ∷ bs) = bits_value (acc * 2 + (if b then 1 else 0)) bs

bits_value-append :
    (acc : ℕ) (xs ys : List Bool) → bits_value acc (xs ++ ys) ≡ bits_value (bits_value acc xs) ys
bits_value-append acc [] ys = refl
bits_value-append acc (x ∷ xs) ys = bits_value-append (acc * 2 + (if x then 1 else 0)) xs ys

bit_value : (n : ℕ) → (if n % 2 == 1 then 1 else 0) ≡ n % 2
bit_value n = ground (arith, ==_iff (n % 2) 1)

-- The bits of a byte tell it.
bits_value-byte_bits :
    (width acc n : ℕ) → n < 2 ^ width → bits_value acc (byte_bits width n) ≡ acc * 2 ^ width + n
bits_value-byte_bits zero acc n fits = omega arith
bits_value-byte_bits (suc width) acc n fits =
    bits_value-append acc (byte_bits width (n / 2)) ((n % 2 == 1) ∷ [])
    ∙ rw (bits_value-byte_bits width acc (n / 2) (omega arith), bit_value n, pow-suc 2 width)
        (sym (shift acc (2 ^ width) n))
  where
    shift : (a p m : ℕ) → a * (p * 2) + m ≡ (a * p + m / 2) * 2 + m % 2
    shift a p m = omega arith

abbrev pub IsByte : ℕ → Type 0
IsByte b = b < 256

byte_bits_injective : (a b : ℕ) → IsByte a → IsByte b → byte_bits 8 a ≡ byte_bits 8 b → a ≡ b
byte_bits_injective a b fits_a fits_b h = omega (
  arith,
  bits_value-byte_bits 8 0 a fits_a,
  bits_value-byte_bits 8 0 b fits_b,
  ap (bits_value 0) h,
)

-- The lists of eight bits, and what follows them.
octet : List Bool → List Bool
octet (a ∷ b ∷ c ∷ d ∷ e ∷ f ∷ g ∷ h ∷ rest) = a ∷ b ∷ c ∷ d ∷ e ∷ f ∷ g ∷ h ∷ []
octet bits = bits

as_bits_injective :
    (xs ys : Bytes) → All IsByte xs → All IsByte ys → as_bits xs ≡ as_bits ys → xs ≡ ys
unfolding octet
as_bits_injective [] [] hx hy h = refl
as_bits_injective [] (y ∷ ys) hx hy h = cc
as_bits_injective (x ∷ xs) [] hx hy h = cc
as_bits_injective (x ∷ xs) (y ∷ ys) hx hy h =
    let head = byte_bits_injective x y hx.0 hy.0 (ap octet h) in
    let tail = as_bits_injective xs ys hx.1 hy.1 (ap (drop 8) h) in cc

-- A value below 2 ^ 251: 32 bytes, the first of which is below 8.
abbrev pub IsKey : Bytes → Type 0
IsKey [] = ⊥
IsKey (b ∷ bs) = (b < 8) × All IsByte bs × (length bs ≡ 31)

low_bits :
    (a b : ℕ)
    → a < 8
    → b < 8
    → (a / 2 / 2 % 2 == 1) ≡ (b / 2 / 2 % 2 == 1)
    → (a / 2 % 2 == 1) ≡ (b / 2 % 2 == 1)
    → (a % 2 == 1) ≡ (b % 2 == 1)
    → a ≡ b
low_bits a b ha hb h2 h1 h0 = ground arith

-- The bit at a place, `false` past the end.
bit : ℕ → List Bool → Bool
bit n [] = false
bit zero (b ∷ bs) = b
bit (suc n) (b ∷ bs) = bit n bs

-- Distinct contract addresses have distinct keys: the five bits that are dropped are zero.
pub conv_contract_key_injective :
    (a b : Bytes) → IsKey a → IsKey b → conv_contract_key a ≡ conv_contract_key b → a ≡ b
unfolding conv_contract_key bit
conv_contract_key_injective [] b ha hb h = absurd ha
conv_contract_key_injective (x ∷ xs) [] ha hb h = absurd hb
conv_contract_key_injective (x ∷ xs) (y ∷ ys) ha hb h =
    let head = low_bits x y ha.0 hb.0 (ap (bit 0) h) (ap (bit 1) h) (ap (bit 2) h) in
    let tail = as_bits_injective xs ys ha.1 hb.1 (ap (drop 3) h) in cc

-- Storage keys and class hashes have the keys that contract addresses with the same bytes have.
pub conv_keys_agree :
    (a : Bytes)
    → (conv_contract_storage_key a ≡ conv_contract_key a) × (conv_class_key a ≡ conv_contract_key a)
unfolding conv_contract_key conv_contract_storage_key conv_class_key
conv_keys_agree a = (refl, refl)

length-as_bits : (xs : Bytes) → length (as_bits xs) ≡ 8 * length xs
length-as_bits [] = omega arith
length-as_bits (x ∷ xs) = omega (arith, length-as_bits xs)

-- Every key has 251 bits.
pub length-conv_contract_key : (a : Bytes) → length a ≡ 32 → length (conv_contract_key a) ≡ 251
unfolding conv_contract_key
length-conv_contract_key [] h = omega arith
length-conv_contract_key (x ∷ xs) h = omega (arith, length-as_bits xs)
