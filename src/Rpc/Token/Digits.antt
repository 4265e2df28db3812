-- ===== src/Rpc/Token/Digits.antt =====
-- `u64::to_string` and `str::parse::<u64>` of Rust's standard library.
use deoxys.Base.{
  ℕ, zero, suc, ◌+◌, ◌*◌, ◌-◌, ◌/◌, ◌%◌, ◌^◌, Bool, ◌&&◌, List, [], ◌∷◌, ◌++◌, ltb, leb, ◌==◌,
  if◌then◌else◌,
}
use deoxys.Base.Outcome.{Result, ok, err}

-- The kinds of `ParseIntError` that an unsigned number can give.
pub data ParseIntError : Type 0 where
  is_empty invalid_digit pos_overflow : ParseIntError

abbrev pub u64_mod : ℕ
u64_mod = 2 ^ 64

-- The digits of a number below 10 ^ fuel.
unfoldable pub digits : ℕ → ℕ → List ℕ
digits zero n = []
digits (suc fuel) n =
    let rest = digits fuel (n / 10) ++ (b'0' + n % 10) ∷ [] in
    if ltb n 10 then (b'0' + n) ∷ [] else rest

-- 20 digits are enough for a u64.
unfoldable pub u64_to_string : ℕ → List ℕ
unfolding digits
u64_to_string n = digits 20 n

abbrev pub is_digit : ℕ → Bool
is_digit c = leb b'0' c && leb c b'9'

-- One digit after another, with the checked product and sum.
unfoldable pub parse_digits : ℕ → List ℕ → Result ParseIntError ℕ
parse_digits acc [] = ok acc
parse_digits acc (c ∷ cs) =
    let rest = parse_digits (acc * 10 + (c - b'0')) cs in
    if is_digit c
    then (if ltb (acc * 10 + (c - b'0')) u64_mod then rest else err ParseIntError.pos_overflow)
    else err ParseIntError.invalid_digit

-- A leading `+` is allowed where a digit follows.
unfoldable pub parse_u64 : List ℕ → Result ParseIntError ℕ
unfolding parse_digits
parse_u64 [] = err ParseIntError.is_empty
parse_u64 (c ∷ []) = parse_digits 0 (c ∷ [])
parse_u64 (c ∷ d ∷ cs) = if c == b'+' then parse_digits 0 (d ∷ cs) else parse_digits 0 (c ∷ d ∷ cs)
