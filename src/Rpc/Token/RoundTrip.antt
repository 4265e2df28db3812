-- ===== src/Rpc/Token/RoundTrip.antt =====
-- A printed continuation token parses to itself (crates/client/rpc/src/types.rs).
use deoxys.Base.{
  ℕ, zero, suc, ◌+◌, ◌*◌, ◌-◌, ◌/◌, ◌%◌, ◌<◌, ◌≤◌, ◌≡◌, ◌≢◌, refl, ap, List, [], ◌∷◌, ◌++◌, arith,
  ltb, All, All-append, append_assoc, append-nil, sym, ◌∙◌, Bool-cases, inl, inr, ltb→lt,
}
use deoxys.Base.Outcome.{ok}
use deoxys.Rpc.Token.{
  ContinuationToken, u64_mod, digits, u64_to_string, parse_digits, parse_u64, split, to_string,
  parse,
}

abbrev IsDigit : ℕ → Type 0
IsDigit c = (b'0' ≤ c) × (c ≤ b'9')

abbrev pow10 : ℕ → ℕ
pow10 zero = 1
pow10 (suc f) = pow10 f * 10

digits-IsDigit : (f n : ℕ) → All IsDigit (digits f n)
unfolding digits
digits-IsDigit zero n = tt
digits-IsDigit (suc f) n = ground (
  arith,
  All-append IsDigit (digits f (n / 10)) ((b'0' + n % 10) ∷ []) (digits-IsDigit f (n / 10)),
)

append-ne-nil : (xs : List ℕ) (x : ℕ) → xs ++ x ∷ [] ≢ []
append-ne-nil [] x h = cc
append-ne-nil (y ∷ ys) x h = cc

digits-ne-nil : (f n : ℕ) → digits (suc f) n ≢ []
unfolding digits
digits-ne-nil f n h = elim (Bool-cases (ltb n 10)) [
  | inl small ↦ cc (rw small at h)
  | inr large ↦ append-ne-nil (digits f (n / 10)) (b'0' + n % 10) (rw large at h)
]

-- One decimal digit is read back.
parse_digits-step :
    (acc d : ℕ) (rest : List ℕ)
    → d < 10
    → acc * 10 + d < u64_mod
    → parse_digits acc ((b'0' + d) ∷ rest) ≡ parse_digits (acc * 10 + d) rest
unfolding parse_digits
parse_digits-step acc d rest hd hm =
    ground (arith, ap (λ (k : ℕ). parse_digits k rest) (digit_value acc d))
  where
    digit_value : (a k : ℕ) → a * 10 + (b'0' + k - b'0') ≡ a * 10 + k
    digit_value a k = omega arith

parse_digits-digits :
    (f n : ℕ) (rest : List ℕ)
    → n < pow10 f
    → n < u64_mod
    → parse_digits 0 (digits f n ++ rest) ≡ parse_digits n rest
unfolding digits
parse_digits-digits zero n rest hf hm = ap (λ (k : ℕ). parse_digits k rest) (omega arith)
parse_digits-digits (suc f) n rest hf hm = elim (Bool-cases (ltb n 10)) [
  | inl small ↦ rw small (
      parse_digits-step 0 n rest (ltb→lt n 10 small) (omega arith)
      ∙ ap (λ (k : ℕ). parse_digits k rest) (omega arith))
  | inr large ↦ rw large (
      ap (parse_digits 0) (append_assoc (digits f (n / 10)) ((b'0' + n % 10) ∷ []) rest)
      ∙ parse_digits-digits f (n / 10) ((b'0' + n % 10) ∷ rest) (omega arith) (omega arith)
      ∙ parse_digits-step (n / 10) (n % 10) rest (omega arith) (omega arith)
      ∙ ap (λ (k : ℕ). parse_digits k rest) (omega arith))
]

parse_u64-parse_digits : (cs : List ℕ) → cs ≢ [] → All IsDigit cs → parse_u64 cs ≡ parse_digits 0 cs
unfolding parse_u64
parse_u64-parse_digits [] ne h = absurd (ne refl)
parse_u64-parse_digits (c ∷ []) ne h = refl
parse_u64-parse_digits (c ∷ d ∷ cs) ne h = ground arith

-- A u64 survives printing and parsing.
pub parse_u64-u64_to_string : (n : ℕ) → n < u64_mod → parse_u64 (u64_to_string n) ≡ ok n
unfolding u64_to_string
parse_u64-u64_to_string n h =
    parse_u64-parse_digits (digits 20 n) (digits-ne-nil 19 n) (digits-IsDigit 20 n)
    ∙ ap (parse_digits 0) (sym (append-nil (digits 20 n)))
    ∙ parse_digits-digits 20 n [] (omega arith) h
    ∙ nothing_left n
  where
    nothing_left : (k : ℕ) → parse_digits k [] ≡ ok k
    nothing_left k = unfold parse_digits in refl

u64_to_string-IsDigit : (n : ℕ) → All IsDigit (u64_to_string n)
unfolding u64_to_string
u64_to_string-IsDigit n = digits-IsDigit 20 n

split-digits : (cs : List ℕ) → All IsDigit cs → split b'-' cs ≡ cs ∷ []
unfolding split
split-digits [] h = refl
split-digits (c ∷ cs) h = ground (arith, split-digits cs h.1)

split-append : (cs ds : List ℕ) → All IsDigit cs → split b'-' (cs ++ b'-' ∷ ds) ≡ cs ∷ split b'-' ds
unfolding split
split-append [] ds h = refl
split-append (c ∷ cs) ds h = ground (arith, split-append cs ds h.1)

-- A token of two u64 values parses back to itself from its printed form.
pub parse-to_string :
    (t : ContinuationToken) → t.block_n < u64_mod → t.event_n < u64_mod → parse (to_string t) ≡ ok t
unfolding parse to_string
parse-to_string t hb he = rw (
  split-append (u64_to_string t.block_n) (u64_to_string t.event_n)
      (u64_to_string-IsDigit t.block_n),
  split-digits (u64_to_string t.event_n) (u64_to_string-IsDigit t.event_n),
  parse_u64-u64_to_string t.block_n hb,
  parse_u64-u64_to_string t.event_n he,
)
