-- ===== src/Rpc/Token.antt =====
-- Continuation tokens: crates/client/rpc/src/types.rs. A text is the list of its ASCII codes. The
-- printing and parsing of `u64` are those of Rust's standard library, for decimal digits.
pub mod RoundTrip
mod Digits
unfoldable pub use Digits.*
use deoxys.Base.{
  ℕ, zero, suc, ◌+◌, ◌*◌, ◌-◌, ◌^◌, Bool, true, false, ◌&&◌, ◌||◌, Option, none, some, List, [],
  ◌∷◌, ◌++◌, ltb, leb, ◌==◌, if◌then◌else◌,
}
use deoxys.Base.Outcome.{Result, ok, err, ◌>>=◌, map_err}

pub record ContinuationToken : Type 0 where
  pub block_n : ℕ
  pub event_n : ℕ

pub data ParseTokenError : Type 0 where
  wrong_token : ParseTokenError
  parse_failed : ParseIntError → ParseTokenError

-- `impl Display`: `write!(f, "{}-{}", self.block_n, self.event_n)`
unfoldable pub to_string : ContinuationToken → List ℕ
to_string t = u64_to_string t.block_n ++ b'-' ∷ u64_to_string t.event_n

-- `str::split`: the pieces between the separators, an empty one where two of them meet.
abbrev cons_piece : ℕ → List (List ℕ) → List (List ℕ)
cons_piece c [] = (c ∷ []) ∷ []
cons_piece c (p ∷ ps) = (c ∷ p) ∷ ps

pub split : ℕ → List ℕ → List (List ℕ)
split sep [] = [] ∷ []
split sep (c ∷ cs) = let rest = split sep cs in if c == sep then [] ∷ rest else cons_piece c rest

abbrev of_pieces : List (List ℕ) → Result ParseTokenError ContinuationToken
of_pieces (a ∷ b ∷ []) = do
  block_n ← map_err parse_failed (parse_u64 a)
  event_n ← map_err parse_failed (parse_u64 b)
  ok (record { block_n = block_n; event_n = event_n })
of_pieces _ = err wrong_token

-- `ContinuationToken::parse`: exactly two pieces, each a `u64`.
pub parse : List ℕ → Result ParseTokenError ContinuationToken
unfolding split
parse token = of_pieces (split b'-' token)
