-- ===== src/DigestLog.antt =====
-- The Starknet block in a Substrate block's digest: crates/primitives/digest-log/src/lib.rs. `I` are
-- digest items and `try_to` is Substrate's `DigestItem::try_to` at the Madara engine's id; the one
-- constructor of `Log` wraps a block, so a log is its block.
mod Tests
use deoxys.Base.{
  ℕ, suc, ◌+◌, ◌<◌, ◌≡◌, refl, Bool, true, false, Option, none, some, List, [], ◌∷◌, ◌++◌, arith,
  Option-cases, inl, inr,
}
use deoxys.Base.Outcome.{Result, ok, err, ◌>>=◌}

pub data FindLogError : Type 0 where
  not_log multiple_logs : FindLogError

pub data Log (B : Type 0) : Type 0 where
  block : B → Log B

-- One round of the loop: what was found so far, what this item holds, and the rest of the loop.
abbrev next :
    {B : Type 0}
    → Option (Log B)
    → Option (Log B)
    → (Option (Log B) → Result FindLogError (Log B))
    → Result FindLogError (Log B)
next (some found) (some log) rest = err multiple_logs
next none (some log) rest = rest (some log)
next found none rest = rest found

module _ {I B : Type 0} (try_to : I → Option (Log B)) where
  -- `for log in digest.logs()`, and `found.ok_or(NotLog)` at its end.
  unfoldable pub find_from : Option (Log B) → List I → Result FindLogError (Log B)
  find_from none [] = err not_log
  find_from (some log) [] = ok log
  find_from found (item ∷ items) = next found (try_to item) (λ log. find_from log items)

  unfoldable pub find_log : List I → Result FindLogError (Log B)
  unfolding find_from
  find_log items = find_from none items

  unfoldable pub find_starknet_block : List I → Result FindLogError B
  unfolding find_log
  find_starknet_block items = find_log items >>= λ log. elim log [ block b ↦ ok b ]

  unfoldable pub ensure_log : List I → Result FindLogError (Unit {0})
  unfolding find_log
  ensure_log items = find_log items >>= λ _. ok tt

-- The specification: the logs of a digest, and the only one among them.
module _ {I B : Type 0} (try_to : I → Option (Log B)) where
  unfoldable pub logs : List I → List (Log B)
  logs [] = []
  logs (item ∷ items) =
      let rest = logs items in elim (try_to item) [ none ↦ rest | some log ↦ log ∷ rest ]

abbrev pub only : {B : Type 0} → List (Log B) → Result FindLogError (Log B)
only [] = err not_log
only (log ∷ []) = ok log
only (log ∷ other ∷ rest) = err multiple_logs

module _ {I B : Type 0} (try_to : I → Option (Log B)) where
  find_from-some :
      (log : Log B) (items : List I)
      → find_from try_to (some log) items ≡ only (log ∷ logs try_to items)
  unfolding find_from logs
  find_from-some log [] = refl
  find_from-some log (item ∷ items) = ground (arith, find_from-some log items)

  find_from-none : (items : List I) → find_from try_to none items ≡ only (logs try_to items)
  unfolding find_from logs
  find_from-none [] = refl
  find_from-none (item ∷ items) = elim (Option-cases (try_to item)) [
    | inl empty ↦ rw (empty, logs) (find_from-none items)
    | inr (log, found) ↦ rw (found, logs) (find_from-some log items)
  ]

  -- The block that is found is the only Madara log of the digest: with none, or with two or more, the
  -- search gives the error that says so.
  pub find_log-only : (items : List I) → find_log try_to items ≡ only (logs try_to items)
  unfolding find_log
  find_log-only items = find_from-none items
