-- ===== src/DigestLog/Tests.antt =====
-- A digest with one Madara log among other items.
use deoxys.Base.{ℕ, zero, suc, ◌≡◌, Option, none, some, [], ◌∷◌}
use deoxys.DigestLog.{Log, block, find_log, only, logs, find_log-only}

abbrev try_to : ℕ → Option (Log ℕ)
try_to zero = none
try_to (suc n) = some (block n)

find_log-only_example : find_log try_to (0 ∷ 4 ∷ 0 ∷ []) ≡ only (logs try_to (0 ∷ 4 ∷ 0 ∷ []))
find_log-only_example = find_log-only try_to (0 ∷ 4 ∷ 0 ∷ [])
