-- ===== src/Base/Effect.antt =====
-- Calls that change a state and may fail: what was changed before a failure stays changed.
use deoxys.Base.Outcome.{Result, ok, err}
use mathlib.Core.Path.{◌≡◌, ap}
use mathlib.Core.List.{List, [], ◌∷◌}

abbrev pub Effect : Type 0 → Type 0 → Type 0 → Type 0
Effect S E A = S → Result E A × S

module _ {S E A : Type 0} where
  abbrev pub pure : A → Effect S E A
  pure a s = (ok a, s)

  abbrev pub raise : E → Effect S E A
  raise e s = (err e, s)

  -- A call that only reads.
  abbrev pub reads : (S → Result E A) → Effect S E A
  reads f s = (f s, s)

abbrev pub after : {S E A B : Type 0} → (A → Effect S E B) → Result E A × S → Result E B × S
after f (ok a, s) = f a s
after f (err e, s) = (err e, s)

infixl 5 ◌>>=◌ ◌>>◌
abbrev pub ◌>>=◌ : {S E A B : Type 0} → Effect S E A → (A → Effect S E B) → Effect S E B
◌>>=◌ m f s = after f (m s)

abbrev pub ◌>>◌ : {S E B : Type 0} → Effect S E (Unit {0}) → Effect S E B → Effect S E B
m >> k = m >>= λ _. k

-- What follows a call that succeeds, and what a call that fails leaves.
module _ {S E A B : Type 0} (m : Effect S E A) (f : A → Effect S E B) (s s' : S) where
  pub >>=-ok : (a : A) → m s ≡ (ok a, s') → (m >>= f) s ≡ f a s'
  >>=-ok a h = ap (after f) h

  pub >>=-err : (e : E) → m s ≡ (err e, s') → (m >>= f) s ≡ (err e, s')
  >>=-err e h = ap (after f) h

-- `for item in items { f(item)?; }`
abbrev pub for_each :
    {S E A : Type 0} → (A → Effect S E (Unit {0})) → List A → Effect S E (Unit {0})
for_each f [] = pure tt
for_each f (a ∷ rest) = f a >>= λ _. for_each f rest
