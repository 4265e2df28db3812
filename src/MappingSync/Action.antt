-- ===== src/MappingSync/Action.antt =====
-- Calls that write to the database and may fail with `anyhow::Error`: what was written before a
-- failure stays written.
use deoxys.Base.{◌≡◌, ap}
use deoxys.Base.Outcome.{Result, ok, err}
use deoxys.Db.Rocks.{DbError}

pub data SyncError : Type 0 where
  hash_mismatch multiple_logs header_not_found client_error : SyncError
  db_error : DbError → SyncError

abbrev pub Action : Type 0 → Type 0 → Type 0
Action Db A = Db → Result SyncError A × Db

module _ {Db A : Type 0} where
  abbrev pub pure : A → Action Db A
  pure a s = (ok a, s)

  abbrev pub raise : SyncError → Action Db A
  raise e s = (err e, s)

  -- A call that only reads.
  abbrev pub reads : (Db → Result SyncError A) → Action Db A
  reads f s = (f s, s)

abbrev pub after :
    {Db A B : Type 0} → (A → Action Db B) → Result SyncError A × Db → Result SyncError B × Db
after f (ok a, s) = f a s
after f (err e, s) = (err e, s)

infixl 5 ◌>>=◌ ◌>>◌
abbrev pub ◌>>=◌ : {Db A B : Type 0} → Action Db A → (A → Action Db B) → Action Db B
◌>>=◌ m f s = after f (m s)

abbrev pub ◌>>◌ : {Db A B : Type 0} → Action Db A → Action Db B → Action Db B
m >> k = m >>= λ _. k

-- A write to the database: on an error the store is as it was.
abbrev pub stored : {Db : Type 0} → Result DbError Db → Db → Result SyncError (Unit {0}) × Db
stored (ok s') s = (ok tt, s')
stored (err e) s = (err (db_error e), s)

abbrev pub writes : {Db : Type 0} → (Db → Result DbError Db) → Action Db (Unit {0})
writes f s = stored (f s) s

-- What follows a call whose outcome is known.
module _ {Db A B : Type 0} (m : Action Db A) (f : A → Action Db B) (s s' : Db) where
  pub >>=-ok : (a : A) → m s ≡ (ok a, s') → (m >>= f) s ≡ f a s'
  >>=-ok a e = ap (after f) e
