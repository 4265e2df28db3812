-- ===== src/Db/Bonsai.antt =====
-- The database under the state tries: `BonsaiDb` of crates/client/db/src/bonsai_db.rs. `BonsaiTransaction`
-- repeats the same operations on a RocksDB transaction. An error of RocksDB is passed on.
mod Prefix
mod Tests
use deoxys.Base.{ℕ, Bool, true, false, ◌&&◌, Option, none, some, List, [], ◌∷◌, ◌++◌, if◌then◌else◌}
use deoxys.Base.Outcome.{Result, ok, err, ◌>>=◌}
use deoxys.Base.Assoc.{Eq, nat_Eq, ◌==◌, lookup, insert as assoc_insert}
use deoxys.Db.Column.{Column}
use deoxys.Db.Rocks.{Bytes, DbError, Write, put, delete, Rocks, put_cf}

-- `bonsai_trie::DatabaseKey`, by its bytes.
pub data DatabaseKey : Type 0 where
  trie flat trie_log : Bytes → DatabaseKey

abbrev pub as_slice : DatabaseKey → Bytes
as_slice (trie key) = key
as_slice (flat key) = key
as_slice (trie_log key) = key

pub record DatabaseKeyMapping : Type 0 where
  pub flat_column : Column
  pub trie_column : Column
  pub trie_log_column : Column

unfoldable pub map : DatabaseKeyMapping → DatabaseKey → Column
map columns (trie key) = columns.trie_column
map columns (flat key) = columns.flat_column
map columns (trie_log key) = columns.trie_log_column

-- `starts_with`
abbrev pub starts_with : Bytes → Bytes → Bool
starts_with [] key = true
starts_with (p ∷ prefix) [] = false
starts_with (p ∷ prefix) (b ∷ key) = p == b && starts_with prefix key

-- `map_while` over an iterator: up to the first failure or key without the prefix.
abbrev pub entries_while : Bytes → List (Result DbError (Bytes × Bytes)) → List (Bytes × Bytes)
entries_while prefix [] = []
entries_while prefix (err e ∷ rest) = []
entries_while prefix (ok (key, value) ∷ rest) =
    let more = entries_while prefix rest in
    if starts_with prefix key then (key, value) ∷ more else []

-- The loop of `remove_by_prefix`: one deletion for each key until it breaks.
abbrev pub deletions : Column → Bytes → List (Result DbError (Bytes × Bytes)) → List Write
deletions column prefix [] = []
deletions column prefix (err e ∷ rest) = []
deletions column prefix (ok (key, value) ∷ rest) =
    let more = deletions column prefix rest in
    if starts_with prefix key then delete column key ∷ more else []

abbrev pub is_some : {A : Type 0} → Option A → Bool
is_some none = false
is_some (some a) = true

-- `iterator_cf`: the entries of a column from a key on.
module _ (r : Rocks)
    (iterator_cf : r.Db → Column → Bytes → List (Result DbError (Bytes × Bytes))) where
  -- A snapshot is the store at its time.
  pub record BonsaiDb : Type 0 where
    pub db : r.Db
    pub column_mapping : DatabaseKeyMapping
    pub snapshots : List (ℕ × r.Db)

  unfoldable pub new : r.Db → DatabaseKeyMapping → BonsaiDb
  new db columns = record { db = db; column_mapping = columns; snapshots = [] }

  unfoldable pub get : BonsaiDb → DatabaseKey → Result DbError (Option Bytes)
  unfolding map
  get s key = r.get_cf s.db (map s.column_mapping key) (as_slice key)

  unfoldable pub get_by_prefix : BonsaiDb → DatabaseKey → List (Bytes × Bytes)
  unfolding map
  get_by_prefix s prefix =
      entries_while (as_slice prefix)
        (iterator_cf s.db (map s.column_mapping prefix) (as_slice prefix))

  unfoldable pub contains : BonsaiDb → DatabaseKey → Result DbError Bool
  unfolding map
  contains s key = do
    value ← r.get_cf s.db (map s.column_mapping key) (as_slice key)
    ok (is_some value)

  -- The old value, with the batch where there is one, else with the database written to.
  unfoldable pub insert :
      BonsaiDb
      → DatabaseKey
      → Bytes
      → Option (List Write)
      → Result DbError (Option Bytes × Option (List Write) × BonsaiDb)
  unfolding map
  insert s key value (some batch) = do
    old_value ← r.get_cf s.db (map s.column_mapping key) (as_slice key)
    ok (old_value, some (batch ++ put (map s.column_mapping key) (as_slice key) value ∷ []), s)
  insert s key value none = do
    old_value ← r.get_cf s.db (map s.column_mapping key) (as_slice key)
    db' ← put_cf r s.db (map s.column_mapping key) (as_slice key) value
    ok (old_value, none, record s { db = db' })

  unfoldable pub remove :
      BonsaiDb
      → DatabaseKey
      → Option (List Write)
      → Result DbError (Option Bytes × Option (List Write) × BonsaiDb)
  unfolding map
  remove s key (some batch) = do
    old_value ← r.get_cf s.db (map s.column_mapping key) (as_slice key)
    ok (old_value, some (batch ++ delete (map s.column_mapping key) (as_slice key) ∷ []), s)
  remove s key none = do
    old_value ← r.get_cf s.db (map s.column_mapping key) (as_slice key)
    db' ← r.write s.db (delete (map s.column_mapping key) (as_slice key) ∷ [])
    ok (old_value, none, record s { db = db' })

  unfoldable pub write_batch : BonsaiDb → List Write → Result DbError BonsaiDb
  write_batch s batch = do db' ← r.write s.db batch; ok (record s { db = db' })

  unfoldable pub remove_by_prefix : BonsaiDb → DatabaseKey → Result DbError BonsaiDb
  unfolding map write_batch
  remove_by_prefix s prefix = write_batch s (
      deletions (map s.column_mapping prefix) (as_slice prefix)
        (iterator_cf s.db (map s.column_mapping prefix) (as_slice prefix)))

  unfoldable pub snapshot : BonsaiDb → ℕ → BonsaiDb
  snapshot s id = record s { snapshots = assoc_insert id s.db s.snapshots }

  -- The store that a transaction starts from: the read options with the snapshot are set up and dropped,
  -- so it is the present one.
  unfoldable pub transaction : BonsaiDb → ℕ → Option r.Db
  transaction s id = elim (lookup id s.snapshots) [ none ↦ none | some snapshot ↦ some s.db ]
