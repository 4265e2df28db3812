-- ===== src/Db/Storage/Trie.antt =====
-- What crates/client/db/src/storage.rs uses of bonsai_trie: one storage of tries, each under its
-- identifier. It is a parameter; the behaviour that the theorems need is a record of its own.
use deoxys.Base.{ℕ, Bool, true, ◌≡◌, Option, List, ◌&&◌, if◌then◌else◌}
use deoxys.Base.Outcome.{Result, ok}
use deoxys.Base.Effect.{Effect}
use deoxys.Base.Assoc.{Eq, ◌==◌, list_Eq, nat_Eq, of_discrete}
use deoxys.Db.Rocks.{Bytes}

-- `BonsaiStorage`: ids are block numbers. A call that fails may have changed the storage.
pub record BonsaiStorage (Fe : Type 0) : Type 1 where
  pub Storage : Type 0
  pub Transaction : Type 0
  pub Fault : Type 0
  pub get_latest_id : Storage → Option ℕ
  pub get_transactional_state : Storage → ℕ → Result Fault (Option Transaction)
  pub init_tree : Bytes → Effect Storage Fault (Unit {0})
  pub insert : Bytes → List Bool → Fe → Effect Storage Fault (Unit {0})
  pub commit : ℕ → Effect Storage Fault (Unit {0})
  pub get : Storage → Bytes → List Bool → Result Fault (Option Fe)
  pub get_key_value_pairs : Storage → Bytes → Result Fault (List (Bytes × Bytes))
  pub root_hash : Storage → Bytes → Result Fault Fe

-- What the tries hold, by identifier and key.
abbrev pub Forest : Type 0 → Type 0
Forest Fe = Bytes → List Bool → Option Fe

abbrev bool_discrete : Discrete Bool
bool_discrete = hlevel

instance abbrev pub bool_Eq : Eq Bool
bool_Eq = of_discrete bool_discrete

abbrev pub set : {Fe : Type 0} → Bytes → List Bool → Option Fe → Forest Fe → Forest Fe
set identifier key value forest i k = if i == identifier && k == key then value else forest i k

-- The documented behaviour of a storage whose database does not fail. `kept` is what an insertion leaves
-- to read (nothing, for the zero that deletes). The root of a trie can be read once the trie was
-- initialised, and is that of its leaves once they are committed.
pub record BonsaiLaws {Fe : Type 0} (b : BonsaiStorage Fe) : Type 0 where
  pub contents : b.Storage → Forest Fe
  pub kept : Fe → Option Fe
  pub root_of : (List Bool → Option Fe) → Fe
  pub is_known : b.Storage → Bytes → Bool
  pub inited : Bytes → b.Storage → b.Storage
  pub inserted : Bytes → List Bool → Fe → b.Storage → b.Storage
  pub committed : ℕ → b.Storage → b.Storage
  pub inits : (i : Bytes) (s : b.Storage) → b.init_tree i s ≡ (ok tt, inited i s)
  pub inserts :
      (i : Bytes) (k : List Bool) (v : Fe) (s : b.Storage)
      → is_known s i ≡ true
      → b.insert i k v s ≡ (ok tt, inserted i k v s)
  pub commits : (n : ℕ) (s : b.Storage) → b.commit n s ≡ (ok tt, committed n s)
  pub contents-inited : (i : Bytes) (s : b.Storage) → contents (inited i s) ≡ contents s
  pub contents-inserted :
      (i : Bytes) (k : List Bool) (v : Fe) (s : b.Storage)
      → contents (inserted i k v s) ≡ set i k (kept v) (contents s)
  pub contents-committed : (n : ℕ) (s : b.Storage) → contents (committed n s) ≡ contents s
  pub known-inited :
      (i j : Bytes) (s : b.Storage)
      → is_known (inited i s) j ≡ (if j == i then true else is_known s j)
  pub known-inserted :
      (i j : Bytes) (k : List Bool) (v : Fe) (s : b.Storage)
      → is_known (inserted i k v s) j ≡ is_known s j
  pub known-committed :
      (n : ℕ) (j : Bytes) (s : b.Storage) → is_known (committed n s) j ≡ is_known s j
  pub gets : (s : b.Storage) (i : Bytes) (k : List Bool) → b.get s i k ≡ ok (contents s i k)
  pub roots :
      (n : ℕ) (s : b.Storage) (i : Bytes)
      → is_known s i ≡ true
      → b.root_hash (committed n s) i ≡ ok (root_of (contents s i))
