-- ===== src/Db/Storage/Memory.antt =====
-- A storage of tries in memory: the initialised identifiers and the leaves. A trie must be initialised
-- before it is written, and its root is the leaf at one key.
use deoxys.Base.{ℕ, refl, Bool, true, false, Option, none, some, List, [], ◌∷◌, if◌then◌else◌}
use deoxys.Base.Outcome.{Result, ok, err}
use deoxys.Base.Assoc.{nat_Eq, list_Eq, ◌==◌}
use deoxys.Db.Rocks.{Bytes}
use deoxys.Transactions.Bytes.{to_be_bytes, value}
use deoxys.Db.Storage.Handlers.{Felts}
use deoxys.Db.Storage.Trie.{BonsaiStorage, BonsaiLaws, Forest, set}

pub record Trees : Type 0 where
  pub names : Bytes → Bool
  pub leaves : Forest ℕ

abbrev pub first_key : List Bool
first_key = true ∷ []

abbrev pub known_root : Bool → ℕ → Result (Unit {0}) ℕ
known_root true root = ok root
known_root false root = err tt

abbrev pub if_known : Bool → Trees → Trees → Result (Unit {0}) (Unit {0}) × Trees
if_known true s s' = (ok tt, s')
if_known false s s' = (err tt, s)

abbrev pub or_zero : Option ℕ → ℕ
or_zero none = 0
or_zero (some n) = n

abbrev pub with_name : Bytes → Trees → Trees
with_name i s = record s { names = λ j. if j == i then true else s.names j }

-- A zero deletes.
abbrev pub kept_number : ℕ → Option ℕ
kept_number v = if v == 0 then none else some v

abbrev pub with_leaf : Bytes → List Bool → ℕ → Trees → Trees
with_leaf i k v s = record s { leaves = set i k (kept_number v) s.leaves }

abbrev pub leaf_root : (List Bool → Option ℕ) → ℕ
leaf_root trie = or_zero (trie first_key)

abbrev pub TreesInMemory : BonsaiStorage ℕ
TreesInMemory = record {
  Storage = Trees;
  Transaction = Unit;
  Fault = Unit;
  get_latest_id = λ s. none;
  get_transactional_state = λ s n. ok (some tt);
  init_tree = λ i s. (ok tt, with_name i s);
  insert = λ i k v s. if_known (s.names i) s (with_leaf i k v s);
  commit = λ n s. (ok tt, s);
  get = λ s i k. ok (s.leaves i k);
  get_key_value_pairs = λ s i. ok [];
  root_hash = λ s i. known_root (s.names i) (leaf_root (s.leaves i));
}

abbrev pub TreesInMemory_laws : BonsaiLaws TreesInMemory
TreesInMemory_laws = record {
  contents = λ s. s.leaves;
  kept = kept_number;
  root_of = leaf_root;
  is_known = λ s i. s.names i;
  inited = with_name;
  inserted = with_leaf;
  committed = λ n s. s;
  inits = λ i s. refl;
  inserts = λ i k v s h. rw h refl;
  commits = λ n s. refl;
  contents-inited = λ i s. refl;
  contents-inserted = λ i k v s. refl;
  contents-committed = λ n s. refl;
  known-inited = λ i j s. refl;
  known-inserted = λ i j k v s. refl;
  known-committed = λ n j s. refl;
  gets = λ s i k. refl;
  roots = λ n s i h. rw h refl;
}

-- Numbers as Starknet values, by their 32 bytes.
abbrev pub number_felts : Felts ℕ
number_felts = record { to_bytes = to_be_bytes 32; from_bytes_be = value }
