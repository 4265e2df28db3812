-- ===== src/Db/Bonsai/Tests.antt =====
-- The theorems on crates/client/db/src/bonsai_db.rs at a store that holds at most one entry.
use deoxys.Base.{
  ◌≡◌, refl, ap, sym, ◌∙◌, Bool, true, false, ◌&&◌, Option, none, some, List, [], ◌∷◌,
  map as list_map, if◌then◌else◌, inl, inr, Bool-cases,
}
use deoxys.Base.Outcome.{Result, ok, err}
use deoxys.Base.Assoc.{nat_Eq, list_Eq, ◌==◌, lookup, list_beq_iff, ==_self}
use deoxys.Db.Column.{
  Column, column_Eq, bonsai_contracts_flat, bonsai_contracts_trie, bonsai_contracts_log,
}
use deoxys.Db.Rocks.{Bytes, DbError, rocks_db, Write, put, delete, Rocks, RocksLaws, written}
use deoxys.Db.Bonsai.{DatabaseKeyMapping, BonsaiDb, trie, map, remove_by_prefix, write_batch}
use deoxys.Db.Bonsai.Prefix.{at_most, IsSorted, IteratorLaws, remove_by_prefix-contents}

abbrev the_key : Bytes
the_key = 1 ∷ 2 ∷ []

abbrev nine : Bytes
nine = 9 ∷ []

abbrev Held : Type 0
Held = Column → Bool

abbrev held : Held → Column → Bytes → Option Bytes
held s c k = if s c && the_key == k then some nine else none

-- A batch that puts something fails.
abbrev write_all : Held → List Write → Result DbError Held
write_all s [] = ok s
write_all s (delete d j ∷ ws) = write_all (λ c. if d == c && the_key == j then false else s c) ws
write_all s (put d j v ∷ ws) = err rocks_db

abbrev OneKey : Rocks
OneKey = record { Db = Held; get_cf = λ s c k. ok (held s c k); write = write_all }

held_after : Result DbError Held → Column → Bytes → Option Bytes
held_after (ok s) c k = held s c k
held_after (err e) c k = none

deleted :
    (same present : Bool) (j k : Bytes)
    → (if (if same && the_key == j then false else present) && the_key == k
        then some nine
        else none)
      ≡ (if same && j == k then none else (if present && the_key == k then some nine else none))
deleted same present j k = elim (Bool-cases (j == k)) [
  | inl h ↦ rw ((list_beq_iff j k).0 h, ==_self k) (alike same present (the_key == k))
  | inr h ↦ rw h (unlike same present (the_key == j) (the_key == k) (apart j k h))
]
  where
    alike :
        (a b c : Bool)
        → (if (if a && c then false else b) && c then some nine else none)
          ≡ (if a && true then none else (if b && c then some nine else none))
    alike true true true = refl
    alike true true false = refl
    alike true false c = elim (Bool-cases c) [ inl h ↦ rw h refl | inr h ↦ rw h refl ]
    alike false b c = refl

    apart : (j k : Bytes) → (j == k) ≡ false → (the_key == j) ≡ true → (the_key == k) ≡ false
    apart j k h first = elim (Bool-cases (the_key == k)) [
      | inl second ↦
          cc (h, (list_beq_iff the_key j).0 first, (list_beq_iff the_key k).0 second, ==_self k)
      | inr second ↦ second
    ]

    unlike :
        (a b c d : Bool)
        → (c ≡ true → d ≡ false)
        → (if (if a && c then false else b) && d then some nine else none)
          ≡ (if a && false then none else (if b && d then some nine else none))
    unlike true b true d h = rw (h refl) (none_of b)
      where
        none_of : (b : Bool) → ◌≡◌ {A = Option Bytes} none (if b && false then some nine else none)
        none_of true = refl
        none_of false = refl
    unlike true b false d h = refl
    unlike false b c d h = refl

write_all_lem :
    (ws : List Write) (s s' : Held) (c : Column) (k : Bytes)
    → write_all s ws ≡ ok s'
    → held s' c k ≡ written ws c k (held s c k)
unfolding held_after
write_all_lem [] s s' c k h = sym (ap (λ t. held_after t c k) h)
write_all_lem (delete d j ∷ ws) s s' c k h =
    write_all_lem ws (λ t. if d == t && the_key == j then false else s t) s' c k h
    ∙ ap (written ws c k) (deleted (d == c) (s c) j k)
write_all_lem (put d j v ∷ ws) s s' c k h = cc h

OneKey_laws : RocksLaws OneKey
OneKey_laws = record {
  contents = held;
  reads = λ s c k. refl;
  writes = λ s s' ws c k h. write_all_lem ws s s' c k h;
}

abbrev from_low : Bool → Bytes → List (Bytes × Bytes)
from_low present low = if present && at_most low the_key then (the_key, nine) ∷ [] else []

abbrev one_iterator : Held → Column → Bytes → List (Result DbError (Bytes × Bytes))
one_iterator s c low = list_map ok (from_low (s c) low)

from_low-IsSorted : (present : Bool) (low : Bytes) → IsSorted low (from_low present low)
from_low-IsSorted false low = tt
from_low-IsSorted true low = elim (Bool-cases (at_most low the_key)) [
  | inl h ↦ rw h (h, tt)
  | inr h ↦ rw h tt
]

lookup-from_low :
    (present : Bool) (low key : Bytes)
    → at_most low key ≡ true
    → lookup key (from_low present low) ≡ (if present && the_key == key then some nine else none)
lookup-from_low false low key h = refl
lookup-from_low true low key h = elim (Bool-cases (at_most low the_key)) [
  | inl here ↦ rw here refl
  | inr above ↦ elim (Bool-cases (the_key == key)) [
    | inl same ↦ cc (above, h, ap (at_most low) ((list_beq_iff the_key key).0 same))
    | inr differs ↦ rw (above, differs) refl
  ]
]

one_iterator_laws : IteratorLaws OneKey OneKey_laws one_iterator
unfolding OneKey_laws
one_iterator_laws = record {
  entries = λ s c low. from_low (s c) low;
  iterates = λ s c low. refl;
  sorted = λ s c low. from_low-IsSorted (s c) low;
  complete = λ s c low key h. lookup-from_low (s c) low key h;
}

abbrev columns : DatabaseKeyMapping
columns = record {
  flat_column = bonsai_contracts_flat;
  trie_column = bonsai_contracts_trie;
  trie_log_column = bonsai_contracts_log;
}

abbrev a_db : BonsaiDb OneKey one_iterator
a_db = record { db = λ c. true; column_mapping = columns; snapshots = [] }

abbrev removed_db : BonsaiDb OneKey one_iterator
removed_db = record a_db {
  db = λ c. if bonsai_contracts_trie == c && the_key == the_key then false else true;
}

remove_by_prefix-contents_example : held removed_db.db bonsai_contracts_trie the_key ≡ none
unfolding OneKey_laws remove_by_prefix write_batch map
remove_by_prefix-contents_example =
    remove_by_prefix-contents OneKey OneKey_laws one_iterator one_iterator_laws a_db removed_db
      (trie (1 ∷ [])) bonsai_contracts_trie the_key refl
