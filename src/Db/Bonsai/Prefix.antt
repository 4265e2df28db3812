-- ===== src/Db/Bonsai/Prefix.antt =====
-- The keys with a prefix: crates/client/db/src/bonsai_db.rs over an iterator in key order.
use deoxys.Base.{
  ◌≡◌, refl, ap, sym, ◌∙◌, Bool, true, false, ◌&&◌, ◌||◌, Option, none, some, List, [], ◌∷◌,
  map as list_map, if◌then◌else◌, arith, inl, inr, Bool-cases, ltb, ==_iff,
}
use deoxys.Base.Outcome.{Result, ok, err, >>=-eq-ok}
use deoxys.Base.Assoc.{nat_Eq, list_Eq, ◌==◌, lookup, list_beq_iff}
use deoxys.Db.Column.{Column, column_Eq}
use deoxys.Db.Rocks.{Bytes, DbError, Rocks, RocksLaws, written}
use deoxys.Db.Bonsai.{
  DatabaseKey, as_slice, map, is_some, starts_with, entries_while, deletions, BonsaiDb,
  get_by_prefix, remove_by_prefix, write_batch,
}

-- The order of keys: by their bytes.
abbrev pub at_most : Bytes → Bytes → Bool
at_most [] ys = true
at_most (x ∷ xs) [] = false
at_most (x ∷ xs) (y ∷ ys) = ltb x y || (x == y && at_most xs ys)

-- Between a prefix and a key that has it, every key has it.
between :
    (p x y : Bytes)
    → at_most p x ≡ true
    → at_most x y ≡ true
    → starts_with p y ≡ true
    → starts_with p x ≡ true
between [] x y h1 h2 h3 = refl
between (p ∷ ps) [] y h1 h2 h3 = cc
between (p ∷ ps) (x ∷ xs) [] h1 h2 h3 = cc
between (p ∷ ps) (x ∷ xs) (y ∷ ys) h1 h2 h3 =
    ground (arith, ==_iff p x, ==_iff x y, ==_iff p y, between ps xs ys)

at_most_from_prefix : (p y : Bytes) → starts_with p y ≡ true → at_most p y ≡ true
at_most_from_prefix [] y h = refl
at_most_from_prefix (p ∷ ps) [] h = cc
at_most_from_prefix (p ∷ ps) (y ∷ ys) h = ground (arith, at_most_from_prefix ps ys)

at_most_trans : (x y z : Bytes) → at_most x y ≡ true → at_most y z ≡ true → at_most x z ≡ true
at_most_trans [] y z h1 h2 = refl
at_most_trans (x ∷ xs) [] z h1 h2 = cc
at_most_trans (x ∷ xs) (y ∷ ys) [] h1 h2 = cc
at_most_trans (x ∷ xs) (y ∷ ys) (z ∷ zs) h1 h2 =
    ground (arith, ==_iff x y, ==_iff y z, ==_iff x z, at_most_trans xs ys zs)

-- Entries in key order, from a key on.
abbrev pub IsSorted : Bytes → List (Bytes × Bytes) → Type 0
IsSorted low [] = Unit
IsSorted low ((key, value) ∷ rest) = (at_most low key ≡ true) × IsSorted key rest

-- The documented behaviour of an iterator that does not fail: the entries of the column from a key on, in
-- key order.
pub record IteratorLaws (r : Rocks) (laws : RocksLaws r)
    (iterator_cf : r.Db → Column → Bytes → List (Result DbError (Bytes × Bytes))) : Type 0 where
  pub entries : r.Db → Column → Bytes → List (Bytes × Bytes)
  pub iterates :
      (s : r.Db) (c : Column) (low : Bytes) → iterator_cf s c low ≡ list_map ok (entries s c low)
  pub sorted : (s : r.Db) (c : Column) (low : Bytes) → IsSorted low (entries s c low)
  pub complete :
      (s : r.Db) (c : Column) (low key : Bytes)
      → at_most low key ≡ true
      → lookup key (entries s c low) ≡ laws.contents s c key

unequal :
    (p key k : Bytes) → starts_with p key ≡ false → starts_with p k ≡ true → (key == k) ≡ false
unequal p key k lacks has = elim (Bool-cases (key == k)) [
  | inl h ↦ cc (ap (starts_with p) ((list_beq_iff key k).0 h))
  | inr h ↦ h
]

lacks_after :
    (p low key : Bytes)
    → at_most low key ≡ true
    → at_most p low ≡ true
    → starts_with p low ≡ false
    → starts_with p key ≡ false
lacks_after p low key after above past = elim (Bool-cases (starts_with p key)) [
  | inl h ↦ cc (between p low key above after h)
  | inr h ↦ h
]

-- From a key without the prefix on, no entry has it.
lookup-past :
    (p key k value : Bytes) (rest : List (Bytes × Bytes))
    → IsSorted key rest
    → at_most p key ≡ true
    → starts_with p key ≡ false
    → starts_with p k ≡ true
    → lookup k ((key, value) ∷ rest) ≡ none
lookup-past p key k value [] sorted above lacks has = rw (unequal p key k lacks has) refl
lookup-past p key k value ((key', value') ∷ rest) sorted above lacks has =
    rw (unequal p key k lacks has) (
      lookup-past p key' k value' rest sorted.1 (at_most_trans p key key' above sorted.0)
        (lacks_after p key key' sorted.0 above lacks) has)

abbrev listed : Bytes → List (Bytes × Bytes) → Bool
listed k entries = is_some (lookup k entries)

listed-cons :
    (k key value : Bytes) (rest : List (Bytes × Bytes))
    → listed k ((key, value) ∷ rest) ≡ (if key == k then true else listed k rest)
listed-cons k key value rest = elim (Bool-cases (key == k)) [
  | inl h ↦ rw h refl
  | inr h ↦ rw h refl
]

-- The cases of one step of the loop.
joined :
    (column key listed has : Bool) (old : Option Bytes)
    → (key ≡ true → has ≡ true)
    → (if column && listed && has then none else (if column && key then none else old))
      ≡ (if column && (if key then true else listed) && has then none else old)
joined true true true has old h = rw (h refl) refl
joined true true false has old h = rw (h refl) refl
joined true false listed has old h = refl
joined false key listed has old h = refl

unlisted :
    (column has : Bool) (old : Option Bytes) → old ≡ (if column && false && has then none else old)
unlisted true has old = refl
unlisted false has old = refl

unprefixed :
    (column listed : Bool) (old : Option Bytes)
    → old ≡ (if column && listed && false then none else old)
unprefixed true true old = refl
unprefixed true false old = refl
unprefixed false listed old = refl

-- What the loop deletes: the listed keys with the prefix.
written-deletions :
    (column c : Column) (p low k : Bytes) (entries : List (Bytes × Bytes)) (old : Option Bytes)
    → IsSorted low entries
    → at_most p low ≡ true
    → written (deletions column p (list_map ok entries)) c k old
      ≡ (if column == c && listed k entries && starts_with p k then none else old)
written-deletions column c p low k [] old sorted above = elim (Bool-cases (column == c)) [
  | inl h ↦ rw h refl
  | inr h ↦ rw h refl
]
written-deletions column c p low k ((key, value) ∷ rest) old sorted above =
    let above_key = at_most_trans p low key above sorted.0 in
    elim (Bool-cases (starts_with p key)) [
      | inl has ↦
          rw
            (
              has,
              written-deletions column c p key k rest
                  (if column == c && key == k then none else old) sorted.1 above_key,
              listed-cons k key value rest,
            )
            (joined (column == c) (key == k) (listed k rest) (starts_with p k) old
              (λ same. cc (has, ap (starts_with p) ((list_beq_iff key k).0 same))))
      | inr lacks ↦ elim (Bool-cases (starts_with p k)) [
        | inl here ↦
            rw (lacks, lookup-past p key k value rest sorted.1 above_key lacks here)
              (unlisted (column == c) (starts_with p k) old)
        | inr h ↦ rw (lacks, h) (unprefixed (column == c) (listed k ((key, value) ∷ rest)) old)
      ]
    ]

-- What the listing of a prefix holds.
lookup-entries_while :
    (p low k : Bytes) (entries : List (Bytes × Bytes))
    → IsSorted low entries
    → at_most p low ≡ true
    → lookup k (entries_while p (list_map ok entries))
      ≡ (if starts_with p k then lookup k entries else none)
lookup-entries_while p low k [] sorted above = elim (Bool-cases (starts_with p k)) [
  | inl h ↦ rw h refl
  | inr h ↦ rw h refl
]
lookup-entries_while p low k ((key, value) ∷ rest) sorted above =
    let above_key = at_most_trans p low key above sorted.0 in
    let ih = lookup-entries_while p key k rest sorted.1 above_key in
    elim (Bool-cases (starts_with p key)) [
      | inl has ↦ elim (Bool-cases (key == k)) [
        | inl same ↦
            let k_has : starts_with p k ≡ true =
              cc (has, ap (starts_with p) ((list_beq_iff key k).0 same)) in
            rw (has, same, k_has) refl
        | inr differs ↦ rw (has, differs) ih
      ]
      | inr lacks ↦ elim (Bool-cases (starts_with p k)) [
        | inl here ↦
            rw (lacks, here, lookup-past p key k value rest sorted.1 above_key lacks here) refl
        | inr h ↦ rw (lacks, h) refl
      ]
    ]

at_most_self : (p : Bytes) → at_most p p ≡ true
at_most_self [] = refl
at_most_self (b ∷ bs) = ground (arith, ==_iff b b, at_most_self bs)

-- Whether a key is listed does not matter: an unlisted one with the prefix has no value.
only_listed :
    (column listed has : Bool) (old : Option Bytes)
    → (column ≡ true → has ≡ true → is_some old ≡ listed)
    → (if column && listed && has then none else old) ≡ (if column && has then none else old)
only_listed true true has old h = refl
only_listed true false true none h = refl
only_listed true false true (some v) h = cc (h refl refl)
only_listed true false false old h = refl
only_listed false listed has old h = refl

db_of :
    (r : Rocks) (iterator_cf : r.Db → Column → Bytes → List (Result DbError (Bytes × Bytes)))
    → Result DbError (BonsaiDb r iterator_cf)
    → Result DbError r.Db
db_of r iterator_cf (ok s) = ok s.db
db_of r iterator_cf (err e) = err e

module _ (r : Rocks) (laws : RocksLaws r)
    (iterator_cf : r.Db → Column → Bytes → List (Result DbError (Bytes × Bytes)))
    (order : IteratorLaws r laws iterator_cf) where
  -- With an iterator in key order that does not fail, a `remove_by_prefix` that the database takes
  -- removes exactly the keys of the prefix's column that start with it; every other entry of every column stays.
  pub remove_by_prefix-contents :
      (s s' : BonsaiDb r iterator_cf) (prefix : DatabaseKey) (c : Column) (k : Bytes)
      → remove_by_prefix r iterator_cf s prefix ≡ ok s'
      → laws.contents s'.db c k ≡ (
          if map s.column_mapping prefix == c && starts_with (as_slice prefix) k
          then none
          else laws.contents s.db c k)
  unfolding remove_by_prefix write_batch db_of
  remove_by_prefix-contents s s' prefix c k done =
      let column = map s.column_mapping prefix in
      let p = as_slice prefix in
      let entries = order.entries s.db column p in
      let wrote =
        >>=-eq-ok (r.write s.db (deletions column p (iterator_cf s.db column p))) _ done in
      laws.writes s.db s'.db (deletions column p (iterator_cf s.db column p)) c k
        (wrote.1 ∙ ap (db_of r iterator_cf) wrote.2)
      ∙ rw
          (
            order.iterates s.db column p,
            written-deletions column c p p k entries (laws.contents s.db c k)
                (order.sorted s.db column p) (at_most_self p),
          )
          (only_listed (column == c) (listed k entries) (starts_with p k) (laws.contents s.db c k)
            (λ same has. ap is_some (
              ap (λ (t : Column). laws.contents s.db t k)
                (sym ((column_Eq.same_iff column c).0 same))
              ∙ sym (order.complete s.db column p k (at_most_from_prefix p k has)))))

  -- `get_by_prefix` lists every entry of the prefix's column whose key starts with the prefix, with its
  -- value, and no other key.
  pub get_by_prefix-lookup :
      (s : BonsaiDb r iterator_cf) (prefix : DatabaseKey) (k : Bytes)
      → lookup k (get_by_prefix r iterator_cf s prefix) ≡ (
          if starts_with (as_slice prefix) k
          then laws.contents s.db (map s.column_mapping prefix) k
          else none)
  unfolding get_by_prefix
  get_by_prefix-lookup s prefix k =
      let column = map s.column_mapping prefix in
      let p = as_slice prefix in
      rw
        (
          order.iterates s.db column p,
          lookup-entries_while p p k (order.entries s.db column p) (order.sorted s.db column p)
              (at_most_self p),
        )
        (elim (Bool-cases (starts_with p k)) [
          | inl has ↦ rw has (order.complete s.db column p k (at_most_from_prefix p k has))
          | inr h ↦ rw h refl
        ])
