-- ===== src/Db/Rocks.antt =====
-- What the databases of crates/client/db use of other crates: the RocksDB store, by column and key
-- bytes, and SCALE codecs. Both are parameters; the laws that the theorems need are records of their
-- own.
use deoxys.Base.{
  ℕ, ◌≡◌, refl, ◌&&◌, Option, none, some, List, [], ◌∷◌, if◌then◌else◌, inl, inr, ap, ◌++◌,
  Bool-cases,
}
use deoxys.Base.Outcome.{Result, ok, err}
use deoxys.Base.Assoc.{Eq, nat_Eq, list_Eq, ◌==◌, list_beq_iff, ==_self}
use deoxys.Db.Column.{Column, column_Eq}

abbrev pub Bytes : Type 0
Bytes = List ℕ

-- `DbError` (crates/client/db/src/error.rs); the text that an error carries is its key's bytes.
pub data DbError : Type 0 where
  rocks_db deserialize_error uuid_error : DbError
  value_not_initialized : Column → Bytes → DbError

-- One write of a `WriteBatchWithTransaction`.
pub data Write : Type 0 where
  put : Column → Bytes → Bytes → Write
  delete : Column → Bytes → Write

-- The store. A failed call gives an error and leaves the store as it was.
pub record Rocks : Type 1 where
  pub Db : Type 0
  pub get_cf : Db → Column → Bytes → Result DbError (Option Bytes)
  pub write : Db → List Write → Result DbError Db

-- `put_cf` and `delete_cf` are batches of one write.
abbrev pub put_cf : (r : Rocks) → r.Db → Column → Bytes → Bytes → Result DbError r.Db
put_cf r s c k v = r.write s (put c k v ∷ [])

-- What a batch makes of one entry: its last write to it counts.
abbrev pub written : List Write → Column → Bytes → Option Bytes → Option Bytes
written [] c k old = old
written (put c' k' v ∷ ws) c k old = written ws c k (if c' == c && k' == k then some v else old)
written (delete c' k' ∷ ws) c k old = written ws c k (if c' == c && k' == k then none else old)

-- The documented behaviour of a store whose reads do not fail: what it holds is read, and a batch that
-- is written is there whole.
pub record RocksLaws (r : Rocks) : Type 0 where
  pub contents : r.Db → Column → Bytes → Option Bytes
  pub reads : (s : r.Db) (c : Column) (k : Bytes) → r.get_cf s c k ≡ ok (contents s c k)
  pub writes :
      (s s' : r.Db) (ws : List Write) (c : Column) (k : Bytes)
      → r.write s ws ≡ ok s'
      → contents s' c k ≡ written ws c k (contents s c k)

-- A codec, and its round trip.
pub record Codec (A : Type 0) : Type 0 where
  pub encode : A → Bytes
  pub decode : Bytes → Result DbError A
  pub decode-encode : (a : A) → decode (encode a) ≡ ok a

-- Distinct values have distinct encodings.
encode_injective : {A : Type 0} (c : Codec A) (a b : A) → c.encode a ≡ c.encode b → a ≡ b
encode_injective c a b h = cc (c.decode-encode a, c.decode-encode b, ap c.decode h)

pub encode_eq :
    {A : Type 0} ⦃e : Eq A⦄ (c : Codec A) (a b : A) → (c.encode a == c.encode b) ≡ (a == b)
encode_eq ⦃e⦄ c a b = elim (Bool-cases (e.same a b)) [
  | inl same ↦ rw (same, (e.same_iff a b).0 same) (==_self (c.encode b))
  | inr differs ↦ elim (Bool-cases (c.encode a == c.encode b)) [
    | inl h ↦
        cc (
          (e.same_iff a b).1
            (encode_injective c a b ((list_beq_iff (c.encode a) (c.encode b)).0 h)))
    | inr h ↦ rw (h, differs)
  ]
]

-- A store in memory: the function from columns and keys to values. Its writes never fail.
abbrev pub Memory : Rocks
Memory = record {
  Db = Column → Bytes → Option Bytes;
  get_cf = λ s c k. ok (s c k);
  write = λ s ws. ok (λ c k. written ws c k (s c k));
}

pub Memory_laws : RocksLaws Memory
Memory_laws = record {
  contents = λ s c k. s c k;
  reads = λ s c k. refl;
  writes = λ s s' ws c k h. cc (ap (at c k s) h);
}
  where
    at :
        Column
        → Bytes
        → (Column → Bytes → Option Bytes)
        → Result DbError (Column → Bytes → Option Bytes)
        → Option Bytes
    at c k s (ok s') = s' c k
    at c k s (err e) = s c k

-- Where a batch that is appended to another counts.
pub written-append :
    (ws vs : List Write) (c : Column) (k : Bytes) (old : Option Bytes)
    → written (ws ++ vs) c k old ≡ written vs c k (written ws c k old)
written-append [] vs c k old = refl
written-append (put c' k' v ∷ ws) vs c k old = written-append ws vs c k _
written-append (delete c' k' ∷ ws) vs c k old = written-append ws vs c k _
