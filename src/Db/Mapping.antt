-- ===== src/Db/Mapping.antt =====
-- The mapping database (crates/client/db/src/mapping_db.rs): which Substrate blocks were seen, and
-- which of them wraps a Starknet block or a transaction. `H` are Substrate hashes, `S` Starknet's.
pub mod Views
pub mod Consistent
use deoxys.Base.{ℕ, Bool, true, false, Option, none, some, List, [], ◌∷◌, ◌++◌, map, if◌then◌else◌}
use deoxys.Base.Outcome.{Result, ok, err, ◌>>=◌}
use deoxys.Db.Column.{
  Column, block_mapping, transaction_mapping, synced_mapping, starknet_transaction_hashes_cache,
  starknet_block_hashes_cache,
}
use deoxys.Db.Rocks.{Bytes, DbError, Write, put, Rocks, put_cf, Codec}

pub record Codecs (H S : Type 0) : Type 0 where
  pub hash : Codec H
  pub hashes : Codec (List H)
  pub stark : Codec S
  pub starks : Codec (List S)
  pub number : Codec ℕ
  pub flag : Codec Bool

pub record MappingCommitment (H S : Type 0) : Type 0 where
  pub block_number : ℕ
  pub block_hash : H
  pub starknet_block_hash : S
  pub starknet_transaction_hashes : List S

-- `Some(raw) => Ok(Some(T::decode(raw)?)), None => Ok(None)`
abbrev pub decoded : {A : Type 0} → Codec A → Option Bytes → Result DbError (Option A)
decoded c none = ok none
decoded c (some raw) = c.decode raw >>= λ a. ok (some a)

-- `Ok(Some(mut data)) => data.push(hash), _ => vec![hash]`
abbrev pub push_hash : {H : Type 0} → Result DbError (Option (List H)) → H → List H
push_hash (ok (some hashes)) h = hashes ++ h ∷ []
push_hash (ok none) h = h ∷ []
push_hash (err e) h = h ∷ []

module _ {H S : Type 0} (r : Rocks) (codecs : Codecs H S) where
  -- `MappingDb` holds the store and this flag.
  pub record MappingDb : Type 0 where
    pub db : r.Db
    pub cache_more_things : Bool

module _ {H S : Type 0} (r : Rocks) (codecs : Codecs H S) where
  unfoldable pub is_synced : r.Db → H → Result DbError Bool
  is_synced s h = do
    found ← r.get_cf s synced_mapping (codecs.hash.encode h)
    elim found [ none ↦ ok false | some raw ↦ codecs.flag.decode raw ]

  unfoldable pub block_hash : r.Db → S → Result DbError (Option (List H))
  block_hash s sh = do
    found ← r.get_cf s block_mapping (codecs.stark.encode sh)
    decoded codecs.hashes found

  unfoldable pub write_none : r.Db → H → Result DbError r.Db
  write_none s h = put_cf r s synced_mapping (codecs.hash.encode h) (codecs.flag.encode true)

  -- The entries of a commitment's transactions.
  unfoldable pub transaction_writes : H → List S → List Write
  transaction_writes h [] = []
  transaction_writes h (t ∷ ts) =
      put transaction_mapping (codecs.stark.encode t) (codecs.hash.encode h)
      ∷ transaction_writes h ts

  unfoldable pub cache_writes : Bool → MappingCommitment H S → List Write
  cache_writes false c = []
  cache_writes true c =
      put starknet_transaction_hashes_cache (codecs.stark.encode c.starknet_block_hash)
        (codecs.starks.encode c.starknet_transaction_hashes)
      ∷ put starknet_block_hashes_cache (codecs.number.encode c.block_number)
          (codecs.stark.encode c.starknet_block_hash)
      ∷ []

  -- The batch: the hashes of the Starknet block with the new one at the end, the mark of the
  -- Substrate block, the transactions, and the caches where they are on.
  unfoldable pub commitment_writes : r.Db → Bool → MappingCommitment H S → List Write
  unfolding block_hash transaction_writes cache_writes
  commitment_writes s cache c =
      put block_mapping (codecs.stark.encode c.starknet_block_hash)
        (codecs.hashes.encode (push_hash (block_hash s c.starknet_block_hash) c.block_hash))
      ∷ put synced_mapping (codecs.hash.encode c.block_hash) (codecs.flag.encode true)
      ∷ (transaction_writes c.block_hash c.starknet_transaction_hashes ++ cache_writes cache c)

  unfoldable pub write_hashes : r.Db → Bool → MappingCommitment H S → Result DbError r.Db
  unfolding commitment_writes
  write_hashes s cache c = r.write s (commitment_writes s cache c)

  unfoldable pub block_hash_from_transaction_hash : r.Db → S → Result DbError (Option H)
  block_hash_from_transaction_hash s t = do
    found ← r.get_cf s transaction_mapping (codecs.stark.encode t)
    decoded codecs.hash found

  unfoldable pub cached_transaction_hashes_from_block_hash :
      r.Db → Bool → S → Result DbError (Option (List S))
  cached_transaction_hashes_from_block_hash s cache sh = elim cache [
    | false ↦ ok none
    | true ↦ do
      found ← r.get_cf s starknet_transaction_hashes_cache (codecs.stark.encode sh)
      decoded codecs.starks found
  ]

  unfoldable pub cached_block_hash_from_block_number : r.Db → Bool → ℕ → Result DbError (Option S)
  cached_block_hash_from_block_number s cache n = elim cache [
    | false ↦ ok none
    | true ↦ do
      found ← r.get_cf s starknet_block_hashes_cache (codecs.number.encode n)
      decoded codecs.stark found
  ]
