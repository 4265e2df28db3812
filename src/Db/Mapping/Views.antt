-- ===== src/Db/Mapping/Views.antt =====
-- What the mapping database answers after a write (crates/client/db/src/mapping_db.rs).
use deoxys.Base.{
  ◌≡◌, refl, sym, ap, ◌∙◌, Bool, true, false, ◌&&◌, ◌||◌, Option, none, some, List, [], ◌∷◌, ◌++◌,
  arith, if◌then◌else◌,
}
use deoxys.Base.Outcome.{Result, ok, err}
use deoxys.Base.Assoc.{Eq, ◌==◌, list_Eq, nat_Eq}
use deoxys.Db.Column.{
  Column, column_Eq, block_mapping, transaction_mapping, synced_mapping,
  starknet_transaction_hashes_cache, starknet_block_hashes_cache,
}
use deoxys.Db.Rocks.{
  Bytes, DbError, Rocks, RocksLaws, written, written-append, Codec, DbError, encode_eq,
}
use deoxys.Db.Mapping.{
  Codecs, MappingCommitment, decoded, push_hash, is_synced, block_hash, transaction_writes,
  cache_writes, commitment_writes, write_hashes, block_hash_from_transaction_hash,
}

-- The hashes that a Starknet block mapped to: none where nothing or nothing readable was stored.
abbrev pub earlier : {H : Type 0} → Result DbError (Option (List H)) → List H
earlier (ok (some hashes)) = hashes
earlier (ok none) = []
earlier (err e) = []

pub push_hash-earlier :
    {H : Type 0} (before : Result DbError (Option (List H))) (h : H)
    → push_hash before h ≡ earlier before ++ h ∷ []
push_hash-earlier (ok (some hashes)) h = refl
push_hash-earlier (ok none) h = refl
push_hash-earlier (err e) h = refl

abbrev pub elem : {A : Type 0} ⦃e : Eq A⦄ → A → List A → Bool
elem a [] = false
elem a (x ∷ xs) = x == a || elem a xs

decoded-if :
    {A : Type 0} (codec : Codec A) (b : Bool) (x : A) (old : Option Bytes)
    → decoded codec (if b then some (codec.encode x) else old)
      ≡ (if b then ok (some x) else decoded codec old)
decoded-if codec true x old = rw (codec.decode-encode x)
decoded-if codec false x old = refl

module _ {H S : Type 0} ⦃eh : Eq H⦄ ⦃es : Eq S⦄ (r : Rocks) (codecs : Codecs H S) where
  -- The transactions' part of the batch changes nothing but their own entries.
  written-transaction_writes :
      (h : H) (ts : List S) (t : S) (old : Option Bytes)
      → written (transaction_writes r codecs h ts) transaction_mapping (codecs.stark.encode t) old
        ≡ (if elem t ts then some (codecs.hash.encode h) else old)
  unfolding transaction_writes
  written-transaction_writes h [] t old = refl
  written-transaction_writes h (u ∷ ts) t old = ground (
    arith,
    encode_eq codecs.stark u t,
    written-transaction_writes h ts t old,
    written-transaction_writes h ts t (some (codecs.hash.encode h)),
  )

  written-transaction_writes_other :
      (h : H) (ts : List S) (c : Column) (k : Bytes) (old : Option Bytes)
      → (transaction_mapping == c) ≡ false
      → written (transaction_writes r codecs h ts) c k old ≡ old
  unfolding transaction_writes
  written-transaction_writes_other h [] c k old ne = refl
  written-transaction_writes_other h (t ∷ ts) c k old ne =
      rw (ne, written) (written-transaction_writes_other h ts c k old ne)

  cache_writes_other :
      (cache : Bool) (c : MappingCommitment H S) (col : Column) (k : Bytes) (old : Option Bytes)
      → (starknet_transaction_hashes_cache == col) ≡ false
      → (starknet_block_hashes_cache == col) ≡ false
      → written (cache_writes r codecs cache c) col k old ≡ old
  unfolding cache_writes
  cache_writes_other false c col k old n₁ n₂ = refl
  cache_writes_other true c col k old n₁ n₂ = rw (n₁, n₂)

  abbrev pub flag_or : Option Bytes → Result DbError Bool
  flag_or none = ok false
  flag_or (some raw) = codecs.flag.decode raw

  pub flag_or-if :
      (b : Bool) (old : Option Bytes)
      → flag_or (if b then some (codecs.flag.encode true) else old)
        ≡ (if b then ok true else flag_or old)
  flag_or-if true old = codecs.flag.decode-encode true
  flag_or-if false old = refl

  -- The answers, by what the store holds.
  module _ (laws : RocksLaws r) where
    pub is_synced-contents :
        (s : r.Db) (h : H)
        → is_synced r codecs s h ≡ flag_or (laws.contents s synced_mapping (codecs.hash.encode h))
    unfolding is_synced
    is_synced-contents s h = rw (laws.reads s synced_mapping (codecs.hash.encode h)) (ground arith)

    pub block_hash-contents :
        (s : r.Db) (sh : S)
        → block_hash r codecs s sh
          ≡ decoded codecs.hashes (laws.contents s block_mapping (codecs.stark.encode sh))
    unfolding block_hash
    block_hash-contents s sh = rw (laws.reads s block_mapping (codecs.stark.encode sh))

    pub transaction-contents :
        (s : r.Db) (t : S)
        → block_hash_from_transaction_hash r codecs s t
          ≡ decoded codecs.hash (laws.contents s transaction_mapping (codecs.stark.encode t))
    unfolding block_hash_from_transaction_hash
    transaction-contents s t = rw (laws.reads s transaction_mapping (codecs.stark.encode t))

  module _ (laws : RocksLaws r) (s s' : r.Db) (cache : Bool) (c : MappingCommitment H S)
      (e : write_hashes r codecs s cache c ≡ ok s') where
    -- What the batch makes of an entry.
    contents-write_hashes :
        (col : Column) (k : Bytes)
        → laws.contents s' col k
          ≡ written (cache_writes r codecs cache c) col k (
              written
                (transaction_writes r codecs c.block_hash c.starknet_transaction_hashes)
                col
                k
                (if synced_mapping == col && codecs.hash.encode c.block_hash == k
                  then some (codecs.flag.encode true)
                  else if block_mapping == col && codecs.stark.encode c.starknet_block_hash == k
                  then some (
                      codecs.hashes.encode
                        (push_hash (block_hash r codecs s c.starknet_block_hash) c.block_hash))
                  else laws.contents s col k))
    unfolding write_hashes
    contents-write_hashes col k =
        laws.writes s s' (commitment_writes r codecs s cache c) col k e
        ∙ written-append (transaction_writes r codecs c.block_hash c.starknet_transaction_hashes)
            (cache_writes r codecs cache c) col k _

    contents-synced :
        (h : H)
        → laws.contents s' synced_mapping (codecs.hash.encode h) ≡ (
            if c.block_hash == h
            then some (codecs.flag.encode true)
            else laws.contents s synced_mapping (codecs.hash.encode h))
    contents-synced h =
        contents-write_hashes synced_mapping (codecs.hash.encode h)
        ∙ cache_writes_other cache c synced_mapping _ _ refl refl
        ∙ written-transaction_writes_other c.block_hash c.starknet_transaction_hashes synced_mapping
            _ _ refl
        ∙ rw (encode_eq codecs.hash c.block_hash h)

    contents-block :
        (sh : S)
        → laws.contents s' block_mapping (codecs.stark.encode sh) ≡ (
            if c.starknet_block_hash == sh
            then some (
                codecs.hashes.encode
                  (push_hash (block_hash r codecs s c.starknet_block_hash) c.block_hash))
            else laws.contents s block_mapping (codecs.stark.encode sh))
    contents-block sh =
        contents-write_hashes block_mapping (codecs.stark.encode sh)
        ∙ cache_writes_other cache c block_mapping _ _ refl refl
        ∙ written-transaction_writes_other c.block_hash c.starknet_transaction_hashes block_mapping
            _ _ refl
        ∙ rw (encode_eq codecs.stark c.starknet_block_hash sh)

    contents-transaction :
        (t : S)
        → laws.contents s' transaction_mapping (codecs.stark.encode t) ≡ (
            if elem t c.starknet_transaction_hashes
            then some (codecs.hash.encode c.block_hash)
            else laws.contents s transaction_mapping (codecs.stark.encode t))
    contents-transaction t =
        contents-write_hashes transaction_mapping (codecs.stark.encode t)
        ∙ cache_writes_other cache c transaction_mapping _ _ refl refl
        ∙ written-transaction_writes c.block_hash c.starknet_transaction_hashes t _

    -- Over a store that keeps what is written, after the batch of a commitment its Substrate block
    -- is synced, its Starknet block maps to the hashes that it mapped to before, followed by the
    -- new one (the new one alone where no hashes could be read), its transactions map to the block,
    -- and what the database answers for every other block and transaction is as before.
    pub write_hashes_views :
        (h : H) (sh t : S)
        → (is_synced r codecs s' h
            ≡ (if c.block_hash == h then ok true else is_synced r codecs s h))
          × (block_hash r codecs s' sh ≡ (
              if c.starknet_block_hash == sh
              then ok (
                  some (earlier (block_hash r codecs s c.starknet_block_hash) ++ c.block_hash ∷ []))
              else block_hash r codecs s sh))
          × (block_hash_from_transaction_hash r codecs s' t ≡ (
              if elem t c.starknet_transaction_hashes
              then ok (some c.block_hash)
              else block_hash_from_transaction_hash r codecs s t))
    write_hashes_views h sh t = (
      is_synced-contents laws s' h
          ∙ ap flag_or (contents-synced h)
          ∙ flag_or-if (c.block_hash == h) (laws.contents s synced_mapping (codecs.hash.encode h))
          ∙ ap (λ (old : Result DbError Bool). if c.block_hash == h then ok true else old)
              (sym (is_synced-contents laws s h)),
      block_hash-contents laws s' sh
          ∙ ap (decoded codecs.hashes) (contents-block sh)
          ∙ decoded-if codecs.hashes (c.starknet_block_hash == sh) _ _
          ∙ ap
              (λ (old : Result DbError (Option (List H))).
                if c.starknet_block_hash == sh
                then ok
                    (some (push_hash (block_hash r codecs s c.starknet_block_hash) c.block_hash))
                else old)
              (sym (block_hash-contents laws s sh))
          ∙ ap
              (λ (hashes : List H).
                if c.starknet_block_hash == sh then ok (some hashes) else block_hash r codecs s sh)
              (push_hash-earlier (block_hash r codecs s c.starknet_block_hash) c.block_hash),
      transaction-contents laws s' t
          ∙ ap (decoded codecs.hash) (contents-transaction t)
          ∙ decoded-if codecs.hash (elem t c.starknet_transaction_hashes) _ _
          ∙ ap
              (λ (old : Result DbError (Option H)).
                if elem t c.starknet_transaction_hashes then ok (some c.block_hash) else old)
              (sym (transaction-contents laws s t)),
    )
