-- ===== src/MappingSync/Sync.antt =====
-- What a round of the mapping sync writes: crates/client/mapping-sync/src/sync_blocks.rs.
use deoxys.Base.{ℕ, zero, suc, ◌≡◌, refl, ◌∙◌, Bool, true, some, inl, inr}
use deoxys.Base.Outcome.{ok, err, Result-cases}
use deoxys.Base.Assoc.{Eq, ==_self}
use deoxys.Db.Rocks.{Rocks}
use deoxys.Db.Mapping.{Codecs, write_none, write_hashes}
use deoxys.DigestLog.{FindLogError, find_starknet_block}
use deoxys.MappingSync.Action.{multiple_logs, Action, raise, reads, writes, ◌>>=◌, >>=-ok}
use deoxys.MappingSync.Step.{
  Header, Client, get_block_by_block_hash, commitment, write_block, sync_block, sync_one_block,
  sync_rounds, sync_blocks,
}

module _ {H S I B F : Type 0} ⦃es : Eq S⦄ (r : Rocks) (codecs : Codecs H S) (cache : Bool)
    (client : Client H S I B F) where
  -- The block with its transactions' hashes on the chain that the runtime names.
  abbrev pub write_digest_block : Header H I → B → Action r.Db (Unit {0})
  write_digest_block header b = do
    chain_id ← reads (λ _. client.chain_id header.hash)
    writes (λ s.
        write_hashes r codecs s cache
          (commitment r codecs cache client header b (client.transaction_hashes b chain_id)))

  -- What the digest alone says to write.
  abbrev pub sync_digest : Header H I → Action r.Db (Unit {0})
  sync_digest header = elim (find_starknet_block client.try_to header.digest) [
    | ok b ↦ write_digest_block header b
    | err FindLogError.not_log ↦ writes (λ s. write_none r codecs s header.hash)
    | err FindLogError.multiple_logs ↦ raise multiple_logs
  ]

  get_block_by_block_hash-found :
      (header : Header H I) (b : B)
      → client.header header.hash ≡ ok (some header)
      → find_starknet_block client.try_to header.digest ≡ ok b
      → get_block_by_block_hash client header.hash ≡ ok b
  unfolding get_block_by_block_hash
  get_block_by_block_hash-found header b found digest = rw (found, get_block_by_block_hash, digest)

  write_block-same :
      (header : Header H I) (b : B)
      → write_block r codecs cache client header b (ok b) ≡ write_digest_block header b
  unfolding write_block
  write_block-same header b = rw (==_self (client.starknet_hash b))

  -- Where the client reads back the header that is synced, the block it is compared with comes from
  -- that header's digest too: the comparison is of the block with itself, and a header's sync does what
  -- the digest alone says.
  pub sync_block_digest :
      (header : Header H I) (s : r.Db)
      → client.header header.hash ≡ ok (some header)
      → sync_block r codecs cache client header s ≡ sync_digest header s
  unfolding sync_block
  sync_block_digest header s found =
      elim (Result-cases (find_starknet_block client.try_to header.digest)) [
        | inl (b, digest) ↦ rw (
          digest,
          sync_block,
          sync_digest,
          get_block_by_block_hash-found header b found digest,
          write_block-same header b,
        )
        | inr (FindLogError.not_log, digest) ↦ rw (digest, sync_block, sync_digest)
        | inr (FindLogError.multiple_logs, digest) ↦ rw (digest, sync_block, sync_digest)
      ]

  rounds-done :
      (sync_from limit : ℕ) (s : r.Db)
      → sync_rounds r codecs cache client sync_from limit true s ≡ (ok true, s)
  unfolding sync_rounds
  rounds-done sync_from zero s = refl
  rounds-done sync_from (suc limit) s = rounds-done sync_from limit s

  -- After the first round that syncs a block nothing more is done: whatever the limit, a call that
  -- starts with such a round syncs that block only.
  pub sync_blocks-one_block :
      (sync_from limit : ℕ) (s s' : r.Db)
      → sync_one_block r codecs cache client sync_from s ≡ (ok true, s')
      → sync_blocks r codecs cache client (suc limit) sync_from s ≡ (ok true, s')
  unfolding sync_blocks sync_rounds
  sync_blocks-one_block sync_from limit s s' round =
      >>=-ok (sync_one_block r codecs cache client sync_from)
        (sync_rounds r codecs cache client sync_from limit) s s' true round
      ∙ rounds-done sync_from limit s'
