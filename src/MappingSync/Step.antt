-- ===== src/MappingSync/Step.antt =====
-- crates/client/mapping-sync/src/sync_blocks.rs: how one Substrate block is written to the mapping
-- database, and how the next block is chosen.
use mathlib.Core.List.{reverse}
use deoxys.Base.{
  ℕ, zero, suc, Bool, true, false, Option, none, some, List, [], ◌∷◌, ◌++◌, leb, ◌==◌ as nat_eq,
  if◌then◌else◌,
}
use deoxys.Base.Outcome.{Result, ok, err, map_err}
use deoxys.Base.Assoc.{Eq, ◌==◌}
use deoxys.Db.Rocks.{Rocks}
use deoxys.Db.Mapping.{Codecs, MappingCommitment, is_synced, write_none, write_hashes}
use deoxys.Db.Meta.{current_syncing_tips, write_current_syncing_tips}
use deoxys.DigestLog.{FindLogError, Log, find_starknet_block}
use deoxys.MappingSync.Action.{
  SyncError, hash_mismatch, multiple_logs, header_not_found, db_error, Action, pure, raise, reads,
  writes, ◌>>=◌, ◌>>◌,
}

pub record Header (H I : Type 0) : Type 0 where
  pub hash : H
  pub parent_hash : H
  pub number : ℕ
  pub digest : List I

-- The Substrate client and backend, and the Starknet blocks `B` that the digests hold: their number,
-- hash, and the hashes of their transactions on a chain `F`.
pub record Client (H S I B F : Type 0) : Type 0 where
  pub try_to : I → Option (Log B)
  pub header : H → Result SyncError (Option (Header H I))
  pub leaves : Result SyncError (List H)
  pub chain_id : H → Result SyncError F
  pub block_number : B → ℕ
  pub starknet_hash : B → S
  pub transaction_hashes : B → F → List S

module _ {H S I B F : Type 0} (client : Client H S I B F) where
  -- crates/client/rpc/src/utils.rs: the block in the digest of the header that the client has.
  unfoldable pub get_block_by_block_hash : H → Result SyncError B
  get_block_by_block_hash h = elim (client.header h) [
    | ok (some header) ↦
        map_err (λ _. header_not_found) (find_starknet_block client.try_to header.digest)
    | ok none ↦ err header_not_found
    | err e ↦ err header_not_found
  ]

module _ {H S I B F : Type 0} ⦃es : Eq S⦄ (r : Rocks) (codecs : Codecs H S) (cache : Bool)
    (client : Client H S I B F) where
  abbrev pub commitment : Header H I → B → List S → MappingCommitment H S
  commitment header b txs = record {
    block_number = client.block_number b;
    block_hash = header.hash;
    starknet_block_hash = client.starknet_hash b;
    starknet_transaction_hashes = txs;
  }

  -- The block of the digest against the one that the client reads: equal hashes are written, and
  -- where the client has none the Substrate block is marked alone.
  unfoldable pub write_block : Header H I → B → Result SyncError B → Action r.Db (Unit {0})
  write_block header b (err e) = writes (λ s. write_none r codecs s header.hash)
  write_block header b (ok b') =
      if client.starknet_hash b == client.starknet_hash b'
      then (do
        chain_id ← reads (λ _. client.chain_id header.hash)
        writes (λ s.
            write_hashes r codecs s cache
              (commitment header b (client.transaction_hashes b chain_id))))
      else raise hash_mismatch

  unfoldable pub sync_block : Header H I → Action r.Db (Unit {0})
  unfolding write_block
  sync_block header = elim (find_starknet_block client.try_to header.digest) [
    | ok b ↦ write_block header b (get_block_by_block_hash client header.hash)
    | err FindLogError.not_log ↦ writes (λ s. write_none r codecs s header.hash)
    | err FindLogError.multiple_logs ↦ raise multiple_logs
  ]

  -- The genesis block is written with no transactions.
  unfoldable pub sync_genesis_block : Header H I → Action r.Db (Unit {0})
  sync_genesis_block header = elim (find_starknet_block client.try_to header.digest) [
    | ok b ↦ writes (λ s. write_hashes r codecs s cache (commitment header b []))
    | err FindLogError.not_log ↦ writes (λ s. write_none r codecs s header.hash)
    | err FindLogError.multiple_logs ↦ raise multiple_logs
  ]

  abbrev pub not_before : ℕ → Option (Header H I) → Result SyncError (Option (Header H I))
  not_before sync_from none = err header_not_found
  not_before sync_from (some header) =
      ok (if leb sync_from header.number then some header else none)

  -- A block that is not synced and not below `sync_from`.
  unfoldable pub fetch_header : r.Db → ℕ → H → Result SyncError (Option (Header H I))
  fetch_header s sync_from tip = elim (is_synced r codecs s tip) [
    | err e ↦ err (db_error e)
    | ok true ↦ ok none
    | ok false ↦ elim (client.header tip) [
      | err e ↦ err header_not_found
      | ok found ↦ not_before sync_from found
    ]
  ]

  -- `while let Some(checking_tip) = current_syncing_tips.pop()`, over the tips from the last one on.
  -- Gives the header to work on and the tips that are left, in the same order.
  unfoldable pub find_operating :
      r.Db → ℕ → List H → Result SyncError (Option (Header H I) × List H)
  find_operating s sync_from [] = ok (none, [])
  find_operating s sync_from (tip ∷ tips) =
      let rest = find_operating s sync_from tips in
      elim (fetch_header s sync_from tip) [
        | err e ↦ err e
        | ok none ↦ rest
        | ok (some header) ↦ ok (some header, tips)
      ]

  abbrev pub write_tips : List H → Action r.Db (Unit {0})
  write_tips tips = writes (λ s. write_current_syncing_tips r codecs.hashes s tips)

  -- The rest of `sync_one_block` once the header is chosen; `tips` are those left, the last first.
  unfoldable pub sync_header : Option (Header H I) × List H → Action r.Db Bool
  unfolding sync_genesis_block sync_block
  sync_header (none, tips) = do write_tips (reverse tips); pure false
  sync_header (some header, tips) =
      if nat_eq header.number 0
      then (do sync_genesis_block header; write_tips (reverse tips); pure true)
      else (do sync_block header; write_tips (reverse tips ++ header.parent_hash ∷ []); pure true)

  abbrev pub from_tips : ℕ → List H → Action r.Db Bool
  from_tips sync_from tips = reads (λ s. find_operating s sync_from (reverse tips)) >>= sync_header

  abbrev pub from_leaves : ℕ → List H → Action r.Db Bool
  from_leaves sync_from [] = pure false
  from_leaves sync_from (leaf ∷ leaves) = from_tips sync_from (leaf ∷ leaves)

  abbrev pub from_stored : ℕ → List H → Action r.Db Bool
  from_stored sync_from [] = reads (λ _. client.leaves) >>= from_leaves sync_from
  from_stored sync_from (tip ∷ tips) = from_tips sync_from (tip ∷ tips)

  unfoldable pub sync_one_block : ℕ → Action r.Db Bool
  unfolding sync_header find_operating
  sync_one_block sync_from =
      reads (λ s. map_err db_error (current_syncing_tips r codecs.hashes s))
      >>= from_stored sync_from

  -- `for _ in 0..limit { synced_any = synced_any || sync_one_block(..)?; }`
  unfoldable pub sync_rounds : ℕ → ℕ → Bool → Action r.Db Bool
  sync_rounds sync_from zero synced_any = pure synced_any
  sync_rounds sync_from (suc limit) true = sync_rounds sync_from limit true
  sync_rounds sync_from (suc limit) false = do
    synced ← sync_one_block sync_from
    sync_rounds sync_from limit synced

  unfoldable pub sync_blocks : ℕ → ℕ → Action r.Db Bool
  unfolding sync_rounds
  sync_blocks limit sync_from = sync_rounds sync_from limit false
