-- ===== src/MappingSync/Consistent.antt =====
-- The mapping database stays consistent under the sync: crates/client/mapping-sync/src/sync_blocks.rs.
use mathlib.Core.List.{reverse}
use deoxys.Base.{
  ℕ, zero, suc, ◌≡◌, refl, Bool, true, false, Option, none, some, List, [], ◌∷◌, ◌++◌,
  ◌==◌ as nat_eq, arith, inl, inr, Bool-cases,
}
use deoxys.Base.Outcome.{Result, ok, err, map_err, Result-cases}
use deoxys.Base.Assoc.{Eq, ◌==◌}
use deoxys.Db.Rocks.{DbError, Rocks, RocksLaws}
use deoxys.Db.Mapping.{Codecs, MappingCommitment, is_synced, write_none, write_hashes}
use deoxys.Db.Mapping.Consistent.{IsConsistent, write_hashes-IsConsistent}
use deoxys.Db.Meta.{current_syncing_tips, write_current_syncing_tips}
use deoxys.DigestLog.{FindLogError, find_starknet_block}
use deoxys.MappingSync.Action.{SyncError, Action, pure, stored, writes, after}
use deoxys.MappingSync.Frame.{write_tips-IsConsistent, write_none-IsConsistent}
use deoxys.MappingSync.Step.{
  Header, Client, get_block_by_block_hash, commitment, write_block, sync_block, sync_genesis_block,
  fetch_header, find_operating, sync_header, sync_one_block, sync_rounds, sync_blocks, write_tips,
  from_tips, from_leaves, from_stored,
}

module _ {Db : Type 0} (P : Db → Type 0) where
  -- A call keeps an invariant of the store if each of its writes does.
  after-keeps :
      {A B : Type 0} (f : A → Action Db B) (x : Result SyncError A × Db)
      → P x.1
      → ((a : A) (s : Db) → P s → P (f a s).1)
      → P (after f x).1
  after-keeps f (ok a, s) h k = k a s h
  after-keeps f (err e, s) h k = h

  reads-keeps :
      {A B : Type 0} (x : Result SyncError A) (f : A → Action Db B) (s : Db)
      → P s
      → ((a : A) → x ≡ ok a → P (f a s).1)
      → P (after f (x, s)).1
  reads-keeps (ok a) f s h k = k a refl
  reads-keeps (err e) f s h k = h

  stored-keeps :
      (x : Result DbError Db) (s : Db) → P s → ((s' : Db) → x ≡ ok s' → P s') → P (stored x s).1
  stored-keeps (ok s') s h k = k s' refl
  stored-keeps (err e) s h k = h

module _ {H S I B F : Type 0} ⦃eh : Eq H⦄ ⦃es : Eq S⦄ (r : Rocks) (codecs : Codecs H S)
    (cache : Bool) (client : Client H S I B F) (laws : RocksLaws r) where
  abbrev Kept : r.Db → Type 0
  Kept = IsConsistent r codecs

  write_none-keeps : (h : H) (s : r.Db) → Kept s → Kept (writes (λ s. write_none r codecs s h) s).1
  write_none-keeps h s old =
      stored-keeps Kept (write_none r codecs s h) s old
        (λ s' e. write_none-IsConsistent r codecs laws s s' h e old)

  write_hashes-keeps :
      (c : MappingCommitment H S) (s : r.Db)
      → is_synced r codecs s c.block_hash ≡ ok false
      → Kept s
      → Kept (writes (λ s. write_hashes r codecs s cache c) s).1
  write_hashes-keeps c s fresh old =
      stored-keeps Kept (write_hashes r codecs s cache c) s old
        (λ s' e. write_hashes-IsConsistent r codecs laws s s' cache c old fresh e)

  write_tips-keeps :
      (tips : List H) (s : r.Db) → Kept s → Kept (write_tips r codecs cache client tips s).1
  write_tips-keeps tips s old =
      stored-keeps Kept (write_current_syncing_tips r codecs.hashes s tips) s old
        (λ s' e. write_tips-IsConsistent r codecs laws s s' tips e old)

  module _ (header : Header H I) (s : r.Db) (fresh : is_synced r codecs s header.hash ≡ ok false)
      (old : Kept s) where
    write_block-keeps :
        (b : B) (stored_block : Result SyncError B)
        → Kept (write_block r codecs cache client header b stored_block s).1
    unfolding write_block
    write_block-keeps b (err e) = write_none-keeps header.hash s old
    write_block-keeps b (ok b') =
        elim (Bool-cases (client.starknet_hash b == client.starknet_hash b')) [
          | inl same ↦
              rw (same, write_block)
                (reads-keeps Kept (client.chain_id header.hash) _ s old (λ chain_id _.
                  write_hashes-keeps
                    (commitment r codecs cache client header b
                      (client.transaction_hashes b chain_id))
                    s fresh old))
          | inr differs ↦ rw (differs, write_block) old
        ]

    sync_block-keeps : Kept (sync_block r codecs cache client header s).1
    unfolding sync_block
    sync_block-keeps = elim (Result-cases (find_starknet_block client.try_to header.digest)) [
      | inl (b, digest) ↦
          rw (digest, sync_block) (write_block-keeps b (get_block_by_block_hash client header.hash))
      | inr (FindLogError.not_log, digest) ↦
          rw (digest, sync_block) (write_none-keeps header.hash s old)
      | inr (FindLogError.multiple_logs, digest) ↦ rw (digest, sync_block) old
    ]

    sync_genesis_block-keeps : Kept (sync_genesis_block r codecs cache client header s).1
    unfolding sync_genesis_block
    sync_genesis_block-keeps =
        elim (Result-cases (find_starknet_block client.try_to header.digest)) [
          | inl (b, digest) ↦
              rw (digest, sync_genesis_block)
                (write_hashes-keeps (commitment r codecs cache client header b []) s fresh old)
          | inr (FindLogError.not_log, digest) ↦
              rw (digest, sync_genesis_block) (write_none-keeps header.hash s old)
          | inr (FindLogError.multiple_logs, digest) ↦ rw (digest, sync_genesis_block) old
        ]

  finish-keeps :
      (tips : List H) (found : Bool) (x : Result SyncError (Unit {0}) × r.Db)
      → Kept x.1
      → Kept (after (λ _ s. after (λ _. pure found) (write_tips r codecs cache client tips s)) x).1
  finish-keeps tips found x h =
      after-keeps Kept _ x h
        (λ _ s old. after-keeps Kept (λ _. pure found) _ (write_tips-keeps tips s old) (λ _ _ k. k))

  -- The chosen header is of a block that is not synced.
  abbrev IsFresh : r.Db → Option (Header H I) → Type 0
  IsFresh s none = Unit
  IsFresh s (some header) = is_synced r codecs s header.hash ≡ ok false

  sync_header-keeps :
      (chosen : Option (Header H I)) (tips : List H) (s : r.Db)
      → IsFresh s chosen
      → Kept s
      → Kept (sync_header r codecs cache client (chosen, tips) s).1
  unfolding sync_header
  sync_header-keeps none tips s fresh old = finish-keeps (reverse tips) false (ok tt, s) old
  sync_header-keeps (some header) tips s fresh old = elim (Bool-cases (nat_eq header.number 0)) [
    | inl genesis ↦
        rw (genesis, sync_header)
          (finish-keeps (reverse tips) true _ (sync_genesis_block-keeps header s fresh old))
    | inr other ↦
        rw (other, sync_header)
          (finish-keeps (reverse tips ++ header.parent_hash ∷ []) true _
            (sync_block-keeps header s fresh old))
  ]

  module _
      (own_hash : (h : H) (header : Header H I)
        → client.header h ≡ ok (some header)
        → header.hash ≡ h) where
    fetch_header-IsFresh :
        (s : r.Db) (sync_from : ℕ) (tip : H) (header : Header H I)
        → fetch_header r codecs cache client s sync_from tip ≡ ok (some header)
        → is_synced r codecs s header.hash ≡ ok false
    unfolding fetch_header
    fetch_header-IsFresh s sync_from tip header e = ground (arith, own_hash tip header)

    find_operating-IsFresh :
        (s : r.Db) (sync_from : ℕ) (tips : List H) (header : Header H I) (left : List H)
        → find_operating r codecs cache client s sync_from tips ≡ ok (some header, left)
        → is_synced r codecs s header.hash ≡ ok false
    unfolding find_operating
    find_operating-IsFresh s sync_from [] header left e = ground arith
    find_operating-IsFresh s sync_from (tip ∷ tips) header left e = ground (
      arith,
      find_operating-IsFresh s sync_from tips header left,
      fetch_header-IsFresh s sync_from tip header,
    )

    chosen-IsFresh :
        (s : r.Db) (sync_from : ℕ) (tips : List H) (chosen : Option (Header H I)) (left : List H)
        → find_operating r codecs cache client s sync_from tips ≡ ok (chosen, left)
        → IsFresh s chosen
    chosen-IsFresh s sync_from tips none left e = tt
    chosen-IsFresh s sync_from tips (some header) left e =
        find_operating-IsFresh s sync_from tips header left e

    from_tips-keeps :
        (sync_from : ℕ) (tips : List H) (s : r.Db)
        → Kept s
        → Kept (from_tips r codecs cache client sync_from tips s).1
    from_tips-keeps sync_from tips s old =
        reads-keeps Kept (find_operating r codecs cache client s sync_from (reverse tips)) _ s old
          (λ chosen e.
            sync_header-keeps chosen.0 chosen.1 s
              (chosen-IsFresh s sync_from (reverse tips) chosen.0 chosen.1 e) old)

    from_leaves-keeps :
        (sync_from : ℕ) (leaves : List H) (s : r.Db)
        → Kept s
        → Kept (from_leaves r codecs cache client sync_from leaves s).1
    from_leaves-keeps sync_from [] s old = old
    from_leaves-keeps sync_from (leaf ∷ leaves) s old =
        from_tips-keeps sync_from (leaf ∷ leaves) s old

    from_stored-keeps :
        (sync_from : ℕ) (tips : List H) (s : r.Db)
        → Kept s
        → Kept (from_stored r codecs cache client sync_from tips s).1
    from_stored-keeps sync_from (tip ∷ tips) s old = from_tips-keeps sync_from (tip ∷ tips) s old
    from_stored-keeps sync_from [] s old =
        reads-keeps Kept client.leaves (from_leaves r codecs cache client sync_from) s old
          (λ leaves _. from_leaves-keeps sync_from leaves s old)

    sync_one_block-keeps :
        (sync_from : ℕ) (s : r.Db)
        → Kept s
        → Kept (sync_one_block r codecs cache client sync_from s).1
    unfolding sync_one_block
    sync_one_block-keeps sync_from s old =
        reads-keeps Kept (map_err SyncError.db_error (current_syncing_tips r codecs.hashes s)) _ s
          old (λ tips _. from_stored-keeps sync_from tips s old)

    rounds-keeps :
        (sync_from limit : ℕ) (synced : Bool) (s : r.Db)
        → Kept s
        → Kept (sync_rounds r codecs cache client sync_from limit synced s).1
    unfolding sync_rounds
    rounds-keeps sync_from zero synced s old = old
    rounds-keeps sync_from (suc limit) true s old = rounds-keeps sync_from limit true s old
    rounds-keeps sync_from (suc limit) false s old =
        after-keeps Kept _ _ (sync_one_block-keeps sync_from s old)
          (λ synced s' kept. rounds-keeps sync_from limit synced s' kept)

    -- On a client whose headers carry their own hash, and over a store that keeps what is written, a sync
    -- keeps the mapping database consistent, also when it fails on the way.
    pub sync_blocks-IsConsistent :
        (limit sync_from : ℕ) (s : r.Db)
        → IsConsistent r codecs s
        → IsConsistent r codecs (sync_blocks r codecs cache client limit sync_from s).1
    unfolding sync_blocks
    sync_blocks-IsConsistent limit sync_from s old = rounds-keeps sync_from limit false s old
