-- ===== src/MappingSync/Tests.antt =====
-- The theorems on crates/client/mapping-sync at a small chain.
use deoxys.Base.{ℕ, suc, ◌≡◌, ◌≢◌, ◌+◌, ◌-◌, refl, Bool, true, false, some, [], ◌∷◌, leb}
use deoxys.Base.Outcome.{ok}
use deoxys.Base.Assoc.{nat_Eq}
use deoxys.Db.Rocks.{Memory, Memory_laws}
use deoxys.Db.Mapping.{is_synced, write_hashes}
use deoxys.Db.Mapping.Consistent.{IsConsistent}
use deoxys.Db.Meta.{current_syncing_tips, write_current_syncing_tips}
use deoxys.Db.Samples.{codecs, empty_db, empty_db-IsConsistent}
use deoxys.DigestLog.{block, find_starknet_block, find_log, find_from}
use deoxys.MappingSync.Action.{Action}
use deoxys.MappingSync.Step.{
  Header, Client, sync_block, sync_one_block, sync_header, find_operating, fetch_header,
  write_block, get_block_by_block_hash, sync_blocks,
}
use deoxys.MappingSync.Sync.{sync_digest, sync_block_digest, sync_blocks-one_block}
use deoxys.MappingSync.Consistent.{sync_blocks-IsConsistent}
use deoxys.MappingSync.Worker.{pending, MappingSyncWorker, Notifications, poll_next}

-- A chain on which the block of hash `h` has number `h` and wraps the Starknet block `h`.
abbrev header_of : ℕ → Header ℕ ℕ
header_of h = record { hash = h; parent_hash = h - 1; number = h; digest = h ∷ [] }

abbrev chain : Client ℕ ℕ ℕ ℕ ℕ
chain = record {
  try_to = λ item. some (block item);
  header = λ h. ok (some (header_of h));
  leaves = ok (2 ∷ []);
  chain_id = λ h. ok 5;
  block_number = λ b. b;
  starknet_hash = λ b. b + 10;
  transaction_hashes = λ b chain_id. (b + chain_id) ∷ [];
}

sync_block_digest_example :
    sync_block Memory codecs true chain (header_of 2) empty_db
    ≡ sync_digest Memory codecs true chain (header_of 2) empty_db
sync_block_digest_example = sync_block_digest Memory codecs true chain (header_of 2) empty_db refl

abbrev after_one : Memory.Db
after_one = (sync_one_block Memory codecs true chain 0 empty_db).1

first_round : sync_one_block Memory codecs true chain 0 empty_db ≡ (ok true, after_one)
unfolding sync_one_block sync_header find_operating fetch_header is_synced current_syncing_tips
    write_current_syncing_tips sync_block write_block get_block_by_block_hash find_starknet_block
    find_log find_from write_hashes
first_round = refl

sync_blocks-one_block_example :
    sync_blocks Memory codecs true chain 5 0 empty_db ≡ (ok true, after_one)
sync_blocks-one_block_example =
    sync_blocks-one_block Memory codecs true chain 0 4 empty_db after_one first_round

own_hash : (h : ℕ) (header : Header ℕ ℕ) → chain.header h ≡ ok (some header) → header.hash ≡ h
own_hash h header e = cc e

sync_blocks-IsConsistent_example :
    IsConsistent Memory codecs (sync_blocks Memory codecs true chain 3 0 empty_db).1
sync_blocks-IsConsistent_example =
    sync_blocks-IsConsistent Memory codecs true chain Memory_laws own_hash 3 0 empty_db
      empty_db-IsConsistent

-- A sync that counts its calls, a delay that has run from 10 on, and a worker that waits.
abbrev count_sync : Action ℕ Bool
count_sync calls = (ok true, suc calls)

abbrev waiting : MappingSyncWorker ℕ
waiting = record { inner_delay = some 4; have_next = false }

abbrev quiet_stream : Notifications ℕ
quiet_stream = record { queue = []; ended = false }

abbrev one_import : Notifications ℕ
one_import = record { queue = 1 ∷ []; ended = false }

not_pending : (poll_next (λ d. leb 10 d) count_sync one_import 0 waiting 0).0 ≢ pending
unfolding poll_next
not_pending e = cc e
