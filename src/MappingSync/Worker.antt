-- ===== src/MappingSync/Worker.antt =====
-- The worker that is polled for the next sync: crates/client/mapping-sync/src/lib.rs. `N` are import
-- notifications and `D` delays, with `elapsed` for the poll of one; `sync` is the call of `sync_blocks`.
use deoxys.Base.{
  ◌≡◌, refl, ◌↔◌, Bool, true, false, ◌||◌, Option, none, some, List, [], ◌∷◌, arith, ◌≢◌,
  if◌then◌else◌, is_empty, not,
}
use deoxys.Base.Outcome.{Result, ok, err}
use deoxys.MappingSync.Action.{SyncError, Action}

pub data Poll (A : Type 0) : Type 0 where
  pending : Poll A
  ready : A → Poll A

pub record MappingSyncWorker (D : Type 0) : Type 0 where
  pub inner_delay : Option D
  pub have_next : Bool

abbrev pub new : {D : Type 0} → MappingSyncWorker D
new = record { inner_delay = none; have_next = true }

-- What the notification stream gives until it is pending, or until it ends.
pub record Notifications (N : Type 0) : Type 0 where
  pub queue : List N
  pub ended : Bool

module _ {N : Type 0} where
  -- The first loop: `none` where the stream ended, else whether there was a notification.
  abbrev pub drain : List N → Bool → Bool → Option Bool
  drain [] true fire = none
  drain [] false fire = some fire
  drain (n ∷ queue) ended fire = drain queue ended true

-- `self.inner_delay.get_or_insert_with(..)`
abbrev pub get_or_insert : {D : Type 0} → Option D → D → D
get_or_insert none d = d
get_or_insert (some d) _ = d

-- `Ok(have_next) => have_next, Err(_) => false`
abbrev pub have_next_of : Result SyncError Bool → Bool
have_next_of (ok have_next) = have_next
have_next_of (err e) = false

module _ {D Db : Type 0} (elapsed : D → Bool) (sync : Action Db Bool) where
  -- The end of a poll: the sync where it fires, the delay that is kept where it does not.
  abbrev pub fired :
      Bool → D → MappingSyncWorker D → Db → Poll (Option (Unit {0})) × MappingSyncWorker D × Db
  fired false delay w s = (pending, record { inner_delay = some delay; have_next = w.have_next }, s)
  fired true delay w s = (
    ready (some tt),
    record { inner_delay = none; have_next = have_next_of (sync s).0 },
    (sync s).1,
  )

  abbrev pub polled :
      Option Bool
      → D
      → MappingSyncWorker D
      → Db
      → Poll (Option (Unit {0})) × MappingSyncWorker D × Db
  polled none fresh w s = (ready none, w, s)
  polled (some fire) fresh w s =
      let delay = get_or_insert w.inner_delay fresh in
      fired (fire || elapsed delay || w.have_next) delay w s

module _ {N D Db : Type 0} (elapsed : D → Bool) (sync : Action Db Bool) where
  -- `fresh` is `Delay::new(timeout)`.
  unfoldable pub poll_next :
      Notifications N
      → D
      → MappingSyncWorker D
      → Db
      → Poll (Option (Unit {0})) × MappingSyncWorker D × Db
  poll_next stream fresh w s = polled elapsed sync (drain stream.queue stream.ended false) fresh w s

drain-true :
    {N : Type 0} (queue : List N) (ended : Bool)
    → drain queue ended true ≡ (if ended then none else some true)
drain-true [] true = refl
drain-true [] false = refl
drain-true (n ∷ queue) ended = drain-true queue ended

drain-false :
    {N : Type 0} (queue : List N) (ended : Bool)
    → drain queue ended false ≡ (if ended then none else some (not (is_empty queue)))
drain-false [] true = refl
drain-false [] false = refl
drain-false (n ∷ queue) ended = drain-true queue ended

module _ {N D Db : Type 0} (elapsed : D → Bool) (sync : Action Db Bool) where
  -- A poll waits exactly when the stream is open with no notification queued, the delay runs, and the
  -- last sync left nothing to do.
  pub poll_next-pending_iff :
      (stream : Notifications N) (fresh : D) (w : MappingSyncWorker D) (s : Db)
      → ((poll_next elapsed sync stream fresh w s).0 ≡ pending) ↔ (
          (stream.ended ≡ false)
          × (is_empty stream.queue ≡ true)
          × (elapsed (get_or_insert w.inner_delay fresh) ≡ false)
          × (w.have_next ≡ false))
  unfolding poll_next
  poll_next-pending_iff stream fresh w s =
      rw (drain-false stream.queue stream.ended, poll_next) (ground arith)

  -- A poll that does not wait on an open stream runs one sync, whose writes are kept whatever it gives;
  -- it asks for another round exactly when that sync succeeded and synced a block.
  pub poll_next-syncs :
      (stream : Notifications N) (fresh : D) (w : MappingSyncWorker D) (s : Db)
      → stream.ended ≡ false
      → (poll_next elapsed sync stream fresh w s).0 ≢ pending
      → ((poll_next elapsed sync stream fresh w s).2 ≡ (sync s).1)
        × (((poll_next elapsed sync stream fresh w s).1.have_next ≡ true) ↔ ((sync s).0 ≡ ok true))
  unfolding poll_next
  poll_next-syncs stream fresh w s opened waits =
      rw (drain-false stream.queue stream.ended, poll_next) (ground arith)
