-- ===== src/Db/Meta.antt =====
-- The tips of the synced chain: crates/client/db/src/meta_db.rs.
use deoxys.Base.{◌≡◌, none, some, List, [], ◌∷◌}
use deoxys.Base.Outcome.{Result, ok, ◌>>=◌}
use deoxys.Db.Column.{meta}
use deoxys.Db.Rocks.{Bytes, DbError, Rocks, RocksLaws, put_cf, Codec}

-- `static_keys::CURRENT_SYNCING_TIPS`, as ASCII codes.
abbrev pub current_syncing_tips_key : Bytes
current_syncing_tips_key =
    b'C' ∷ b'U' ∷ b'R' ∷ b'R' ∷ b'E' ∷ b'N' ∷ b'T' ∷ b'_' ∷ b'S' ∷ b'Y' ∷ b'N' ∷ b'C' ∷ b'I' ∷ b'N'
    ∷ b'G' ∷ b'_' ∷ b'T' ∷ b'I' ∷ b'P' ∷ b'S' ∷ []

module _ {H : Type 0} (r : Rocks) (hashes : Codec (List H)) where
  unfoldable pub current_syncing_tips : r.Db → Result DbError (List H)
  current_syncing_tips s = do
    found ← r.get_cf s meta current_syncing_tips_key
    elim found [ none ↦ ok [] | some raw ↦ hashes.decode raw ]

  unfoldable pub write_current_syncing_tips : r.Db → List H → Result DbError r.Db
  write_current_syncing_tips s tips = put_cf r s meta current_syncing_tips_key (hashes.encode tips)

  -- The tips that are stored are the tips that are read.
  pub current_syncing_tips-write_current_syncing_tips :
      (laws : RocksLaws r) (s s' : r.Db) (tips : List H)
      → write_current_syncing_tips s tips ≡ ok s'
      → current_syncing_tips s' ≡ ok tips
  unfolding current_syncing_tips write_current_syncing_tips
  current_syncing_tips-write_current_syncing_tips laws s s' tips e =
      rw
        (
          laws.reads s' meta current_syncing_tips_key,
          laws.writes s s' _ meta current_syncing_tips_key e,
        )
        (hashes.decode-encode tips)
