-- ===== src/Db/Da.antt =====
-- The data availability database: crates/client/db/src/da_db.rs. `S` are block hashes, `D` state diffs
-- and `U` job ids; `bytes` is the key of a block hash.
use deoxys.Base.{◌≡◌, Option, none, some, [], ◌∷◌}
use deoxys.Base.Outcome.{Result, ok, err, ◌>>=◌}
use deoxys.Base.Assoc.{==_self, list_Eq, nat_Eq}
use deoxys.Db.Column.{da}
use deoxys.Db.Rocks.{Bytes, DbError, value_not_initialized, Rocks, RocksLaws, put_cf, Codec}

pub record DaTypes (S D U : Type 0) : Type 0 where
  pub key : S → Bytes
  pub felt : Codec S
  pub diff : Codec D
  pub uuid : Codec U

-- `static_keys::LAST_PROVED_BLOCK`
abbrev pub last_proved_block_key : Bytes
last_proved_block_key =
    b'L' ∷ b'A' ∷ b'S' ∷ b'T' ∷ b'_' ∷ b'P' ∷ b'R' ∷ b'O' ∷ b'V' ∷ b'E' ∷ b'D' ∷ b'_' ∷ b'B' ∷ b'L'
    ∷ b'O' ∷ b'C' ∷ b'K' ∷ []

module _ {S D U : Type 0} (r : Rocks) (t : DaTypes S D U) where
  unfoldable pub state_diff : r.Db → S → Result DbError D
  state_diff s h = do
    found ← r.get_cf s da (t.key h)
    elim found [ none ↦ err (value_not_initialized da (t.key h)) | some raw ↦ t.diff.decode raw ]

  unfoldable pub store_state_diff : r.Db → S → D → Result DbError r.Db
  store_state_diff s h d = put_cf r s da (t.key h) (t.diff.encode d)

  unfoldable pub cairo_job : r.Db → S → Result DbError (Option U)
  cairo_job s h = do
    found ← r.get_cf s da (t.key h)
    elim found [ none ↦ ok none | some raw ↦ t.uuid.decode raw >>= λ u. ok (some u) ]

  unfoldable pub update_cairo_job : r.Db → S → U → Result DbError r.Db
  update_cairo_job s h u = put_cf r s da (t.key h) (t.uuid.encode u)

  unfoldable pub last_proved_block : r.Db → Result DbError S
  last_proved_block s = do
    found ← r.get_cf s da last_proved_block_key
    elim found [
      | none ↦ err (value_not_initialized da last_proved_block_key)
      | some raw ↦ t.felt.decode raw
    ]

  unfoldable pub update_last_proved_block : r.Db → S → Result DbError r.Db
  update_last_proved_block s h = put_cf r s da last_proved_block_key (t.felt.encode h)

  module _ (laws : RocksLaws r) where
    -- A state diff that was stored is read back, and so is a job; but they share one entry, so that
    -- after the job of a block is stored its state diff is read from the bytes of the job.
    pub update_cairo_job_clobbers :
        (s s₁ s₂ : r.Db) (h : S) (d : D) (u : U)
        → store_state_diff s h d ≡ ok s₁
        → update_cairo_job s₁ h u ≡ ok s₂
        → (state_diff s₁ h ≡ ok d)
          × (cairo_job s₂ h ≡ ok (some u))
          × (state_diff s₂ h ≡ t.diff.decode (t.uuid.encode u))
    unfolding state_diff store_state_diff cairo_job update_cairo_job
    update_cairo_job_clobbers s s₁ s₂ h d u e₁ e₂ = (
      rw (laws.reads s₁ da (t.key h), laws.writes s s₁ _ da (t.key h) e₁, ==_self (t.key h))
          (t.diff.decode-encode d),
      rw (
        laws.reads s₂ da (t.key h),
        laws.writes s₁ s₂ _ da (t.key h) e₂,
        ==_self (t.key h),
        t.uuid.decode-encode u,
      ),
      rw (laws.reads s₂ da (t.key h), laws.writes s₁ s₂ _ da (t.key h) e₂, ==_self (t.key h)),
    )

    -- The last proved block is read back as it was stored.
    pub last_proved_block-update :
        (s s' : r.Db) (h : S) → update_last_proved_block s h ≡ ok s' → last_proved_block s' ≡ ok h
    unfolding last_proved_block update_last_proved_block
    last_proved_block-update s s' h e =
        rw (laws.reads s' da last_proved_block_key, laws.writes s s' _ da last_proved_block_key e)
          (t.felt.decode-encode h)
