-- ===== src/Header/Hashing.antt =====
-- The hash of a header and what it commits to: crates/primitives/block/src/header.rs. A StarkHash, a
-- ContractAddress and a Felt252Wrapper are field elements; `hash_on_wrappers` is
-- `compute_hash_on_wrappers` of the hasher. A panic is `none`.
use mathlib.Core.Option.{some-injective}
use deoxys.Base.{
  ℕ, ◌≡◌, ◌≤◌, ◌<◌, ◌^◌, sym, ap, ◌∙◌, Option, some, List, [], ◌∷◌, leb, le→leb, if◌then◌else◌,
  arith,
}
use deoxys.Base.Opt.{◌>>=◌}
use deoxys.Transactions.Types.{Field}
use deoxys.Transactions.ReadBack.{NumberLaws}

-- The fields that the hash reads, and the protocol version, which it does not read.
pub record Header (Fe : Type 0) : Type 0 where
  pub parent_block_hash : Fe
  pub block_number : ℕ
  pub global_state_root : Fe
  pub sequencer_address : Fe
  pub block_timestamp : ℕ
  pub transaction_count : ℕ
  pub transaction_commitment : Fe
  pub event_count : ℕ
  pub event_commitment : Fe
  pub protocol_version : Fe

-- "SN_MAIN"
abbrev pub sn_main : List ℕ
sn_main = 83 ∷ 78 ∷ 95 ∷ 77 ∷ 65 ∷ 73 ∷ 78 ∷ []

module _ (field : Field) where
  -- The data that is hashed for blocks from 833 on.
  unfoldable pub modern_data : Header field.Fe → List field.Fe
  modern_data header =
      field.from header.block_number
      ∷ header.global_state_root
      ∷ header.sequencer_address
      ∷ field.from header.block_timestamp
      ∷ field.from header.transaction_count
      ∷ header.transaction_commitment
      ∷ field.from header.event_count
      ∷ header.event_commitment
      ∷ field.from 0
      ∷ field.from 0
      ∷ header.parent_block_hash
      ∷ []

  -- The data that is hashed for the blocks before.
  unfoldable pub old_data : Header field.Fe → field.Fe → List field.Fe
  old_data header chain =
      field.from header.block_number
      ∷ header.global_state_root
      ∷ field.from 0
      ∷ field.from 0
      ∷ field.from header.transaction_count
      ∷ header.transaction_commitment
      ∷ field.from 0
      ∷ field.from 0
      ∷ field.from 0
      ∷ field.from 0
      ∷ chain
      ∷ header.parent_block_hash
      ∷ []

  unfoldable pub header_hash : (List field.Fe → field.Fe) → Header field.Fe → Option field.Fe
  header_hash hash_on_wrappers header =
      if leb 833 header.block_number
      then some (hash_on_wrappers (modern_data header))
      else (field.from_byte_slice_be sn_main >>= λ chain.
          some (hash_on_wrappers (old_data header chain)))

  -- Two headers with the same number, state root, sequencer, time, counts, commitments and parent.
  abbrev pub Commits : Header field.Fe → Header field.Fe → Type 0
  Commits h k =
      (h.block_number ≡ k.block_number)
      × (h.global_state_root ≡ k.global_state_root)
      × (h.sequencer_address ≡ k.sequencer_address)
      × (h.block_timestamp ≡ k.block_timestamp)
      × (h.transaction_count ≡ k.transaction_count)
      × (h.transaction_commitment ≡ k.transaction_commitment)
      × (h.event_count ≡ k.event_count)
      × (h.event_commitment ≡ k.event_commitment)
      × (h.parent_block_hash ≡ k.parent_block_hash)

  -- The machine integers of a header.
  pub record FitsHeader (h : Header field.Fe) : Type 0 where
    pub number_fits : h.block_number < 2 ^ 64
    pub timestamp_fits : h.block_timestamp < 2 ^ 64
    pub transactions_fit : h.transaction_count < 2 ^ 128
    pub events_fit : h.event_count < 2 ^ 128

  module _ (to_u64 : field.Fe → Option ℕ) (laws : NumberLaws field to_u64) where
    from-injective : (n m : ℕ) → n < 2 ^ 128 → m < 2 ^ 128 → field.from n ≡ field.from m → n ≡ m
    from-injective n m hn hm same =
        sym (laws.value_of-from n (omega arith))
        ∙ ap laws.value_of same
        ∙ laws.value_of-from m (omega arith)

    modern_data-Commits :
        (h k : Header field.Fe)
        → FitsHeader h
        → FitsHeader k
        → modern_data h ≡ modern_data k
        → Commits h k
    unfolding modern_data
    modern_data-Commits h k hf kf same = (
      from-injective h.block_number k.block_number (let f = hf.number_fits in omega arith)
          (let f = kf.number_fits in omega arith) (cc same),
      cc same,
      cc same,
      from-injective h.block_timestamp k.block_timestamp (let f = hf.timestamp_fits in omega arith)
          (let f = kf.timestamp_fits in omega arith) (cc same),
      from-injective h.transaction_count k.transaction_count hf.transactions_fit kf.transactions_fit
          (cc same),
      cc same,
      from-injective h.event_count k.event_count hf.events_fit kf.events_fit (cc same),
      cc same,
      cc same,
    )

    header_hash-modern :
        (hash_on_wrappers : List field.Fe → field.Fe) (h : Header field.Fe)
        → 833 ≤ h.block_number
        → header_hash hash_on_wrappers h ≡ some (hash_on_wrappers (modern_data h))
    unfolding header_hash
    header_hash-modern hash_on_wrappers h modern = rw (le→leb 833 h.block_number modern)

    -- Where the hash function has no collision between their data, and their counts are machine integers,
    -- two headers from block 833 on that have the same hash have the same number, state root, sequencer,
    -- time, counts, commitments and parent.
    pub header_hash-Commits :
        (hash_on_wrappers : List field.Fe → field.Fe) (h k : Header field.Fe)
        → FitsHeader h
        → FitsHeader k
        → 833 ≤ h.block_number
        → 833 ≤ k.block_number
        → (hash_on_wrappers (modern_data h) ≡ hash_on_wrappers (modern_data k)
            → modern_data h ≡ modern_data k)
        → header_hash hash_on_wrappers h ≡ header_hash hash_on_wrappers k
        → Commits h k
    header_hash-Commits hash_on_wrappers h k hf kf modern modern' no_collision same =
        modern_data-Commits h k hf kf (
          no_collision (
            some-injective _ _ (
              sym (header_hash-modern hash_on_wrappers h modern)
              ∙ same
              ∙ header_hash-modern hash_on_wrappers k modern')))
