-- ===== src/Pallet/Blocks.antt =====
-- From a pallet block to the digest that the client reads, and the sequencer's address:
-- crates/pallets/starknet/src/lib.rs and crates/primitives/digest-log/src/lib.rs.
use deoxys.Base.{
  ℕ, suc, ◌≡◌, ◌<◌, refl, ◌∙◌, Bool, true, false, Option, none, some, List, [], ◌∷◌, ◌++◌, ==_refl,
  arith, Option-cases, inl, inr,
}
use deoxys.Base.Outcome.{ok}
use deoxys.Base.Assoc.{nat_Eq, lookup-insert}
use deoxys.DigestLog.{Log, block, logs, find_log-only, find_starknet_block}
use deoxys.Pallet.State.{
  madara_engine_id, block_engine_id, state_engine_id, class_engine_id, other_engine_id, DigestItem,
  pre_runtime, consensus, other_item, Types, Pallet, parent_block_hash,
}
use deoxys.Pallet.Hooks.{
  BlockCodec, stored_block, store_decoded, store_first, store_block, on_finalize,
  set_sequencer_address,
}

module _ (t : Types) {B : Type 0} (codec : BlockCodec t B) where
  -- `DigestItem::try_to` at the Madara engine's consensus id.
  abbrev pub try_to : DigestItem t.Bytes → Option (Log B)
  try_to (consensus madara_engine_id encoded) = codec.decode_log encoded
  try_to item = none

logs-append :
    {I B : Type 0} (read : I → Option (Log B)) (xs ys : List I)
    → logs read (xs ++ ys) ≡ logs read xs ++ logs read ys
unfolding logs
logs-append read [] ys = refl
logs-append read (x ∷ xs) ys = ground (arith, logs-append read xs ys)

find_starknet_block-logs :
    {I B : Type 0} (read : I → Option (Log B)) (items : List I) (b : B)
    → logs read items ≡ block b ∷ []
    → find_starknet_block read items ≡ ok b
unfolding find_starknet_block
find_starknet_block-logs read items b e = rw (find_log-only read items, e)

module _ (t : Types) {B : Type 0} (codec : BlockCodec t B)
    (decode-encode : (b : B) → codec.decode_log (codec.encode_log b) ≡ some (block b)) where
  logs-stored :
      (b : B)
      → logs (try_to t codec) (consensus madara_engine_id (codec.encode_log b) ∷ []) ≡ block b ∷ []
  unfolding logs
  logs-stored b = rw (decode-encode b, logs)

  parent_block_hash-stored :
      (s : Pallet t) (b : B) (hash : t.Fe)
      → parent_block_hash t (stored_block t codec s s.block_number b hash) (suc s.block_number)
        ≡ hash
  unfolding parent_block_hash
  parent_block_hash-stored s b hash =
      ground (
        arith,
        lookup-insert s.block_number s.block_number hash s.block_hash,
        ==_refl s.block_number,
      )

  -- A block that comes with its hash as the first digest item is finalized into the state that the next
  -- block and the client see: its number maps to its hash, which is the parent hash of the next block; no
  -- transaction is pending; and the digest holds the block as its only Madara log, where it had none.
  pub store_block-find_starknet_block :
      (s : Pallet t) (encoded : t.Bytes) (items : List (DigestItem t.Bytes)) (b : B) (hash : t.Fe)
      → s.digest ≡ pre_runtime madara_engine_id encoded ∷ items
      → codec.decode_block encoded ≡ some b
      → codec.extra_data b ≡ some hash
      → logs (try_to t codec) s.digest ≡ []
      → (s' : Pallet t) × (store_block t codec s s.block_number ≡ some s')
        × (find_starknet_block (try_to t codec) s'.digest ≡ ok b)
        × (parent_block_hash t s' (suc s.block_number) ≡ hash)
        × (s'.pending ≡ [])
  unfolding store_block parent_block_hash
  store_block-find_starknet_block s encoded items b hash first decoded extra fresh = (
    stored_block t codec s s.block_number b hash,
    rw (first, store_block, decoded, extra),
    find_starknet_block-logs (try_to t codec) _ b
        (logs-append (try_to t codec) s.digest _ ∙ rw fresh (logs-stored b)),
    parent_block_hash-stored s b hash,
    refl,
  )

module _ (t : Types) {B : Type 0} (codec : BlockCodec t B) where
  -- The mark of whatever state comes out.
  abbrev Marked : Option Bool → Option (Pallet t) → Type 0
  Marked mark none = Unit
  Marked mark (some s') = s'.seq_addr_update ≡ mark

  Marked-some :
      (mark : Option Bool) (x : Option (Pallet t)) (s' : Pallet t)
      → Marked mark x
      → x ≡ some s'
      → s'.seq_addr_update ≡ mark
  Marked-some mark none s' h e = cc e
  Marked-some mark (some s) s' h e = cc (h, e)

  store_decoded-Marked :
      (s : Pallet t) (n : ℕ) (decoded : Option B)
      → Marked s.seq_addr_update (store_decoded t codec s n decoded)
  store_decoded-Marked s n none = refl
  store_decoded-Marked s n (some b) = elim (Option-cases (codec.extra_data b)) [
    | inl missing ↦ rw missing tt
    | inr (hash, found) ↦ rw found refl
  ]

  store_first-Marked :
      (s : Pallet t) (n : ℕ) (items : List (DigestItem t.Bytes))
      → Marked s.seq_addr_update (store_first t codec s n items)
  store_first-Marked s n [] = tt
  store_first-Marked s n (pre_runtime madara_engine_id encoded ∷ items) =
      store_decoded-Marked s n (codec.decode_block encoded)
  store_first-Marked s n (pre_runtime block_engine_id encoded ∷ items) = refl
  store_first-Marked s n (pre_runtime state_engine_id encoded ∷ items) = refl
  store_first-Marked s n (pre_runtime class_engine_id encoded ∷ items) = refl
  store_first-Marked s n (pre_runtime (other_engine_id i) encoded ∷ items) = refl
  store_first-Marked s n (consensus engine encoded ∷ items) = refl
  store_first-Marked s n (other_item encoded ∷ items) = refl

  -- A block is finalized only if its sequencer's address was set, and this clears the mark.
  pub on_finalize-seq_addr_update :
      (s s' : Pallet t)
      → on_finalize t codec s ≡ some s'
      → (s.seq_addr_update ≡ some true) × (s'.seq_addr_update ≡ none)
  unfolding on_finalize store_block
  on_finalize-seq_addr_update s s' e = elim (Option-cases s.seq_addr_update) [
    | inl missing ↦ ground arith
    | inr (false, unset) ↦ ground arith
    | inr (true, set) ↦ (
      set,
      Marked-some none _ s'
          (store_first-Marked (record s { seq_addr_update = none }) s.block_number s.digest)
          (rw set at e),
    )
  ]

module _ (t : Types) where
  -- From block 2 on the address can be set once in a block: after it was set, setting it again panics,
  -- whatever the address.
  pub set_sequencer_address-twice :
      (s s' : Pallet t) (addr addr' : Option t.Fe)
      → 1 < s.block_number
      → set_sequencer_address t true addr s ≡ some (ok s')
      → set_sequencer_address t true addr' s' ≡ none
  unfolding set_sequencer_address
  set_sequencer_address-twice s s' addr addr' late e = ground arith
