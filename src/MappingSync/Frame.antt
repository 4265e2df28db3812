-- ===== src/MappingSync/Frame.antt =====
-- What the sync's smaller writes to the databases of crates/client/db leave as it was.
use deoxys.Base.{◌≡◌, sym, ap, ◌∙◌, Bool, true, List, if◌then◌else◌, arith}
use deoxys.Base.Outcome.{Result, ok}
use deoxys.Base.Assoc.{Eq, ◌==◌}
use deoxys.Db.Column.{synced_mapping, block_mapping, transaction_mapping}
use deoxys.Db.Rocks.{DbError, Rocks, RocksLaws, encode_eq}
use deoxys.Db.Mapping.{
  Codecs, decoded, is_synced, block_hash, write_none, block_hash_from_transaction_hash,
}
use deoxys.Db.Mapping.Views.{
  flag_or, flag_or-if, is_synced-contents, block_hash-contents, transaction-contents,
}
use deoxys.Db.Mapping.Consistent.{IsConsistent}
use deoxys.Db.Meta.{write_current_syncing_tips}

module _ {H S : Type 0} ⦃eh : Eq H⦄ ⦃es : Eq S⦄ (r : Rocks) (codecs : Codecs H S)
    (laws : RocksLaws r) where
  -- Marking blocks as synced keeps the database consistent.
  IsConsistent-mark :
      (s s' : r.Db)
      → ((h : H) → is_synced r codecs s h ≡ ok true → is_synced r codecs s' h ≡ ok true)
      → ((sh : S) → block_hash r codecs s' sh ≡ block_hash r codecs s sh)
      → ((t : S)
          → block_hash_from_transaction_hash r codecs s' t
            ≡ block_hash_from_transaction_hash r codecs s t)
      → IsConsistent r codecs s
      → IsConsistent r codecs s'
  IsConsistent-mark s s' synced blocks transactions old = record {
    blocks_synced = λ sh hs h at m. synced h (old.blocks_synced sh hs h (sym (blocks sh) ∙ at) m);
    transactions_synced =
        λ t h at. synced h (old.transactions_synced t h (sym (transactions t) ∙ at));
    distinct = λ sh hs at. old.distinct sh hs (sym (blocks sh) ∙ at);
  }

  pub written_tips :
      (s s' : r.Db) (tips : List H)
      → write_current_syncing_tips r codecs.hashes s tips ≡ ok s'
      → (h : H) → is_synced r codecs s' h ≡ is_synced r codecs s h
  unfolding write_current_syncing_tips
  written_tips s s' tips e h =
      is_synced-contents r codecs laws s' h
      ∙ ap (flag_or r codecs) (laws.writes s s' _ synced_mapping (codecs.hash.encode h) e)
      ∙ sym (is_synced-contents r codecs laws s h)

  pub write_tips-IsConsistent :
      (s s' : r.Db) (tips : List H)
      → write_current_syncing_tips r codecs.hashes s tips ≡ ok s'
      → IsConsistent r codecs s
      → IsConsistent r codecs s'
  unfolding write_current_syncing_tips
  write_tips-IsConsistent s s' tips e =
      IsConsistent-mark s s' (λ h old. written_tips s s' tips e h ∙ old)
        (λ sh.
          block_hash-contents r codecs laws s' sh
          ∙ ap (decoded codecs.hashes) (laws.writes s s' _ block_mapping (codecs.stark.encode sh) e)
          ∙ sym (block_hash-contents r codecs laws s sh))
        (λ t.
          transaction-contents r codecs laws s' t
          ∙ ap (decoded codecs.hash)
              (laws.writes s s' _ transaction_mapping (codecs.stark.encode t) e)
          ∙ sym (transaction-contents r codecs laws s t))

  pub write_none-is_synced :
      (s s' : r.Db) (h : H)
      → write_none r codecs s h ≡ ok s'
      → (j : H) → is_synced r codecs s' j ≡ (if h == j then ok true else is_synced r codecs s j)
  unfolding write_none
  write_none-is_synced s s' h e j =
      is_synced-contents r codecs laws s' j
      ∙ ap (flag_or r codecs) (laws.writes s s' _ synced_mapping (codecs.hash.encode j) e)
      ∙ rw (encode_eq codecs.hash h j) (flag_or-if r codecs (h == j) _)
      ∙ ap (λ (old : Result DbError Bool). if h == j then ok true else old)
          (sym (is_synced-contents r codecs laws s j))

  pub write_none-IsConsistent :
      (s s' : r.Db) (h : H)
      → write_none r codecs s h ≡ ok s'
      → IsConsistent r codecs s
      → IsConsistent r codecs s'
  unfolding write_none
  write_none-IsConsistent s s' h e =
      IsConsistent-mark s s' (λ j old. ground (arith, write_none-is_synced s s' h e j, old))
        (λ sh.
          block_hash-contents r codecs laws s' sh
          ∙ ap (decoded codecs.hashes) (laws.writes s s' _ block_mapping (codecs.stark.encode sh) e)
          ∙ sym (block_hash-contents r codecs laws s sh))
        (λ t.
          transaction-contents r codecs laws s' t
          ∙ ap (decoded codecs.hash)
              (laws.writes s s' _ transaction_mapping (codecs.stark.encode t) e)
          ∙ sym (transaction-contents r codecs laws s t))
