-- ===== src/Rpc/BlockLaws.antt =====
-- That the read handlers of blocks agree: crates/client/rpc/src/methods/get_block.rs and methods/read.
use deoxys.Base.{
  ℕ, suc, ◌≡◌, ◌⊎◌, refl, Option, none, some, List, [], ◌∷◌, map, length, get_elem?, arith,
  if◌then◌else◌, inl, inr, Bool-cases, Option-cases,
}
use deoxys.Base.Outcome.{Result, ok, err, ◌>>=◌, Result-cases}
use deoxys.Base.Assoc.{Eq}
use deoxys.Rpc.Types.{BlockId}
use deoxys.Rpc.Server.{
  RpcError, panicked, Block, Server, KeepsHash, core_tx, block_hash_or_error,
  get_cached_transaction_hashes, chain_id,
}
use deoxys.Rpc.Receipts.{hashes_of}
use deoxys.Rpc.BlockReads.{
  MaybePending, block, pending_block, head_of, tx_conv, asks_pending, accepted, pending_of,
  known_hashes, computed, get_block_with_tx_hashes_finalized, get_block_with_tx_hashes_pending,
  get_block_with_txs_finalized, get_block_with_txs_pending, get_block_with_tx_hashes,
  get_block_with_txs,
}

abbrev pub map_ok : {X Y : Type 0} → (X → Y) → Result RpcError X → Result RpcError Y
map_ok f (ok x) = ok (f x)
map_ok f (err e) = err e

module _ {F X : Type 0} (hash_of : X → F) where
  -- The hashes of an answer with transactions.
  abbrev pub hashes_only : MaybePending F X → MaybePending F F
  hashes_only (block status h n root head txs) = block status h n root head (map hash_of txs)
  hashes_only (pending_block head txs) = pending_block head (map hash_of txs)

module _ {F H Tx Class Abi RpcClass : Type 0} (s : Server F H Tx Class Abi RpcClass) where
  -- The conversion of one of the transactions panics, with some hash.
  abbrev pub Unanswerable : List Tx → Type 0
  Unanswerable txs =
      (i : ℕ) × (tx : Tx) × (h : F) × (get_elem? txs i ≡ some tx)
      × (s.to_starknet_core_tx tx h ≡ none)

  -- Two answers agree, or the first one is a panic on a transaction of `txs`.
  abbrev pub AgreeUnless :
      (s.RpcTx → F)
      → List Tx
      → Result RpcError (MaybePending F s.RpcTx)
      → Result RpcError (MaybePending F F)
      → Type 0
  AgreeUnless hash_of txs r r' =
      (map_ok (hashes_only hash_of) r ≡ r') ⊎ ((r ≡ err panicked) × Unanswerable txs)

  -- The conversions answer for all, with the hashes that they were given, or one of them panics.
  module _ (keeps : KeepsHash s) where
    tx_conv-hashes :
        (txs : List Tx) (hashes : List F)
        → length hashes ≡ length txs
        → ((answers : List s.RpcTx) × (tx_conv s txs hashes ≡ ok answers)
            × (map keeps.hash_of answers ≡ hashes))
          ⊎ ((tx_conv s txs hashes ≡ err panicked) × Unanswerable txs)
    unfolding tx_conv core_tx
    tx_conv-hashes [] [] same = inl ([], refl, refl)
    tx_conv-hashes [] (h ∷ hashes) same = absurd (omega (arith, same))
    tx_conv-hashes (tx ∷ txs) [] same = absurd (omega (arith, same))
    tx_conv-hashes (tx ∷ txs) (h ∷ hashes) same = elim (Option-cases (s.to_starknet_core_tx tx h)) [
      | inl panics ↦ inr (rw panics refl, (0, tx, h, refl, panics))
      | inr (answer, answers) ↦ elim (tx_conv-hashes txs hashes (omega (arith, same))) [
        | inl (rest, at, kept) ↦ inl (
          answer ∷ rest,
          rw (answers, at) refl,
          rw (keeps.hash_of-to_starknet_core_tx tx h answer answers, kept) refl,
        )
        | inr (panics, (i, other, k, place, refused)) ↦
            inr (rw (answers, panics) refl, (suc i, other, k, place, refused))
      ]
    ]

    accepted-tx_conv :
        (l1 : ℕ) (b : Block F Tx) (hashes : List F)
        → length hashes ≡ length b.transactions
        → AgreeUnless keeps.hash_of b.transactions
            (tx_conv s b.transactions hashes >>= λ txs. accepted l1 b txs)
            (accepted l1 b hashes)
    accepted-tx_conv l1 b hashes same = elim (tx_conv-hashes b.transactions hashes same) [
      | inl (answers, at, kept) ↦ inl (elim (Result-cases (head_of b)) [
        | inl (head, h) ↦ rw (at, h, kept) refl
        | inr (e, h) ↦ rw (at, h) refl
      ])
      | inr (panics, why) ↦ inr (rw panics refl, why)
    ]

    pending-tx_conv :
        (b : Block F Tx) (hashes : List F)
        → length hashes ≡ length b.transactions
        → AgreeUnless keeps.hash_of b.transactions
            (tx_conv s b.transactions hashes >>= λ txs. pending_of b txs)
            (pending_of b hashes)
    pending-tx_conv b hashes same = elim (tx_conv-hashes b.transactions hashes same) [
      | inl (answers, at, kept) ↦ inl (elim (Result-cases (head_of b)) [
        | inl (head, h) ↦ rw (at, h, kept) refl
        | inr (e, h) ↦ rw (at, h) refl
      ])
      | inr (panics, why) ↦ inr (rw panics refl, why)
    ]

module _ {F Tx : Type 0} where
  -- The transactions of a block; none where there is no block.
  abbrev pub transactions_of : Option (Block F Tx) → List Tx
  transactions_of none = []
  transactions_of (some b) = b.transactions

  abbrev pub loaded : Result RpcError (Block F Tx) → List Tx
  loaded (ok b) = b.transactions
  loaded (err e) = []

length-map : {F Tx : Type 0} (f : Tx → F) (txs : List Tx) → length (map f txs) ≡ length txs
length-map f [] = refl
length-map f (tx ∷ txs) = omega (arith, length-map f txs)

module _ {F H Tx Class Abi RpcClass : Type 0} ⦃e : Eq F⦄ ⦃eh : Eq H⦄
    (s : Server F H Tx Class Abi RpcClass) (l1 : ℕ) (get_pending_block : Option (Block F Tx)) where
  -- The transactions of the block that an id asks for.
  abbrev pub loaded_at : Result RpcError H → List Tx
  loaded_at (ok h) = loaded (s.get_block_by_block_hash h)
  loaded_at (err e) = []

  abbrev pub asked_transactions : BlockId F → List Tx
  asked_transactions block_id =
      if asks_pending block_id
      then transactions_of get_pending_block
      else loaded_at (block_hash_or_error s block_id)

  length-known_hashes :
      (chain : F) (b : Block F Tx) (cached : Option (List F))
      → ((hashes : List F) → cached ≡ some hashes → length hashes ≡ length b.transactions)
      → length (hashes_of cached (λ tx. s.compute_hash tx chain b.block_number) b.transactions)
        ≡ length b.transactions
  length-known_hashes chain b (some hashes) full = full hashes refl
  length-known_hashes chain b none full =
      length-map (λ tx. s.compute_hash tx chain b.block_number) b.transactions

  module _ (keeps : KeepsHash s) where
    finalized_agree :
        (chain : F) (h : H)
        → ((b : Block F Tx) (hashes : List F)
            → get_cached_transaction_hashes s b.block_hash ≡ some hashes
            → length hashes ≡ length b.transactions)
        → AgreeUnless s keeps.hash_of
            (loaded (s.get_block_by_block_hash h))
            (get_block_with_txs_finalized s l1 get_pending_block chain h)
            (get_block_with_tx_hashes_finalized s l1 get_pending_block chain h)
    unfolding get_block_with_txs_finalized get_block_with_tx_hashes_finalized
    finalized_agree chain h full = elim (Result-cases (s.get_block_by_block_hash h)) [
      | inl (b, found) ↦ rw found (
          accepted-tx_conv s keeps l1 b (known_hashes s l1 get_pending_block chain b)
            (length-known_hashes chain b (get_cached_transaction_hashes s b.block_hash) (full b)))
      | inr (e, missing) ↦ rw missing (inl refl)
    ]

    pending_agree :
        (chain : F)
        → AgreeUnless s keeps.hash_of
            (transactions_of get_pending_block)
            (get_block_with_txs_pending s l1 get_pending_block chain)
            (get_block_with_tx_hashes_pending s l1 get_pending_block chain)
    unfolding get_block_with_txs_pending get_block_with_tx_hashes_pending
    pending_agree chain = elim (Option-cases get_pending_block) [
      | inl missing ↦ rw missing (inl refl)
      | inr (b, found) ↦ rw found (
          pending-tx_conv s keeps b (computed s l1 get_pending_block chain b)
            (length-map (λ tx. s.compute_hash tx chain b.block_number) b.transactions))
    ]

    -- Where the conversion keeps the hash and the cache holds one hash for each transaction of a block that
    -- it knows, `getBlockWithTxs` and `getBlockWithTxHashes` agree for every block id, the pending block and
    -- the errors included: the latter is the former without the transactions. The one exception is a panic of
    -- the former, and then there is a transaction of the block for which the conversion panics.
    pub get_block_with_txs-hashes :
        (block_id : BlockId F)
        → ((b : Block F Tx) (hashes : List F)
            → get_cached_transaction_hashes s b.block_hash ≡ some hashes
            → length hashes ≡ length b.transactions)
        → AgreeUnless s keeps.hash_of
            (asked_transactions block_id)
            (get_block_with_txs s l1 get_pending_block block_id)
            (get_block_with_tx_hashes s l1 get_pending_block block_id)
    unfolding get_block_with_txs get_block_with_tx_hashes
    get_block_with_txs-hashes block_id full = elim (Result-cases (chain_id s)) [
      | inl (chain, configured) ↦ elim (Result-cases (block_hash_or_error s block_id)) [
        | inl (h, resolved) ↦ elim (Bool-cases (asks_pending block_id)) [
          | inl asked ↦ rw (configured, asked_transactions, resolved, asked) (pending_agree chain)
          | inr other ↦
              rw (configured, asked_transactions, resolved, other) (finalized_agree chain h full)
        ]
        | inr (e, missing) ↦ rw (configured, missing) (inl refl)
      ]
      | inr (e, missing) ↦ rw missing (inl refl)
    ]
