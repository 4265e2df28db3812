-- ===== src/Rpc/BlockReads.antt =====
-- The read handlers of whole blocks: get_block.rs, and get_block_with_tx_hashes.rs, get_block_with_txs.rs,
-- get_block_with_receipts.rs, get_state_update.rs and syncing.rs of methods/read, with the helpers of
-- crates/client/rpc/src/utils.rs. `l1_block_number` is the block that Ethereum has verified.
use deoxys.Base.{
  ℕ, Bool, true, false, Option, none, some, List, [], ◌∷◌, map, if◌then◌else◌, leb, ltb, ◌==◌,
}
use deoxys.Base.Outcome.{Result, ok, err, ◌>>=◌, map_err, ok_or}
use deoxys.Base.Assoc.{Eq}
use deoxys.Rpc.Types.{BlockTag, BlockId, internal_server_error}
use deoxys.Rpc.Server.{
  RpcError, api, custom, panicked, GasPrices, DaMode, Block, Server, block_hash_or_error,
  get_cached_transaction_hashes, chain_id, core_tx, substrate_block_hash_from_starknet_block,
}
use deoxys.Rpc.Receipts.{hashes_of, Finality, accepted_on_l1, accepted_on_l2}

pub record ResourcePrice : Type 0 where
  pub price_in_fri : ℕ
  pub price_in_wei : ℕ

-- What the answers tell of a block, pending or not.
pub record Head (F : Type 0) : Type 0 where
  pub parent_hash : F
  pub timestamp : ℕ
  pub sequencer : F
  pub gas_price : ResourcePrice
  pub data_gas_price : ResourcePrice
  pub starknet_version : List ℕ
  pub da_mode : DaMode

-- The answers: of a block with its status, hash, number and state root, and of a pending block.
pub data MaybePending (F X : Type 0) : Type 0 where
  block : Finality → F → ℕ → F → Head F → List X → MaybePending F X
  pending_block : Head F → List X → MaybePending F X

-- 1 stands for 0, as the price is stored as a `NonZeroU128`.
abbrev pub non_zero_price : ℕ → ℕ
non_zero_price n = if n == 1 then 0 else n

unfoldable pub gas_price_of : Option GasPrices → ResourcePrice
gas_price_of (some prices) = record {
  price_in_fri = non_zero_price prices.strk_l1_gas_price;
  price_in_wei = non_zero_price prices.eth_l1_gas_price;
}
gas_price_of none = record { price_in_fri = 0; price_in_wei = 0 }

unfoldable pub data_gas_price_of : Option GasPrices → ResourcePrice
data_gas_price_of (some prices) = record {
  price_in_fri = prices.strk_l1_data_gas_price;
  price_in_wei = prices.eth_l1_data_gas_price;
}
data_gas_price_of none = record { price_in_fri = 1; price_in_wei = 1 }

unfoldable pub status : ℕ → ℕ → Finality
status l1_block_number block_number =
    if leb block_number l1_block_number then accepted_on_l1 else accepted_on_l2

module _ {F : Type 0} where
  -- `matches!(block_id, BlockId::Tag(BlockTag::Pending))`
  abbrev pub asks_pending : BlockId F → Bool
  asks_pending (BlockId.tag BlockTag.pending) = true
  asks_pending (BlockId.tag BlockTag.latest) = false
  asks_pending (BlockId.hash h) = false
  asks_pending (BlockId.number n) = false

module _ {F Tx : Type 0} where
  unfoldable pub head_of : Block F Tx → Result RpcError (Head F)
  unfolding gas_price_of data_gas_price_of
  head_of b = do
    version ← ok_or b.protocol_version panicked
    ok (record {
      parent_hash = b.parent_block_hash;
      timestamp = b.block_timestamp;
      sequencer = b.sequencer_address;
      gas_price = gas_price_of b.l1_gas_price;
      data_gas_price = data_gas_price_of b.l1_gas_price;
      starknet_version = version;
      da_mode = b.l1_da_mode;
    })

  abbrev pub accepted : {X : Type 0} → ℕ → Block F Tx → List X → Result RpcError (MaybePending F X)
  accepted l1_block_number b xs = do
    head ← head_of b
    ok (
        MaybePending.block (status l1_block_number b.block_number) b.block_hash b.block_number
          b.global_state_root head xs)

  abbrev pub pending_of : {X : Type 0} → Block F Tx → List X → Result RpcError (MaybePending F X)
  pending_of b xs = do head ← head_of b; ok (MaybePending.pending_block head xs)

module _ {F H Tx Class Abi RpcClass : Type 0} (s : Server F H Tx Class Abi RpcClass) where
  -- `txs.iter().zip(tx_hashes)`, converted: a panic where a conversion panics.
  unfoldable pub tx_conv : List Tx → List F → Result RpcError (List s.RpcTx)
  unfolding core_tx
  tx_conv [] hashes = ok []
  tx_conv (tx ∷ txs) [] = ok []
  tx_conv (tx ∷ txs) (h ∷ hashes) = do
    answer ← core_tx s tx h
    answers ← tx_conv txs hashes
    ok (answer ∷ answers)

module _ {F H Tx Class Abi RpcClass : Type 0} ⦃e : Eq F⦄ ⦃eh : Eq H⦄
    (s : Server F H Tx Class Abi RpcClass) (l1_block_number : ℕ)
    (get_pending_block : Option (Block F Tx)) where
  abbrev pub computed : F → Block F Tx → List F
  computed chain b = map (λ tx. s.compute_hash tx chain b.block_number) b.transactions

  abbrev pub known_hashes : F → Block F Tx → List F
  known_hashes chain b =
      hashes_of (get_cached_transaction_hashes s b.block_hash)
        (λ tx. s.compute_hash tx chain b.block_number) b.transactions

  unfoldable pub get_block_with_tx_hashes_finalized : F → H → Result RpcError (MaybePending F F)
  unfolding get_cached_transaction_hashes head_of status
  get_block_with_tx_hashes_finalized chain h = do
    b ← s.get_block_by_block_hash h
    accepted l1_block_number b (known_hashes chain b)

  unfoldable pub get_block_with_tx_hashes_pending : F → Result RpcError (MaybePending F F)
  unfolding head_of
  get_block_with_tx_hashes_pending chain = do
    b ← ok_or get_pending_block custom
    pending_of b (computed chain b)

  unfoldable pub get_block_with_txs_finalized : F → H → Result RpcError (MaybePending F s.RpcTx)
  unfolding get_cached_transaction_hashes head_of status tx_conv
  get_block_with_txs_finalized chain h = do
    b ← s.get_block_by_block_hash h
    transactions ← tx_conv s b.transactions (known_hashes chain b)
    accepted l1_block_number b transactions

  unfoldable pub get_block_with_txs_pending : F → Result RpcError (MaybePending F s.RpcTx)
  unfolding head_of tx_conv
  get_block_with_txs_pending chain = do
    b ← ok_or get_pending_block custom
    transactions ← tx_conv s b.transactions (computed chain b)
    pending_of b transactions

  unfoldable pub get_block_with_tx_hashes : BlockId F → Result RpcError (MaybePending F F)
  unfolding chain_id substrate_block_hash_from_starknet_block get_block_with_tx_hashes_finalized
      get_block_with_tx_hashes_pending
  get_block_with_tx_hashes block_id = do
    chain ← chain_id s
    h ← block_hash_or_error s block_id
    if asks_pending block_id
        then get_block_with_tx_hashes_pending chain
        else get_block_with_tx_hashes_finalized chain h

  unfoldable pub get_block_with_txs : BlockId F → Result RpcError (MaybePending F s.RpcTx)
  unfolding chain_id substrate_block_hash_from_starknet_block get_block_with_txs_finalized
      get_block_with_txs_pending
  get_block_with_txs block_id = do
    chain ← chain_id s
    h ← block_hash_or_error s block_id
    if asks_pending block_id
        then get_block_with_txs_pending chain
        else get_block_with_txs_finalized chain h

  -- The state update: `state_diff` is `get_state_diff`, which reads it from the database, `old_root` the
  -- root that the backend keeps, and `pending_update` the pending state update.
  module _ {Diff Update : Type 0} (zero_fe old_root : F) (state_diff : F → Result (Unit {0}) Diff)
      (pending_update : Option Update) where
    pub data MaybePendingUpdate : Type 0 where
      update : F → F → F → Diff → MaybePendingUpdate
      pending_update_of : Update → MaybePendingUpdate

    unfoldable pub get_state_update_finalized : H → Result RpcError MaybePendingUpdate
    get_state_update_finalized h = do
      b ← s.get_block_by_block_hash h
      diff ← map_err (λ _. api internal_server_error) (state_diff b.block_hash)
      ok (
          update b.block_hash (if ltb 0 b.block_number then old_root else zero_fe)
            b.global_state_root diff)

    abbrev pub or_custom : Option Update → Result RpcError MaybePendingUpdate
    or_custom none = err custom
    or_custom (some u) = ok (pending_update_of u)

    unfoldable pub get_state_update : BlockId F → Result RpcError MaybePendingUpdate
    unfolding substrate_block_hash_from_starknet_block get_state_update_finalized
    get_state_update block_id = do
      h ← block_hash_or_error s block_id
      if asks_pending block_id then or_custom pending_update else get_state_update_finalized h
