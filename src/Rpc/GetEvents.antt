-- ===== src/Rpc/GetEvents.antt =====
-- `starknet_getEvents`: crates/client/rpc/src/methods/read/get_events.rs and the constants of
-- crates/client/rpc/src/constants.rs. The server's methods that the handler calls are the fields of
-- `Starknet`; `F` is the field element with its equality.
pub mod Paging
pub mod Pages
pub mod Filter
pub mod Errors
mod Tests
use deoxys.Base.{
  ℕ, zero, suc, ◌+◌, ◌-◌, Bool, true, false, ◌&&◌, ◌||◌, Option, none, some, List, [], ◌∷◌, ◌++◌,
  ltb, leb, ◌==◌, if◌then◌else◌, length, take, drop, filter, is_empty,
}
use deoxys.Base.Outcome.{Result, ok, err, ◌>>=◌, ◌>>◌, map_err}
use deoxys.Base.Assoc.{Eq, ◌==◌ as same}
use deoxys.Rpc.Types.{
  BlockTag, latest, pending, BlockId, number, tag, is_pending, StarknetRpcApiError, block_not_found,
  page_size_too_big, too_many_keys, invalid_continuation_token, EmittedEvent,
}
use deoxys.Rpc.Token.{ContinuationToken, to_string, parse}

abbrev pub max_events_keys : ℕ
max_events_keys = 100

abbrev pub max_events_chunk_size : ℕ
max_events_chunk_size = 1000

-- The methods of the server that `get_events` calls.
pub record Starknet (F : Type 0) : Type 0 where
  pub get_block_events : BlockId F → Result StarknetRpcApiError (List (EmittedEvent F))
  pub substrate_block_number : BlockId F → Result StarknetRpcApiError ℕ

pub record EventFilterWithPage (F : Type 0) : Type 0 where
  pub from_block : Option (BlockId F)
  pub to_block : Option (BlockId F)
  pub address : Option F
  pub keys : Option (List (List F))
  pub continuation_token : Option (List ℕ)
  pub chunk_size : ℕ

pub record EventsPage (F : Type 0) : Type 0 where
  pub events : List (EmittedEvent F)
  pub continuation_token : Option (List ℕ)

module _ {F : Type 0} ⦃e : Eq F⦄ where
  abbrev contains : F → List F → Bool
  contains k [] = false
  contains k (j ∷ js) = same j k || contains k js

  -- `keys.iter().enumerate().all(..)`: a pattern past the event's keys fails, an empty one is a
  -- wildcard.
  unfoldable pub match_keys : List (List F) → List F → Bool
  match_keys [] event_keys = true
  match_keys (ks ∷ patterns) [] = false
  match_keys (ks ∷ patterns) (k ∷ event_keys) =
      (is_empty ks || contains k ks) && match_keys patterns event_keys

  unfoldable pub match_from_address : Option F → F → Bool
  match_from_address none from_address = true
  match_from_address (some address) from_address = same address from_address

  unfoldable pub event_match_filter : EmittedEvent F → Option F → List (List F) → Bool
  unfolding match_from_address match_keys
  event_match_filter event address keys =
      match_from_address address event.from_address && match_keys keys event.keys

module _ {F : Type 0} where
  -- An end of the range: the block after the latest for `pending`, block 0 where it is left out.
  abbrev block_end : Starknet F → ℕ → Option (BlockId F) → Result StarknetRpcApiError ℕ
  block_end starknet last (some (BlockId.tag BlockTag.pending)) = ok (last + 1)
  block_end starknet last none =
      map_err (λ _. block_not_found) (starknet.substrate_block_number (number 0))
  block_end starknet last (some b) =
      map_err (λ _. block_not_found) (starknet.substrate_block_number b)

  -- The ends of the range and the latest block.
  unfoldable pub block_range :
      Option (BlockId F) → Option (BlockId F) → Starknet F → Result StarknetRpcApiError (ℕ × ℕ × ℕ)
  block_range from_block to_block starknet = do
    last ← map_err (λ _. block_not_found) (starknet.substrate_block_number (tag latest))
    from ← block_end starknet last from_block
    to ← block_end starknet last to_block
    ok (from, to, last)

  -- The events of one block of the range: past the latest block they are those of `pending`.
  unfoldable pub events_at : Starknet F → ℕ → ℕ → Result StarknetRpcApiError (List (EmittedEvent F))
  events_at starknet last current =
      if leb current last
      then starknet.get_block_events (number current)
      else starknet.get_block_events (tag pending)

module _ {F : Type 0} (fetch : ℕ → Result StarknetRpcApiError (List (EmittedEvent F))) where
  -- `for current_block in from_block..=to_block`, on the number of blocks left. `fetch` gives the
  -- filtered events of a block, `token` is the continuation token and `acc` is `filtered_events`.
  pub page_loop :
      ContinuationToken
      → ℕ
      → ℕ
      → ℕ
      → List (EmittedEvent F)
      → Result StarknetRpcApiError (EventsPage F)
  page_loop token chunk zero current acc = ok (record { events = acc; continuation_token = none })
  page_loop token chunk (suc rounds) current acc = do
    block_events ← fetch current
    let first = current == token.block_n
    let reduced = take (chunk - length acc) (drop (if first then token.event_n else 0) block_events)
    let acc' = acc ++ reduced
    let rest = page_loop token chunk rounds (current + 1) acc'
    let event_n = if first then token.event_n + chunk else length reduced
    let stop : EventsPage F = record {
      events = acc';
      continuation_token = some (to_string (record { block_n = current; event_n = event_n }));
    }
    if first && ltb (length block_events) token.event_n
        then err invalid_continuation_token
        else if length acc' == chunk
        then ok stop
        else rest

-- The token of the request, or the start of the range.
abbrev pub start_token : Option (List ℕ) → ℕ → Result StarknetRpcApiError ContinuationToken
start_token (some token) from = map_err (λ _. invalid_continuation_token) (parse token)
start_token none from = ok (record { block_n = from; event_n = 0 })

abbrev pub keys_of : {F : Type 0} → Option (List (List F)) → List (List F)
keys_of none = []
keys_of (some keys) = keys

module _ {F : Type 0} ⦃e : Eq F⦄ where
  -- The events of a block that the filter lets through.
  unfoldable pub matching_at :
      Starknet F
      → Option F
      → List (List F)
      → ℕ
      → ℕ
      → Result StarknetRpcApiError (List (EmittedEvent F))
  unfolding events_at
  matching_at starknet address keys last current = do
    events ← events_at starknet last current
    ok (filter (λ event. event_match_filter event address keys) events)

  pub get_events : Starknet F → EventFilterWithPage F → Result StarknetRpcApiError (EventsPage F)
  unfolding page_loop
  get_events starknet filter_page =
      let keys = keys_of filter_page.keys in
      let chunk = filter_page.chunk_size in
      let pages = do
        range ← block_range filter_page.from_block filter_page.to_block starknet
        token ← start_token filter_page.continuation_token range.0
        if ltb range.1 range.0
            then ok (record { events = []; continuation_token = none })
            else page_loop (matching_at starknet filter_page.address keys range.2) token chunk
                (range.1 + 1 - token.block_n) token.block_n []
      in if ltb max_events_keys (length keys)
        then err too_many_keys
        else if ltb max_events_chunk_size chunk
        then err page_size_too_big
        else pages
