-- ===== src/Rpc/GetEvents/Pages.antt =====
-- Paging through `starknet_getEvents` (crates/client/rpc/src/methods/read/get_events.rs): one
-- request, and a client that follows the continuation tokens.
use deoxys.Base.{
  ℕ, zero, suc, ◌≤◌, ◌<◌, ◌≡◌, refl, ap, ◌∙◌, false, Option, none, some, List, ◌++◌, arith, ltb,
  length, filter, take-append-drop, take-all, length-drop,
}
use deoxys.Base.Outcome.{Result, ok, err, ◌>>=◌}
use deoxys.Base.Assoc.{Eq}
use deoxys.Rpc.Types.{StarknetRpcApiError, internal_server_error, EmittedEvent}
use deoxys.Rpc.Token.{ContinuationToken, u64_mod, parse}
use deoxys.Rpc.Token.RoundTrip.{parse-to_string}
use deoxys.Rpc.GetEvents.{
  Starknet, EventFilterWithPage, EventsPage, max_events_keys, max_events_chunk_size, block_range,
  events_at, matching_at, event_match_filter, keys_of, start_token, get_events,
}
use deoxys.Rpc.GetEvents.Paging.{remaining, IsPosition, IsPage, NextIs, first_page}

module _ {F : Type 0} ⦃e : Eq F⦄ where
  -- The events of a block that a filter lets through.
  abbrev pub matching :
      (ℕ → List (EmittedEvent F)) → EventFilterWithPage F → ℕ → List (EmittedEvent F)
  matching raw f b = filter (λ event. event_match_filter event f.address (keys_of f.keys)) (raw b)

  -- A request within the limits, over the blocks `from` to `to`, whose blocks all load.
  pub record IsServable (starknet : Starknet F) (raw : ℕ → List (EmittedEvent F)) (from to last : ℕ)
      (f : EventFilterWithPage F) : Type 0 where
    pub keys_fit : length (keys_of f.keys) ≤ max_events_keys
    pub chunk_pos : 0 < f.chunk_size
    pub chunk_fits : f.chunk_size ≤ max_events_chunk_size
    pub range : block_range f.from_block f.to_block starknet ≡ ok (from, to, last)
    pub ordered : from ≤ to
    pub loads : (b : ℕ) → b ≤ to → events_at starknet last b ≡ ok (raw b)

module _ {F : Type 0} ⦃e : Eq F⦄ (starknet : Starknet F) (raw : ℕ → List (EmittedEvent F))
    (from to last : ℕ) where
  -- A request within the limits, with a chunk size above 0 and over blocks that load, from a position of
  -- the range gives one page of the matching events from there on: as many as the chunk size and no
  -- others, in order, and a token for the rest exactly when a page was filled.
  pub get_events-IsPage :
      (f : EventFilterWithPage F) (position : ContinuationToken)
      → IsServable starknet raw from to last f
      → start_token f.continuation_token from ≡ ok position
      → IsPosition (matching raw f) to position
      → (page : EventsPage F) × (get_events starknet f ≡ ok page)
        × IsPage (matching raw f) to f.chunk_size (remaining (matching raw f) to position) page
  unfolding get_events
  get_events-IsPage f position s token p =
      let keys_ok : ltb max_events_keys (length (keys_of f.keys)) ≡ false =
        ground (arith, s.keys_fit) in
      let chunk_ok : ltb max_events_chunk_size f.chunk_size ≡ false =
        ground (arith, s.chunk_fits) in
      let order_ok : ltb to from ≡ false = ground (arith, s.ordered) in
      let found =
        first_page (matching raw f) to (matching_at starknet f.address (keys_of f.keys) last)
          (λ b h. unfold matching_at in rw (s.loads b h)) position f.chunk_size s.chunk_pos p in
      (found.0, rw (keys_ok, chunk_ok, s.range, token, order_ok) found.1, found.2)

  -- A client that asks for page after page until there is no token.
  pub fetch_pages : ℕ → EventFilterWithPage F → Result StarknetRpcApiError (List (EmittedEvent F))
  fetch_pages zero f = err internal_server_error
  fetch_pages (suc fuel) f = do
    page ← get_events starknet f
    elim page.continuation_token [
      | none ↦ ok page.events
      | some s ↦ fetch_pages fuel (record f { continuation_token = some s }) >>= λ rest.
          ok (page.events ++ rest)
    ]

module _ {F : Type 0} ⦃e : Eq F⦄ (starknet : Starknet F) (raw : ℕ → List (EmittedEvent F))
    (from to last : ℕ) (to_fits : to < u64_mod) where
  -- The rest of the events, once the client has a page and its token.
  rest_pages :
      (fuel : ℕ) (f : EventFilterWithPage F) (total : List (EmittedEvent F)) (page : EventsPage F)
      → IsServable starknet raw from to last f
      → ((b : ℕ) → b ≤ to → length (matching raw f b) < u64_mod)
      → ((position : ContinuationToken) (s : List ℕ)
          → parse s ≡ ok position
          → IsPosition (matching raw f) to position
          → length (remaining (matching raw f) to position) < fuel
          → fetch_pages starknet raw from to last fuel (record f { continuation_token = some s })
            ≡ ok (remaining (matching raw f) to position))
      → length total < suc fuel
      → get_events starknet f ≡ ok page
      → IsPage (matching raw f) to f.chunk_size total page
      → (ct : Option (List ℕ)) → page.continuation_token ≡ ct
      → NextIs (matching raw f) to f.chunk_size total ct
      → fetch_pages starknet raw from to last (suc fuel) f ≡ ok total
  unfolding fetch_pages
  rest_pages fuel f total page s sizes ih hf got p none he short =
      rw (got, he) (ap ok (p.events ∙ take-all f.chunk_size total (omega arith)))
  rest_pages fuel f total page s sizes ih hf got p (some t) he (next, ht, position, filled, left) =
      let read : parse t ≡ ok next = rw ht (
        parse-to_string next (omega (arith, position.in_range, to_fits))
          (omega (arith, position.in_block, sizes next.block_n position.in_range))) in
      let fewer : length (remaining (matching raw f) to next) < fuel =
        rw left (omega (arith, length-drop f.chunk_size total, s.chunk_pos)) in
      rw (got, he, ih next t read position fewer, p.events, left)
        (ap ok (take-append-drop f.chunk_size total))

  -- For a request with at most the allowed number of keys and a chunk size from 1 to the allowed one,
  -- over a range that is in order, whose blocks all load and hold fewer than 2^64 matching events each,
  -- and whose last block is below 2^64: following the tokens from any position of the range, a client
  -- gets every matching event of the range from there on, once and in order, with as many requests as
  -- there are events, and one more.
  pub fetch_pages_complete :
      (fuel : ℕ) (f : EventFilterWithPage F) (position : ContinuationToken)
      → IsServable starknet raw from to last f
      → ((b : ℕ) → b ≤ to → length (matching raw f b) < u64_mod)
      → start_token f.continuation_token from ≡ ok position
      → IsPosition (matching raw f) to position
      → length (remaining (matching raw f) to position) < fuel
      → fetch_pages starknet raw from to last fuel f ≡ ok (remaining (matching raw f) to position)
  fetch_pages_complete zero f position s sizes token p h = elim h [ ]
  fetch_pages_complete (suc fuel) f position s sizes token p h =
      let (page, got, is_page) = get_events-IsPage starknet raw from to last f position s token p in
      rest_pages fuel f (remaining (matching raw f) to position) page s sizes
        (λ next t read at fewer.
          fetch_pages_complete fuel (record f { continuation_token = some t }) next
            (record {
              keys_fit = s.keys_fit;
              chunk_pos = s.chunk_pos;
              chunk_fits = s.chunk_fits;
              range = s.range;
              ordered = s.ordered;
              loads = s.loads;
            })
            sizes (rw read) at fewer)
        h got is_page page.continuation_token refl is_page.next
