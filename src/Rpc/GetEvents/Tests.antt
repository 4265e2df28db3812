-- ===== src/Rpc/GetEvents/Tests.antt =====
-- Concrete requests: three blocks with five events, paged two at a time.
use deoxys.Base.{
  ℕ, zero, suc, ◌≤◌, ◌<◌, ◌≡◌, refl, true, none, some, List, [], ◌∷◌, arith, length, ◌↔◌,
}
use deoxys.Base.Outcome.{Result, ok, err}
use deoxys.Base.Assoc.{nat_Eq}
use deoxys.Rpc.Types.{
  latest, BlockId, number, tag, hash, StarknetRpcApiError, block_not_found, EmittedEvent,
}
use deoxys.Rpc.Token.{ContinuationToken, u64_mod, u64_to_string, parse, to_string}
use deoxys.Rpc.Token.RoundTrip.{parse-to_string}
use deoxys.Rpc.GetEvents.{
  Starknet, EventFilterWithPage, EventsPage, max_events_keys, max_events_chunk_size, block_range,
  events_at, event_match_filter, matching_at, keys_of, start_token, get_events, match_keys,
}
use deoxys.Rpc.GetEvents.Paging.{remaining, IsPosition, IsPage}
use deoxys.Rpc.GetEvents.Pages.{
  matching, IsServable, get_events-IsPage, fetch_pages, fetch_pages_complete,
}
use deoxys.Rpc.GetEvents.Filter.{AllMatch, match_keys_iff}
use deoxys.Rpc.GetEvents.Errors.{get_events_served}

abbrev event : ℕ → ℕ → EmittedEvent ℕ
event b t = record {
  from_address = 7;
  keys = 1 ∷ 5 ∷ [];
  values = [];
  block_hash = none;
  block_number = some b;
  transaction_hash = t;
}

abbrev raw : ℕ → List (EmittedEvent ℕ)
raw zero = event 0 1 ∷ []
raw (suc zero) = event 1 2 ∷ event 1 3 ∷ event 1 4 ∷ []
raw (suc (suc n)) = event 2 5 ∷ []

abbrev events_of : BlockId ℕ → Result StarknetRpcApiError (List (EmittedEvent ℕ))
events_of (number n) = ok (raw n)
events_of (tag t) = ok (raw 3)
events_of (hash h) = err block_not_found

abbrev number_of : BlockId ℕ → Result StarknetRpcApiError ℕ
number_of (number n) = ok n
number_of (tag t) = ok 2
number_of (hash h) = err block_not_found

abbrev starknet : Starknet ℕ
starknet = record { get_block_events = events_of; substrate_block_number = number_of }

abbrev request : EventFilterWithPage ℕ
request = record {
  from_block = some (number 0);
  to_block = some (tag latest);
  address = some 7;
  keys = some ((1 ∷ 2 ∷ []) ∷ [] ∷ []);
  continuation_token = none;
  chunk_size = 2;
}

abbrev start : ContinuationToken
start = record { block_n = 0; event_n = 0 }

request-IsServable : IsServable starknet raw 0 2 2 request
unfolding block_range
request-IsServable = record {
  keys_fit = omega arith;
  chunk_pos = omega arith;
  chunk_fits = omega arith;
  range = refl;
  ordered = omega arith;
  loads = λ b h. loaded b h;
}
  where
    loaded : (b : ℕ) → b ≤ 2 → events_at starknet 2 b ≡ ok (raw b)
    loaded b h = unfold events_at in ground arith

start-IsPosition : IsPosition (matching raw request) 2 start
start-IsPosition = record { in_range = omega arith; in_block = omega arith }

sizes : (b : ℕ) → b ≤ 2 → length (matching raw request b) < u64_mod
unfolding event_match_filter
sizes zero h = omega arith
sizes (suc zero) h = omega arith
sizes (suc (suc n)) h = omega arith

get_events-IsPage_example :
    (page : EventsPage ℕ) × (get_events starknet request ≡ ok page)
    × IsPage (matching raw request) 2 2 (remaining (matching raw request) 2 start) page
get_events-IsPage_example =
    get_events-IsPage starknet raw 0 2 2 request start request-IsServable refl start-IsPosition

fetch_pages_complete_example :
    fetch_pages starknet raw 0 2 2 6 request ≡ ok (remaining (matching raw request) 2 start)
unfolding event_match_filter
fetch_pages_complete_example =
    fetch_pages_complete starknet raw 0 2 2 (omega arith) 6 request start request-IsServable sizes
      refl start-IsPosition (omega arith)

abbrev patterns : List (List ℕ)
patterns = (1 ∷ 2 ∷ []) ∷ [] ∷ []

abbrev event_keys : List ℕ
event_keys = 1 ∷ 5 ∷ []

match_keys_iff_example : (match_keys patterns event_keys ≡ true) ↔ AllMatch patterns event_keys
match_keys_iff_example = match_keys_iff patterns event_keys

abbrev first : EventsPage ℕ
first = record {
  events = event 0 1 ∷ event 1 2 ∷ [];
  continuation_token = some (b'1' ∷ b'-' ∷ b'1' ∷ []);
}

first_served : get_events starknet request ≡ ok first
unfolding get_events block_range matching_at event_match_filter to_string u64_to_string
first_served = refl

get_events_served_example :
    (length (keys_of request.keys) ≤ max_events_keys)
    × (request.chunk_size ≤ max_events_chunk_size)
    × (length first.events ≤ request.chunk_size)
    × ((range : ℕ × ℕ × ℕ) × (token : ContinuationToken) × (block_range request.from_block
            request.to_block starknet
          ≡ ok range)
        × (start_token request.continuation_token range.0 ≡ ok token))
get_events_served_example = get_events_served starknet request first first_served

abbrev open_request : EventFilterWithPage ℕ
open_request = record request { from_block = some (number 1); to_block = none }

parse-to_string_example :
    parse (to_string (record { block_n = 12; event_n = 7 }))
    ≡ ok (record { block_n = 12; event_n = 7 })
parse-to_string_example =
    parse-to_string (record { block_n = 12; event_n = 7 }) (omega arith) (omega arith)
