-- ===== src/Rpc/GetEvents/Errors.antt =====
-- The refusals of `get_events` and its default range
-- (crates/client/rpc/src/methods/read/get_events.rs).
use deoxys.Base.{
  zero, suc, ◌+◌, ◌≤◌, ◌≡◌, true, false, some, none, Option, List, [], arith, length, ltb, Bool,
  Bool-cases, ◌-◌, ◌++◌, ℕ, inl, inr, take, drop, length-append, length-take, ◌==◌, if◌then◌else◌,
}
use deoxys.Base.Outcome.{Result, ok, err, >>=-eq-ok}
use deoxys.Base.Assoc.{Eq}
use deoxys.Rpc.Types.{latest, number, tag, StarknetRpcApiError, EmittedEvent}
use deoxys.Rpc.Token.{ContinuationToken}
use deoxys.Rpc.GetEvents.{
  Starknet, EventFilterWithPage, EventsPage, page_loop, max_events_keys, max_events_chunk_size,
  block_range, keys_of, start_token, get_events, matching_at,
}

module _ {F : Type 0} (fetch : ℕ → Result StarknetRpcApiError (List (EmittedEvent F))) where
  stop_or_go :
      (bad full : Bool) (chunk : ℕ) (x : StarknetRpcApiError) (acc : List (EmittedEvent F))
      (next : Option (List ℕ)) (rest : Result StarknetRpcApiError (EventsPage F))
      (page : EventsPage F)
      → length acc ≤ chunk
      → (rest ≡ ok page → length page.events ≤ chunk)
      → (if bad
          then err x
          else if full
          then ok (record { events = acc; continuation_token = next })
          else rest)
        ≡ ok page
      → length page.events ≤ chunk
  stop_or_go true full chunk x acc next rest page h k e = cc
  stop_or_go false true chunk x acc next rest page h k e = ground arith
  stop_or_go false false chunk x acc next rest page h k e = k e

  page_loop_bound :
      (token : ContinuationToken) (chunk rounds current : ℕ) (acc : List (EmittedEvent F))
      (page : EventsPage F)
      → length acc ≤ chunk
      → page_loop fetch token chunk rounds current acc ≡ ok page
      → length page.events ≤ chunk
  unfolding page_loop
  page_loop_bound token chunk zero current acc page h e = ground arith
  page_loop_bound token chunk (suc rounds) current acc page h e =
      let (es, loaded, e') = >>=-eq-ok (fetch current) _ e in
      let skipped = drop (if current == token.block_n then token.event_n else 0) es in
      let acc' = acc ++ take (chunk - length acc) skipped in
      let fits : length acc' ≤ chunk = omega (
        arith,
        h,
        length-append acc (take (chunk - length acc) skipped),
        length-take (chunk - length acc) skipped,
      ) in
      stop_or_go _ _ chunk _ acc' _ _ page fits
        (page_loop_bound token chunk rounds (current + 1) acc' page fits) e'

page_in_order :
    {F : Type 0} (b : Bool) {chunk : ℕ} {rest : Result StarknetRpcApiError (EventsPage F)}
    (page : EventsPage F)
    → (rest ≡ ok page → length page.events ≤ chunk)
    → (if b then ok (record { events = []; continuation_token = none }) else rest) ≡ ok page
    → length page.events ≤ chunk
page_in_order true page k e = ground arith
page_in_order false page k e = k e

module _ {F : Type 0} ⦃e : Eq F⦄ (starknet : Starknet F) (f : EventFilterWithPage F) where
  -- A request is served only within both limits, over a range that resolves and from a token that
  -- parses, and the page holds no more events than the chunk size.
  pub get_events_served :
      (page : EventsPage F)
      → get_events starknet f ≡ ok page
      → (length (keys_of f.keys) ≤ max_events_keys)
        × (f.chunk_size ≤ max_events_chunk_size)
        × (length page.events ≤ f.chunk_size)
        × ((range : ℕ × ℕ × ℕ) × (token : ContinuationToken) × (block_range f.from_block f.to_block
                starknet
              ≡ ok range)
            × (start_token f.continuation_token range.0 ≡ ok token))
  unfolding get_events
  get_events_served page h = elim (Bool-cases (ltb max_events_keys (length (keys_of f.keys)))) [
    | inl many ↦ cc (rw many at h)
    | inr few ↦ elim (Bool-cases (ltb max_events_chunk_size f.chunk_size)) [
      | inl large ↦ cc (rw (few, large) at h)
      | inr small ↦
          let (range, ranged, h₁) = >>=-eq-ok _ _ (rw (few, small) at h) in
          let (token, parsed, h₂) = >>=-eq-ok _ _ h₁ in
          (
            ground (arith, few),
            ground (arith, small),
            page_in_order (ltb range.1 range.0) page
                (λ p.
                  page_loop_bound (matching_at starknet f.address (keys_of f.keys) range.2) token
                    f.chunk_size (range.1 + 1 - token.block_n) token.block_n [] page (omega arith)
                    p)
                h₂,
            (range, token, ranged, parsed),
          )
    ]
  ]

  -- Where the request names no last block, the range ends at block 0: from any later block the page is
  -- empty and has no token.
  pub get_events_no_to_block :
      (n last : ℕ) (token : ContinuationToken)
      → f.from_block ≡ some (number (suc n))
      → f.to_block ≡ none
      → ((k : ℕ) → starknet.substrate_block_number (number k) ≡ ok k)
      → starknet.substrate_block_number (tag latest) ≡ ok last
      → length (keys_of f.keys) ≤ max_events_keys
      → f.chunk_size ≤ max_events_chunk_size
      → start_token f.continuation_token (suc n) ≡ ok token
      → get_events starknet f ≡ ok (record { events = []; continuation_token = none })
  unfolding get_events block_range
  get_events_no_to_block n last token hf ht numbers hl hk hc hp =
      ground (arith, numbers 0, numbers (suc n))
