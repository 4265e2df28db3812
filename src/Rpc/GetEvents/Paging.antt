-- ===== src/Rpc/GetEvents/Paging.antt =====
-- The loop of `get_events` (crates/client/rpc/src/methods/read/get_events.rs) over blocks that
-- load: what one page holds, and where its token points.
use deoxys.Base.{
  ℕ, zero, suc, ◌+◌, ◌-◌, ◌≤◌, ◌<◌, ◌≡◌, refl, sym, ap, ◌∙◌, true, false, Option, none, some, List,
  [], ◌++◌, arith, ltb, ◌==◌, length, take, drop, take-append_long, take-append_short,
  drop-append_long, drop-append_short, take-all, length-take, length-append, append_assoc,
  append-nil, drop-drop, ◌≢◌, Bool-cases, inl, inr, ==_iff, length-drop,
}
use deoxys.Base.Outcome.{Result, ok}
use deoxys.Rpc.Types.{StarknetRpcApiError, EmittedEvent}
use deoxys.Rpc.Token.{ContinuationToken, to_string}
use deoxys.Rpc.GetEvents.{EventsPage, page_loop}

module _ {F : Type 0} (evs : ℕ → List (EmittedEvent F)) where
  -- The matching events of `rounds` blocks from `current` on.
  abbrev pub all_from : ℕ → ℕ → List (EmittedEvent F)
  all_from zero current = []
  all_from (suc rounds) current = evs current ++ all_from rounds (current + 1)

  -- The matching events of a position up to the last block of the range.
  abbrev pub remaining : ℕ → ContinuationToken → List (EmittedEvent F)
  remaining to token = drop token.event_n (all_from (to + 1 - token.block_n) token.block_n)

  -- A position in the range, no further than the end of its block.
  pub record IsPosition (to : ℕ) (token : ContinuationToken) : Type 0 where
    pub in_range : token.block_n ≤ to
    pub in_block : token.event_n ≤ length (evs token.block_n)

  -- What the token of a page says of the events that were left: fewer than a page, or the rest
  -- after this page.
  abbrev pub NextIs : ℕ → ℕ → List (EmittedEvent F) → Option (List ℕ) → Type 0
  NextIs to chunk total none = length total < chunk
  NextIs to chunk total (some s) =
      (next : ContinuationToken) × (s ≡ to_string next)
      × IsPosition to next
      × (chunk ≤ length total)
      × (remaining to next ≡ drop chunk total)

  pub record IsPage (to chunk : ℕ) (total : List (EmittedEvent F)) (page : EventsPage F)
      : Type 0 where
    pub events : page.events ≡ take chunk total
    pub next : NextIs to chunk total page.continuation_token

module _ {F : Type 0} (evs : ℕ → List (EmittedEvent F)) (to : ℕ)
    (fetch : ℕ → Result StarknetRpcApiError (List (EmittedEvent F)))
    (loads : (b : ℕ) → b ≤ to → fetch b ≡ ok (evs b)) (token : ContinuationToken) (chunk : ℕ) where
  abbrev Outcome : List (EmittedEvent F) → Result StarknetRpcApiError (EventsPage F) → Type 0
  Outcome total r = (page : EventsPage F) × (r ≡ ok page) × IsPage evs to chunk total page

  -- An outcome, read at equal events and an equal result.
  Outcome-cast :
      {total total' : List (EmittedEvent F)} {r r' : Result StarknetRpcApiError (EventsPage F)}
      → total' ≡ total
      → r' ≡ r
      → Outcome total r
      → Outcome total' r'
  Outcome-cast p q o = rw (p, q) o

  rounds_left : (current rounds : ℕ) → current + suc rounds ≡ to + 1 → to + 1 - current ≡ suc rounds
  rounds_left current rounds h = omega arith

  -- A full page that ends inside the block `current`, after `n` of its events.
  full-IsPage :
      (rounds current n : ℕ) (acc reduced total : List (EmittedEvent F))
      → current + suc rounds ≡ to + 1
      → n ≤ length (evs current)
      → acc ++ reduced ≡ take chunk total
      → chunk ≤ length total
      → drop n (all_from evs (suc rounds) current) ≡ drop chunk total
      → IsPage evs to chunk total (record {
        events = acc ++ reduced;
        continuation_token = some (to_string (record { block_n = current; event_n = n }));
      })
  full-IsPage rounds current n acc reduced total hr hn he hc hd = record {
    events = he;
    next = (
      record { block_n = current; event_n = n },
      refl,
      record { in_range = omega arith; in_block = hn },
      hc,
      ap (λ (k : ℕ). drop n (all_from evs k current)) (rounds_left current rounds hr) ∙ hd,
    );
  }

  -- The loop after the token's block, from events that do not fill a page.
  later :
      (rounds current : ℕ) (acc : List (EmittedEvent F))
      → token.block_n < current
      → current + rounds ≡ to + 1
      → length acc < chunk
      → Outcome
          (acc ++ all_from evs rounds current)
          (page_loop fetch token chunk rounds current acc)
  unfolding page_loop
  later zero current acc hb hr hc = (
    record { events = acc; continuation_token = none },
    refl,
    record {
      events =
          sym (take-all chunk (acc ++ []) (omega (arith, length-append acc [])) ∙ append-nil acc);
      next = omega (arith, length-append acc []);
    },
  )
  later (suc rounds) current acc hb hr hc =
      let k = chunk - length acc in
      let es = evs current in
      let rest = all_from evs rounds (current + 1) in
      let nf : (current == token.block_n) ≡ false = ground arith in
      elim (Bool-cases (length (acc ++ take k es) == chunk)) [
        | inl full ↦
            let eq : length (acc ++ take k es) ≡ chunk = (==_iff _ _).0 full in
            let fits : k ≤ length es =
              omega (arith, eq, length-append acc (take k es), length-take k es) in
            let size : length (take k es) ≡ k = omega (arith, length-take k es) in
            (
              record {
                events = acc ++ take k es;
                continuation_token =
                    some (to_string (record { block_n = current; event_n = length (take k es) }));
              },
              rw (loads current (omega arith), nf, full),
              full-IsPage rounds current (length (take k es)) acc (take k es) (acc ++ (es ++ rest))
                  hr (omega (arith, size))
                  (sym (
                    take-append_long chunk acc (es ++ rest) (omega arith)
                    ∙ ap (λ (t : List (EmittedEvent F)). acc ++ t)
                        (take-append_short k es rest fits)))
                  (omega (arith, length-append acc (es ++ rest), length-append es rest))
                  (ap (λ (j : ℕ). drop j (es ++ rest)) size
                    ∙ sym (drop-append_long chunk acc (es ++ rest) (omega arith))),
            )
        | inr more ↦
            let ne : length (acc ++ take k es) ≢ chunk = λ p. cc ((==_iff _ _).1 p) in
            let short : length es ≤ k =
              omega (arith, ne, length-append acc (take k es), length-take k es) in
            let whole : acc ++ take k es ≡ acc ++ es =
              ap (λ (t : List (EmittedEvent F)). acc ++ t) (take-all k es short) in
            Outcome-cast
              (sym (append_assoc acc es rest)
                ∙ ap (λ (t : List (EmittedEvent F)). t ++ rest) (sym whole))
              (rw (loads current (omega arith), nf, more))
              (later rounds (current + 1) (acc ++ take k es) (omega arith) (omega arith)
                (omega (arith, ne, length-append acc (take k es), length-take k es)))
      ]

  -- The loop from a position of the range.
  pub first_page :
      0 < chunk
      → IsPosition evs to token
      → Outcome
          (remaining evs to token)
          (page_loop fetch token chunk (to + 1 - token.block_n) token.block_n [])
  unfolding page_loop
  first_page hc position =
      let es = evs token.block_n in
      let n = token.event_n in
      let rounds = to - token.block_n in
      let rest = all_from evs rounds (token.block_n + 1) in
      let here : (token.block_n == token.block_n) ≡ true = ground arith in
      let inside : ltb (length es) n ≡ false = ground (arith, position.in_block) in
      let none_yet : chunk - 0 ≡ chunk = omega arith in
      let shape : to + 1 - token.block_n ≡ suc rounds = omega (arith, position.in_range) in
      let total : drop n (es ++ rest) ≡ drop n es ++ rest =
        drop-append_short n es rest position.in_block in
      rw shape (elim (Bool-cases (length (take chunk (drop n es)) == chunk)) [
        | inl full ↦
            let eq : length (take chunk (drop n es)) ≡ chunk = (==_iff _ _).0 full in
            let fits : chunk ≤ length (drop n es) =
              omega (arith, eq, length-take chunk (drop n es)) in
            (
              record {
                events = take chunk (drop n es);
                continuation_token =
                    some (to_string (record { block_n = token.block_n; event_n = n + chunk }));
              },
              rw (loads token.block_n position.in_range, here, inside, none_yet, full),
              full-IsPage rounds token.block_n (n + chunk) [] (take chunk (drop n es))
                  (drop n (es ++ rest)) (omega (arith, position.in_range))
                  (omega (arith, fits, length-drop n es, position.in_block))
                  (rw total (sym (take-append_short chunk (drop n es) rest fits)))
                  (rw total (omega (arith, fits, length-append (drop n es) rest)))
                  (sym (drop-drop chunk n (es ++ rest))),
            )
        | inr more ↦
            let ne : length (take chunk (drop n es)) ≢ chunk = λ p. cc ((==_iff _ _).1 p) in
            let short : length (drop n es) ≤ chunk =
              omega (arith, ne, length-take chunk (drop n es)) in
            Outcome-cast
              (total
                ∙ ap (λ (t : List (EmittedEvent F)). t ++ rest)
                    (sym (take-all chunk (drop n es) short)))
              (rw (loads token.block_n position.in_range, here, inside, none_yet, more))
              (later rounds (token.block_n + 1) (take chunk (drop n es)) (omega arith)
                (omega (arith, position.in_range))
                (omega (arith, ne, length-take chunk (drop n es))))
      ])
