-- ===== src/Pallet/Emission.antt =====
-- Everything that a call emitted is found, in the order of the execution:
-- crates/pallets/starknet/src/lib.rs.
use deoxys.Base.{
  ℕ, suc, ◌+◌, ◌<◌, ◌≡◌, refl, sym, ap, ◌∙◌, List, [], ◌∷◌, ◌++◌, ==_refl, length, length-append,
  append_assoc, arith,
}
use deoxys.Pallet.CallInfo.{
  Ordered, Emitted, Calls, call_info, no_calls, next_call, sequential, inner_calls, call_loop,
  events_of, messages_of, emit_events_in_call_info, aggregate_messages_in_call_info,
}

n_plus : (n : ℕ) → n ≡ n + 0
n_plus n = omega arith

append-empty : {Y : Type 0} (xs ys : List Y) → xs ++ ys ≡ [] → (xs ≡ []) × (ys ≡ [])
append-empty [] ys e = (refl, e)
append-empty (x ∷ xs) ys e = cc e

module _ {A E M X : Type 0} (own_of : List (Ordered E) → List (Ordered M) → List (Ordered X)) where
  -- An execution of a call at an address, from an order on: its own items, its inner calls, and what is
  -- emitted. An item takes the next order; an inner call runs before what follows it.
  pub data Execution : A → ℕ → List (Ordered X) → Calls A E M → List (A × X) → Type 0 where
    done : {address : A} {n : ℕ} → Execution address n [] no_calls []
    emit :
        {address : A} {n : ℕ} {x : X} {own : List (Ordered X)} {calls : Calls A E M}
        {out : List (A × X)}
        → Execution address (suc n) own calls out
        → Execution address n ((n, x) ∷ own) calls ((address, x) ∷ out)
    enter :
        {address inner : A} {n : ℕ} {own : List (Ordered X)} {rest : Calls A E M}
        {out out_inner : List (A × X)} {events : List (Ordered E)} {messages : List (Ordered M)}
        {calls : Calls A E M}
        → Execution inner n (own_of events messages) calls out_inner
        → Execution address (n + length out_inner) own rest out
        → Execution address n own
            (next_call (call_info inner events messages calls) rest)
            (out_inner ++ out)

  -- The loop at an inner call: `s` is what the call's own items gave before it.
  abbrev entered :
      A → A → List (Ordered X) → Calls A E M → Calls A E M → Emitted A X → List (A × X) × ℕ
  entered address inner own_inner calls rest s =
      let c = call_loop own_of inner own_inner calls s.2 in
      let d = call_loop own_of address s.1 rest c.1 in (s.0 ++ (c.0 ++ d.0), d.1)

  call_loop-entered :
      (address inner : A) (n : ℕ) (own : List (Ordered X)) (events : List (Ordered E))
      (messages : List (Ordered M)) (calls rest : Calls A E M)
      → call_loop own_of address own (next_call (call_info inner events messages calls) rest) n
        ≡ entered address inner (own_of events messages) calls rest (sequential address own n)
  unfolding call_loop inner_calls
  call_loop-entered address inner n own events messages calls rest =
      let s = sequential address own n in
      let t = sequential inner (own_of events messages) s.2 in
      let d = inner_calls own_of inner t.1 calls t.2 in
      let u = sequential address s.1 d.1 in
      let v = inner_calls own_of address u.1 rest u.2 in
      ap (λ (out : List (A × X)). (s.0 ++ out, v.1)) (sym (append_assoc t.0 d.0 (u.0 ++ v.0)))

  -- An execution that emits nothing has no items, and its loop gives nothing at any order.
  quiet :
      {address : A} {n : ℕ} {own : List (Ordered X)} {calls : Calls A E M} {out : List (A × X)}
      → Execution address n own calls out
      → out ≡ []
      → (own ≡ []) × ((j : ℕ) → inner_calls own_of address [] calls j ≡ ([], j))
  unfolding inner_calls
  quiet done e = (refl, λ j. refl)
  quiet (emit run) e = cc e
  quiet (enter {out = out} {out_inner = out_inner} run_inner run) e =
      let empty = append-empty out_inner out e in
      let inside = quiet run_inner empty.0 in
      let after = quiet run empty.1 in (after.0, λ j. rw (inside.0, inside.1 j, after.1 j))

  -- The items of an execution that starts later do not continue the sequence.
  sequential-later :
      {address : A} {m : ℕ} {own : List (Ordered X)} {calls : Calls A E M} {out : List (A × X)}
      (n : ℕ)
      → Execution address m own calls out
      → n < m
      → sequential address own n ≡ ([], own, n)
  unfolding sequential
  sequential-later n done late = refl
  sequential-later n (emit run) late = ground arith
  sequential-later n (enter run_inner run) late = sequential-later n run (omega arith)

  -- What is left does not continue the sequence.
  sequential-left :
      (address : A) (own : List (Ordered X)) (n : ℕ)
      → let s = sequential address own n in sequential address s.1 s.2 ≡ ([], s.1, s.2)
  unfolding sequential
  sequential-left address [] n = refl
  sequential-left address ((order, x) ∷ own) n = ground (arith, sequential-left address own (suc n))

  quiet-loop :
      {address : A} {n : ℕ} {own : List (Ordered X)} {calls : Calls A E M}
      → Execution address n own calls []
      → (j : ℕ) → call_loop own_of address own calls j ≡ ([], j)
  unfolding call_loop sequential
  quiet-loop run j = let silent = quiet run refl in rw (silent.0, silent.1 j)

  call_loop-left :
      (address : A) (own : List (Ordered X)) (rest : Calls A E M) (n : ℕ)
      → let s = sequential address own n in
        call_loop own_of address s.1 rest s.2 ≡ inner_calls own_of address s.1 rest s.2
  unfolding call_loop
  call_loop-left address own rest n =
      ap (λ (t : Emitted A X). let d = inner_calls own_of address t.1 rest t.2 in (t.0 ++ d.0, d.1))
        (sequential-left address own n)

  call_loop-split :
      (address : A) (own : List (Ordered X)) (rest : Calls A E M) (n : ℕ)
      → let s = sequential address own n in
        let d = inner_calls own_of address s.1 rest s.2 in
        (s.0 ++ d.0, d.1) ≡ call_loop own_of address own rest n
  unfolding call_loop
  call_loop-split address own rest n = refl

  -- The loop at an inner call, once the calls' own loops are known.
  at_inner :
      (address inner : A) (n : ℕ) (own : List (Ordered X)) (rest : Calls A E M)
      (out out_inner : List (A × X)) (events : List (Ordered E)) (messages : List (Ordered M))
      (calls : Calls A E M)
      → Execution inner n (own_of events messages) calls out_inner
      → Execution address (n + length out_inner) own rest out
      → call_loop own_of inner (own_of events messages) calls n ≡ (out_inner, n + length out_inner)
      → call_loop own_of address own rest (n + length out_inner)
        ≡ (out, n + length out_inner + length out)
      → entered address inner (own_of events messages) calls rest (sequential address own n)
        ≡ (out_inner ++ out, n + length (out_inner ++ out))
  at_inner address inner n own rest out [] events messages calls run_inner run in_call in_rest =
      let s = sequential address own n in
      ap
        (λ (c : List (A × X) × ℕ).
          let d = call_loop own_of address s.1 rest c.1 in (s.0 ++ (c.0 ++ d.0), d.1))
        (quiet-loop run_inner s.2)
      ∙ ap (λ (d : List (A × X) × ℕ). (s.0 ++ d.0, d.1)) (call_loop-left address own rest n)
      ∙ call_loop-split address own rest n
      ∙ ap (λ (k : ℕ). call_loop own_of address own rest k) (n_plus n)
      ∙ in_rest
      ∙ ap (λ (k : ℕ). (out, k)) (omega arith)
  at_inner address inner n own rest out (o ∷ os) events messages calls run_inner run in_call
        in_rest =
      rw (sequential-later n run (omega arith), in_call, in_rest)
        (ap (λ (k : ℕ). ((o ∷ os) ++ out, k)) (omega (arith, length-append (o ∷ os) out)))

  call_loop-Execution :
      {address : A} {n : ℕ} {own : List (Ordered X)} {calls : Calls A E M} {out : List (A × X)}
      → Execution address n own calls out
      → call_loop own_of address own calls n ≡ (out, n + length out)
  unfolding call_loop inner_calls sequential
  call_loop-Execution done = ground arith
  call_loop-Execution {address = address} {n = n} (emit {x = x} {out = out} run) = rw (==_refl n) (
      ap (λ (p : List (A × X) × ℕ). ((address, x) ∷ p.0, p.1)) (call_loop-Execution run)
      ∙ ap (λ (k : ℕ). ((address, x) ∷ out, k)) (omega arith))
  call_loop-Execution {address = address} {n = n}
        (enter {inner = inner} {own = own} {rest = rest} {out = out} {out_inner = out_inner}
          {events = events} {messages = messages} {calls = calls} run_inner run) =
      call_loop-entered address inner n own events messages calls rest
      ∙ at_inner address inner n own rest out out_inner events messages calls run_inner run
          (call_loop-Execution run_inner) (call_loop-Execution run)

module _ {A E M : Type 0} where
  -- From a call whose events were ordered by its execution, inner calls included, every event is emitted,
  -- once, in the order of the execution and from the address of its own call, and the next order is
  -- returned.
  pub emit_events_in_call_info-Execution :
      {address : A} {n : ℕ} {calls : Calls A E M} {out : List (A × E)} (events : List (Ordered E))
      (messages : List (Ordered M))
      → Execution events_of address n events calls out
      → emit_events_in_call_info (call_info address events messages calls) n ≡ (out, n + length out)
  unfolding emit_events_in_call_info
  emit_events_in_call_info-Execution events messages run = call_loop-Execution events_of run

  -- From a call whose messages to L1 were ordered by its execution, inner calls included, every message
  -- is stored, once, in the order of the execution and from the address of its own call, and the next
  -- order is returned.
  pub aggregate_messages_in_call_info-Execution :
      {address : A} {n : ℕ} {calls : Calls A E M} {out : List (A × M)} (events : List (Ordered E))
      (messages : List (Ordered M))
      → Execution messages_of address n messages calls out
      → aggregate_messages_in_call_info (call_info address events messages calls) n
        ≡ (out, n + length out)
  unfolding aggregate_messages_in_call_info
  aggregate_messages_in_call_info-Execution events messages run =
      call_loop-Execution messages_of run
