-- ===== src/Pallet/CallInfo.antt =====
-- How the events and messages of a call and its inner calls are put in order:
-- crates/pallets/starknet/src/lib.rs. `A` are addresses, `E` events and `M` messages.
use deoxys.Base.{ℕ, suc, List, [], ◌∷◌, ◌++◌, ◌==◌, if◌then◌else◌}

-- `OrderedEvent` and `OrderedL2ToL1Message`.
abbrev pub Ordered : Type 0 → Type 0
Ordered X = ℕ × X

mutual
  pub data CallInfo (A E M : Type 0) : Type 0 where
    call_info : A → List (Ordered E) → List (Ordered M) → Calls A E M → CallInfo A E M

  pub data Calls (A E M : Type 0) : Type 0 where
    no_calls : Calls A E M
    next_call : CallInfo A E M → Calls A E M → Calls A E M

-- What was emitted, with the address it is from, what is left of the call's own, and the next order.
abbrev pub Emitted : Type 0 → Type 0 → Type 0
Emitted A X = List (A × X) × List (Ordered X) × ℕ

module _ {A X : Type 0} (address : A) where
  -- `if ordered.order == next_order { ..; continue }`: the items that have sequential orders.
  unfoldable pub sequential : List (Ordered X) → ℕ → Emitted A X
  sequential [] next_order = ([], [], next_order)
  sequential ((order, x) ∷ own) next_order =
      let (out, left, next) = sequential own (suc next_order) in
      if order == next_order
      then ((address, x) ∷ out, left, next)
      else ([], (order, x) ∷ own, next_order)

module _ {A E M X : Type 0} (own_of : List (Ordered E) → List (Ordered M) → List (Ordered X)) where
  -- The loop over the inner calls, with the address of the call and what is left of its own items: after
  -- an inner call the call's own items may continue the sequence.
  unfoldable pub inner_calls : A → List (Ordered X) → Calls A E M → ℕ → List (A × X) × ℕ
  unfolding sequential
  inner_calls address left no_calls next_order = ([], next_order)
  inner_calls address left (next_call (call_info inner events messages calls) rest) next_order =
      let (out, inner_left, next) = sequential inner (own_of events messages) next_order in
      let (out_inner, next) = inner_calls inner inner_left calls next in
      let (out_own, left, next) = sequential address left next in
      let (out_rest, next) = inner_calls address left rest next in
      (out ++ (out_inner ++ (out_own ++ out_rest)), next)

  -- The whole loop of a call.
  unfoldable pub call_loop : A → List (Ordered X) → Calls A E M → ℕ → List (A × X) × ℕ
  unfolding inner_calls
  call_loop address own calls next_order =
      let (out, left, next) = sequential address own next_order in
      let (out_inner, next) = inner_calls address left calls next in (out ++ out_inner, next)

module _ {E M : Type 0} where
  abbrev pub events_of : List (Ordered E) → List (Ordered M) → List (Ordered E)
  events_of events messages = events

  abbrev pub messages_of : List (Ordered E) → List (Ordered M) → List (Ordered M)
  messages_of events messages = messages

module _ {A E M : Type 0} where
  -- The events that are deposited and stored, and the next order.
  unfoldable pub emit_events_in_call_info : CallInfo A E M → ℕ → List (A × E) × ℕ
  unfolding call_loop
  emit_events_in_call_info (call_info address events messages calls) next_order =
      call_loop events_of address events calls next_order

  -- The messages that are stored, and the next order.
  unfoldable pub aggregate_messages_in_call_info : CallInfo A E M → ℕ → List (A × M) × ℕ
  unfolding call_loop
  aggregate_messages_in_call_info (call_info address events messages calls) next_order =
      call_loop messages_of address messages calls next_order
