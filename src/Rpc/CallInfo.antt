-- ===== src/Rpc/CallInfo.antt =====
-- The events and messages of a call as the traces give them: crates/client/rpc/src/utils.rs.
use deoxys.Base.{ℕ, suc, ◌+◌, ◌≡◌, refl, Bool, List, [], ◌∷◌, ◌++◌, if◌then◌else◌, arith}
use deoxys.Pallet.CallInfo.{
  Ordered, CallInfo, Calls, call_info, no_calls, next_call, events_of, messages_of,
}
use deoxys.Pallet.Emission.{Execution, done, emit, enter}

-- The items with the address that they are from, in the order of the call's own list.
abbrev pub from_address : {A X : Type 0} → A → List (Ordered X) → List (A × X)
from_address address [] = []
from_address address ((order, x) ∷ own) = (address, x) ∷ from_address address own

module _ {A E M X : Type 0} (own_of : List (Ordered E) → List (Ordered M) → List (Ordered X)) where
  -- `inner_calls.iter().flat_map(..)`
  unfoldable pub extract_calls : Calls A E M → List (A × X)
  extract_calls no_calls = []
  extract_calls (next_call (call_info address events messages calls) rest) =
      (from_address address (own_of events messages) ++ extract_calls calls) ++ extract_calls rest

module _ {A E M : Type 0} where
  unfoldable pub extract_events_from_call_info : CallInfo A E M → List (A × E)
  extract_events_from_call_info (call_info address events messages calls) =
      from_address address events ++ extract_calls events_of calls

  unfoldable pub extract_messages_from_call_info : CallInfo A E M → List (A × M)
  extract_messages_from_call_info (call_info address events messages calls) =
      from_address address messages ++ extract_calls messages_of calls

-- How many items pass a test.
abbrev pub count : {Y : Type 0} → (Y → Bool) → List Y → ℕ
count test [] = 0
count test (y ∷ ys) = let rest = count test ys in if test y then suc rest else rest

count-append :
    {Y : Type 0} (test : Y → Bool) (xs ys : List Y)
    → count test (xs ++ ys) ≡ count test xs + count test ys
count-append test [] ys = omega arith
count-append test (x ∷ xs) ys = ground (arith, count-append test xs ys)

module _ {A E M X : Type 0} (own_of : List (Ordered E) → List (Ordered M) → List (Ordered X))
    (test : A × X → Bool) where
  extract-Execution :
      {address : A} {n : ℕ} {own : List (Ordered X)} {calls : Calls A E M} {out : List (A × X)}
      → Execution own_of address n own calls out
      → count test (from_address address own ++ extract_calls own_of calls) ≡ count test out
  unfolding extract_calls
  extract-Execution done = refl
  extract-Execution {address = address} (emit {x = x} run) = ground (arith, extract-Execution run)
  extract-Execution {address = address}
        (enter {inner = inner} {own = own} {rest = rest} {out = out} {out_inner = out_inner}
          {events = events} {messages = messages} {calls = calls} run_inner run) =
      omega (
        arith,
        extract-Execution run_inner,
        extract-Execution run,
        count-append test (from_address address own) (
            (from_address inner (own_of events messages) ++ extract_calls own_of calls)
            ++ extract_calls own_of rest),
        count-append test
            (from_address inner (own_of events messages) ++ extract_calls own_of calls)
            (extract_calls own_of rest),
        count-append test (from_address address own) (extract_calls own_of rest),
        count-append test out_inner out,
      )

module _ {A E M : Type 0} where
  -- Of every kind of event the extraction gives as many as the execution emitted, each from the address of
  -- its own call.
  pub extract_events-Execution :
      {address : A} {n : ℕ} {calls : Calls A E M} {out : List (A × E)} (events : List (Ordered E))
      (messages : List (Ordered M)) (test : A × E → Bool)
      → Execution events_of address n events calls out
      → count test (extract_events_from_call_info (call_info address events messages calls))
        ≡ count test out
  unfolding extract_events_from_call_info
  extract_events-Execution events messages test run = extract-Execution events_of test run
