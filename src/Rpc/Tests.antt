-- ===== src/Rpc/Tests.antt =====
-- The theorem on extracted events at a call with an inner call.
use deoxys.Base.{ℕ, ◌≡◌, Bool, true, [], ◌∷◌}
use deoxys.Pallet.CallInfo.{Calls, call_info, no_calls, next_call}
use deoxys.Pallet.Emission.{done, emit, enter}
use deoxys.Rpc.CallInfo.{count, extract_events_from_call_info, extract_events-Execution}

abbrev inner_call : Calls ℕ ℕ ℕ
inner_call = next_call (call_info 2 ((1, 60) ∷ []) [] no_calls) no_calls

abbrev any_event : ℕ × ℕ → Bool
any_event event = true

extract_events-Execution_example :
    count any_event
      (extract_events_from_call_info (call_info 1 ((0, 50) ∷ (2, 70) ∷ []) [] inner_call))
    ≡ 3
extract_events-Execution_example =
    extract_events-Execution ((0, 50) ∷ (2, 70) ∷ []) [] any_event
      (emit (enter (emit done) (emit done)))
