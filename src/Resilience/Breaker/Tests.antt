-- ===== src/Resilience/Breaker/Tests.antt =====
-- Runs of the circuit breaker (resilience.py).
use uyuni_ai.Common.{◌+◌, ◌≤◌, ◌≡◌, ◌↔◌, ◌⊎◌, refl, true, false, none, some, List, [], ◌∷◌, arith}
use uyuni_ai.Common.Result.{ok}
use uyuni_ai.Resilience.Breaker.{
  closed, opened, CircuitBreaker, init, acquire, is_opened, effective_state, snapshot, admit,
}
use uyuni_ai.Resilience.Breaker.Circuit.{
  IsValid, Event, acquires, fails, succeeds, run, init-IsValid, run-init-IsValid,
}
use uyuni_ai.Resilience.Breaker.Recovery.{
  Admitted, Due, Admitted-iff, retry_after_suffices, Refused,
}

-- three failures in a row open it for 30 ticks
abbrev fresh : CircuitBreaker
fresh = record {
  failure_threshold = 3;
  recovery_timeout = 30;
  state = closed;
  consecutive_failures = 0;
  opened_at = none;
  probe_in_flight = false;
}

fresh_made : init 3 30 ≡ ok fresh
unfolding init
fresh_made = refl

abbrev history : List Event
history = fails 1 ∷ fails 2 ∷ succeeds ∷ fails 4 ∷ fails 5 ∷ fails 6 ∷ acquires 36 ∷ []

run-init-IsValid_example : IsValid (run history fresh)
run-init-IsValid_example = run-init-IsValid 3 30 history fresh fresh_made

fresh-IsValid : IsValid fresh
fresh-IsValid = init-IsValid 3 30 fresh fresh_made

-- open since tick 6
abbrev tripped : CircuitBreaker
tripped = record {
  failure_threshold = 3;
  recovery_timeout = 30;
  state = opened;
  consecutive_failures = 3;
  opened_at = some 6;
  probe_in_flight = false;
}

tripped-IsValid : IsValid tripped
tripped-IsValid = record {
  threshold_pos = omega arith;
  timeout_pos = omega arith;
  closed_below = refl;
  opened_known = refl;
  probing = λ h. ground arith;
}

Admitted-iff_example : Admitted 36 tripped ↔ ((tripped.state ≡ closed) ⊎ Due 36 tripped)
Admitted-iff_example = Admitted-iff 36 tripped tripped-IsValid

refused_at_ten : is_opened (acquire 10 tripped).1.state ≡ true
unfolding acquire snapshot admit effective_state
refused_at_ten = refl

waits_26 : 10 + (acquire 10 tripped).1.retry_after ≤ 36
unfolding acquire snapshot admit effective_state
waits_26 = omega arith

retry_after_suffices_example :
    (1 ≤ (acquire 10 tripped).1.retry_after)
    × ((acquire 10 tripped).1.retry_after ≤ 30)
    × ((acquire 10 tripped).0 ≡ tripped)
    × Refused 10 36 tripped
retry_after_suffices_example =
    retry_after_suffices 10 36 6 tripped tripped-IsValid refl (omega arith) refused_at_ten waits_26
