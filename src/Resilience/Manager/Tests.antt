-- ===== src/Resilience/Manager/Tests.antt =====
-- Runs of the dependency manager (resilience.py).
use uyuni_ai.Common.{ℕ, ◌≡◌, ◌≢◌, inr, refl, subst, true, false, none, some, [], ◌∷◌, String, arith}
use uyuni_ai.Common.Result.{ok, err}
use uyuni_ai.Resilience.Breaker.{CircuitBreaker, closed, opened}
use uyuni_ai.Resilience.Breaker.Circuit.{IsValid}
use uyuni_ai.Resilience.Breaker.Recovery.{Due}
use uyuni_ai.Resilience.Manager.{
  DependencyManager, breaker, begin, finish, Ending, was_cancelled, dependency_unavailable,
}
use uyuni_ai.Resilience.Manager.Isolation.{Same, execute-Same}
use uyuni_ai.Resilience.Manager.Probe.{begin_all, Begins, begin-Begins, cancelled_probe_stuck}

-- the circuit of Salt has been open since tick 6, that of Prometheus is closed
abbrev salt : CircuitBreaker
salt = record {
  failure_threshold = 3;
  recovery_timeout = 30;
  state = opened;
  consecutive_failures = 3;
  opened_at = some 6;
  probe_in_flight = false;
}

abbrev dependencies : DependencyManager
dependencies = record {
  observer = true;
  breakers =
      ("prometheus", record salt { state = closed; consecutive_failures = 1; opened_at = none })
      ∷ ("salt", salt)
      ∷ [];
  observed = [];
}

salt-IsValid : IsValid salt
salt-IsValid = record {
  threshold_pos = omega arith;
  timeout_pos = omega arith;
  closed_below = refl;
  opened_known = refl;
  probing = λ h. ground arith;
}

salt_known : breaker "salt" dependencies.breakers ≡ some salt
unfolding breaker
salt_known = refl

all-IsValid : (b : CircuitBreaker) → breaker "salt" dependencies.breakers ≡ some b → IsValid b
all-IsValid b e =
    let same : salt ≡ b = ground (arith, salt_known, e) in subst IsValid same salt-IsValid

begin-Begins_example :
    let (m', answer) = begin "salt" 36 36 dependencies in Begins "salt" 36 36 dependencies m' answer
begin-Begins_example = begin-Begins "salt" 36 36 dependencies all-IsValid

salt-Due : Due 36 salt
salt-Due = inr (refl, refl)

cancelled_probe_stuck_example :
    let (m', answer) = begin "salt" 36 36 dependencies in
    let after = finish "salt" was_cancelled 36 0 0 0 m' in
    (answer ≡ ok 36)
    × ((retry : ℕ) × ((begin "salt" 9000 9000 (begin_all "salt" (100 ∷ 1000 ∷ []) after)).1
          ≡ err (dependency_unavailable retry)))
cancelled_probe_stuck_example =
    cancelled_probe_stuck "salt" 36 36 0 0 0 9000 (100 ∷ 1000 ∷ []) dependencies salt salt_known
      salt-IsValid salt-Due

abbrev one_name : String
one_name = "salt"

abbrev other_name : String
other_name = "prometheus"

salt_not_prometheus : one_name ≢ other_name
salt_not_prometheus h = cc

execute-Same_example :
    ((now started : ℕ) → Same other_name dependencies (begin one_name now started dependencies).0)
    × ((ending : Ending) (started failed_at ended_at seen_at : ℕ)
        → Same other_name dependencies
            (finish one_name ending started failed_at ended_at seen_at dependencies))
execute-Same_example = execute-Same one_name other_name dependencies salt_not_prometheus
