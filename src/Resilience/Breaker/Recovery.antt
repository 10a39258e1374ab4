-- ===== src/Resilience/Breaker/Recovery.antt =====
-- How an open circuit recovers (resilience.py): rejection, the time to wait, and the probe.
use uyuni_ai.Common.{◌↔◌, ℕ, ◌+◌, ◌≤◌, ◌<◌, ◌≡◌, refl, true, false, some, List, [], ◌∷◌, ◌⊎◌, arith}
use uyuni_ai.Resilience.Breaker.{
  closed, opened, half_open, CircuitBreaker, is_opened, elapsed, effective_state, snapshot, admit,
  acquire, record_success, record_failure,
}
use uyuni_ai.Resilience.Breaker.Circuit.{IsValid}

-- the operation may go ahead
abbrev pub Admitted : ℕ → CircuitBreaker → Type 0
Admitted now b = is_opened (acquire now b).1.state ≡ false

-- when the circuit is due for a probe
abbrev pub Due : ℕ → CircuitBreaker → Type 0
Due now b =
    ((b.state ≡ half_open) × (b.probe_in_flight ≡ false))
    ⊎ ((b.state ≡ opened) × (elapsed b.opened_at b.recovery_timeout now ≡ true))

-- An operation is admitted exactly if the circuit is closed, or half open with no probe, or open
-- for the whole recovery timeout.
pub Admitted-iff :
    (now : ℕ) (b : CircuitBreaker) → IsValid b → Admitted now b ↔ ((b.state ≡ closed) ⊎ Due now b)
unfolding acquire snapshot admit effective_state
Admitted-iff now b v = (λ h. ground arith, λ h. ground arith)

-- why an operation is refused, and what comes of waiting until later: the circuit is open, and a
-- later acquisition is the probe; or its probe is in flight, and the wait is a recovery timeout
abbrev pub Refused : ℕ → ℕ → CircuitBreaker → Type 0
Refused now later b =
    ((b.state ≡ opened)
      × ((acquire later b).1.state ≡ half_open)
      × ((acquire later b).0.probe_in_flight ≡ true))
    ⊎ ((b.state ≡ half_open)
        × (b.probe_in_flight ≡ true)
        × ((acquire now b).1.retry_after ≡ b.recovery_timeout))

-- A rejection says how long to wait, between 1 and the recovery timeout if the clock has not gone
-- back behind the opening, and changes nothing. Either the circuit is open, and an acquisition after
-- that wait and with nothing in between is admitted, as the one probe of a half-open circuit; or it
-- is half open with a probe in flight, and the wait is the whole recovery timeout.
pub retry_after_suffices :
    (now later opened_at : ℕ) (b : CircuitBreaker)
    → IsValid b
    → b.opened_at ≡ some opened_at
    → opened_at ≤ now
    → is_opened (acquire now b).1.state ≡ true
    → now + (acquire now b).1.retry_after ≤ later
    → (1 ≤ (acquire now b).1.retry_after)
      × ((acquire now b).1.retry_after ≤ b.recovery_timeout)
      × ((acquire now b).0 ≡ b)
      × Refused now later b
unfolding acquire snapshot admit effective_state
retry_after_suffices now later t b v e h r w =
    (ground arith, ground arith, ground arith, ground arith)

-- While a probe is in flight every acquisition is rejected, at any time, and changes nothing.
pub probe_excludes :
    (now : ℕ) (b : CircuitBreaker)
    → IsValid b
    → b.probe_in_flight ≡ true
    → ((acquire now b).0 ≡ b) × ((acquire now b).1.state ≡ opened)
unfolding acquire snapshot admit effective_state
probe_excludes now b v p = (ground arith, ground arith)

-- acquisitions at the given times, with no outcome in between
pub acquire_all : List ℕ → CircuitBreaker → CircuitBreaker
acquire_all [] b = b
acquire_all (t ∷ ts) b = acquire_all ts (acquire t b).0

pub acquire_all_stuck :
    (ts : List ℕ) (now : ℕ) (b : CircuitBreaker)
    → IsValid b
    → b.probe_in_flight ≡ true
    → (acquire_all ts b ≡ b) × ((acquire now (acquire_all ts b)).1.state ≡ opened)
unfolding acquire_all
acquire_all_stuck [] now b v p = (refl, (probe_excludes now b v p).1)
acquire_all_stuck (t ∷ ts) now b v p =
    rw ((probe_excludes t b v p).0) (acquire_all_stuck ts now b v p)

-- The outcome of a probe decides what is answered within a recovery timeout of it: after a failure
-- the circuit is open again, from then on, and refuses; after a success it is closed, admits, and
-- has forgotten the failures.
pub probe_decides :
    (now later : ℕ) (b : CircuitBreaker)
    → b.state ≡ half_open
    → later < now + b.recovery_timeout
    → ((record_failure now b).state ≡ opened)
      × ((record_failure now b).opened_at ≡ some now)
      × ((acquire later (record_failure now b)).1.state ≡ opened)
      × (acquire later (record_success b) ≡ (
        record_success b,
        record { state = closed; consecutive_failures = 0; retry_after = 0 },
      ))
unfolding acquire snapshot admit effective_state record_failure record_success
probe_decides now later b s h = (ground arith, ground arith, ground arith, ground arith)

-- a circuit that is due admits, and marks, its probe
pub Due-acquires :
    (now : ℕ) (b : CircuitBreaker)
    → IsValid b
    → Due now b
    → ((acquire now b).0.probe_in_flight ≡ true) × (is_opened (acquire now b).1.state ≡ false)
unfolding acquire snapshot admit effective_state
Due-acquires now b v d = ground arith

-- a rejected acquisition leaves the breaker alone
pub refused_keeps :
    (now : ℕ) (b : CircuitBreaker)
    → IsValid b
    → is_opened (acquire now b).1.state ≡ true
    → (acquire now b).0 ≡ b
unfolding acquire snapshot admit effective_state
refused_keeps now b v o = ground arith
