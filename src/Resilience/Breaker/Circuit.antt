-- ===== src/Resilience/Breaker/Circuit.antt =====
-- The states of a circuit breaker (resilience.py): its invariant, and when it opens and closes.
use uyuni_ai.Common.{
  ◌∙◌, ℕ, ◌+◌, ◌≤◌, ◌≡◌, refl, Bool, true, false, List, [], ◌∷◌, arith, ltb, is_some, not,
}
use uyuni_ai.Common.Lists.{length}
use uyuni_ai.Common.Result.{ok}
use uyuni_ai.Resilience.Breaker.{
  CircuitState, closed, opened, half_open, CircuitBreaker, init, effective_state, snapshot, admit,
  acquire, record_success, record_failure,
}

abbrev pub is_closed : CircuitState → Bool
is_closed closed = true
is_closed opened = false
is_closed half_open = false

-- The breaker is closed as long as its failures in a row are below the threshold, knows when it
-- opened exactly if it is not closed, and marks a probe only while it is half open.
pub record IsValid (b : CircuitBreaker) : Type 0 where
  pub threshold_pos : 1 ≤ b.failure_threshold
  pub timeout_pos : 1 ≤ b.recovery_timeout
  pub closed_below : is_closed b.state ≡ ltb b.consecutive_failures b.failure_threshold
  pub opened_known : is_some b.opened_at ≡ not (is_closed b.state)
  pub probing : b.probe_in_flight ≡ true → b.state ≡ half_open

pub init-IsValid : (t r : ℕ) (b : CircuitBreaker) → init t r ≡ ok b → IsValid b
unfolding init
init-IsValid t r b e = ground arith

effective_state-IsValid :
    (now : ℕ) (b : CircuitBreaker) → IsValid b → IsValid (effective_state now b)
unfolding effective_state
effective_state-IsValid now b v = ground arith

pub acquire-IsValid : (now : ℕ) (b : CircuitBreaker) → IsValid b → IsValid (acquire now b).0
unfolding acquire snapshot admit effective_state
acquire-IsValid now b v = ground arith

record_success-IsValid : (b : CircuitBreaker) → IsValid b → IsValid (record_success b)
unfolding record_success
record_success-IsValid b v = ground arith

record_failure-IsValid : (now : ℕ) (b : CircuitBreaker) → IsValid b → IsValid (record_failure now b)
unfolding record_failure
record_failure-IsValid now b v = ground arith

-- what may happen to a breaker, with the clock's reading
pub data Event : Type 0 where
  acquires fails : ℕ → Event
  succeeds : Event
  observes : ℕ → Event

pub after : Event → CircuitBreaker → CircuitBreaker
after (acquires now) b = (acquire now b).0
after (fails now) b = record_failure now b
after succeeds b = record_success b
after (observes now) b = (snapshot now b).0

pub run : List Event → CircuitBreaker → CircuitBreaker
run [] b = b
run (e ∷ es) b = run es (after e b)

after-IsValid : (e : Event) (b : CircuitBreaker) → IsValid b → IsValid (after e b)
unfolding after snapshot
after-IsValid (acquires now) b v = acquire-IsValid now b v
after-IsValid (fails now) b v = record_failure-IsValid now b v
after-IsValid succeeds b v = record_success-IsValid b v
after-IsValid (observes now) b v = effective_state-IsValid now b v

pub run-IsValid : (es : List Event) (b : CircuitBreaker) → IsValid b → IsValid (run es b)
unfolding run
run-IsValid [] b v = v
run-IsValid (e ∷ es) b v = run-IsValid es (after e b) (after-IsValid e b v)

-- Whatever calls a new breaker has had, it is closed exactly as long as its failures in a row are
-- below the threshold, it has an opening time exactly if it is not closed, and it marks a probe
-- only while it is half open.
pub run-init-IsValid :
    (threshold timeout : ℕ) (es : List Event) (b : CircuitBreaker)
    → init threshold timeout ≡ ok b
    → IsValid (run es b)
run-init-IsValid threshold timeout es b e = run-IsValid es b (init-IsValid threshold timeout b e)

-- a row of failures, at the given times
pub fail_all : List ℕ → CircuitBreaker → CircuitBreaker
fail_all [] b = b
fail_all (t ∷ ts) b = fail_all ts (record_failure t b)

record_failure_counts :
    (now : ℕ) (b : CircuitBreaker)
    → ((record_failure now b).consecutive_failures ≡ b.consecutive_failures + 1)
      × ((record_failure now b).failure_threshold ≡ b.failure_threshold)
unfolding record_failure
record_failure_counts now b = (ground arith, ground arith)

fail_all_counts :
    (ts : List ℕ) (b : CircuitBreaker)
    → ((fail_all ts b).consecutive_failures ≡ b.consecutive_failures + length ts)
      × ((fail_all ts b).failure_threshold ≡ b.failure_threshold)
unfolding fail_all
fail_all_counts [] b = (omega arith, refl)
fail_all_counts (t ∷ ts) b =
    let c = record_failure_counts t b in
    let d = fail_all_counts ts (record_failure t b) in (omega (arith, c.0, d.0), d.1 ∙ c.1)

fail_all-IsValid : (ts : List ℕ) (b : CircuitBreaker) → IsValid b → IsValid (fail_all ts b)
unfolding fail_all
fail_all-IsValid [] b v = v
fail_all-IsValid (t ∷ ts) b v = fail_all-IsValid ts _ (record_failure-IsValid t b v)

-- A row of failures after a success leaves the circuit closed exactly if it is shorter than the
-- threshold.
pub fail_all_opens :
    (ts : List ℕ) (b : CircuitBreaker)
    → IsValid b
    → is_closed (fail_all ts (record_success b)).state ≡ ltb (length ts) b.failure_threshold
unfolding record_success
fail_all_opens ts b v =
    let d = fail_all_counts ts (record_success b) in
    let w = fail_all-IsValid ts _ (record_success-IsValid b v) in
    ground (arith, w.closed_below, d.0, d.1)
