-- ===== src/Resilience/Breaker.antt =====
-- `CircuitBreaker` of uyuni_ai_agent/resilience.py. A time is a whole number of clock ticks, and
-- each method takes what its call of the clock returned. `now - opened_at >= timeout` is written
-- with the subtraction moved to the other side.
pub mod Circuit
pub mod Recovery
pub mod Tests
use uyuni_ai.Common.{
  ℕ, suc, ◌+◌, ◌-◌, Bool, true, false, ◌||◌, ◌&&◌, Option, none, some, ltb, leb, if◌then◌else◌,
}
use uyuni_ai.Common.Result.{Result, ok, err}

pub data CircuitState : Type 0 where
  closed opened half_open : CircuitState

pub record CircuitSnapshot : Type 0 where
  pub state : CircuitState
  pub consecutive_failures : ℕ
  pub retry_after : ℕ

pub record CircuitBreaker : Type 0 where
  pub failure_threshold : ℕ
  pub recovery_timeout : ℕ
  pub state : CircuitState
  pub consecutive_failures : ℕ
  pub opened_at : Option ℕ
  pub probe_in_flight : Bool

pub data BreakerError : Type 0 where
  threshold_below_one timeout_not_positive : BreakerError

pub init : ℕ → ℕ → Result BreakerError CircuitBreaker
init failure_threshold recovery_timeout =
    if ltb failure_threshold 1
    then err threshold_below_one
    else if leb recovery_timeout 0
    then err timeout_not_positive
    else ok (record {
      failure_threshold = failure_threshold;
      recovery_timeout = recovery_timeout;
      state = closed;
      consecutive_failures = 0;
      opened_at = none;
      probe_in_flight = false;
    })

abbrev pub is_opened : CircuitState → Bool
is_opened opened = true
is_opened closed = false
is_opened half_open = false

abbrev pub is_half_open : CircuitState → Bool
is_half_open half_open = true
is_half_open closed = false
is_half_open opened = false

-- whether the recovery timeout is over
abbrev pub elapsed : Option ℕ → ℕ → ℕ → Bool
elapsed none timeout now = false
elapsed (some t) timeout now = leb (t + timeout) now

-- `_effective_state` moves the breaker; the state that it returns is the breaker's after it.
pub effective_state : ℕ → CircuitBreaker → CircuitBreaker
effective_state now b =
    if is_opened b.state && elapsed b.opened_at b.recovery_timeout now
    then record b { state = half_open; probe_in_flight = false }
    else b

abbrev pub remaining : Option ℕ → ℕ → ℕ → ℕ
remaining none timeout now = 0
remaining (some t) timeout now = t + timeout - now

pub snapshot : ℕ → CircuitBreaker → CircuitBreaker × CircuitSnapshot
snapshot now b =
    let b' = effective_state now b in
    (
      b',
      record {
        state = b'.state;
        consecutive_failures = b'.consecutive_failures;
        retry_after =
            if is_opened b'.state then remaining b'.opened_at b'.recovery_timeout now else 0;
      },
    )

-- `acquire` after its snapshot
pub admit : CircuitBreaker → CircuitSnapshot → CircuitBreaker × CircuitSnapshot
admit b shot =
    if is_opened shot.state
    then (b, shot)
    else if is_half_open shot.state
    then (if b.probe_in_flight
        then (
          b,
          record {
            state = opened;
            consecutive_failures = shot.consecutive_failures;
            retry_after = b.recovery_timeout;
          },
        )
        else (record b { probe_in_flight = true }, shot))
    else (b, shot)

pub acquire : ℕ → CircuitBreaker → CircuitBreaker × CircuitSnapshot
acquire now b = let (b', shot) = snapshot now b in admit b' shot

pub record_success : CircuitBreaker → CircuitBreaker
record_success b = record b {
  state = closed;
  consecutive_failures = 0;
  opened_at = none;
  probe_in_flight = false;
}

pub record_failure : ℕ → CircuitBreaker → CircuitBreaker
record_failure now b =
    let failures : ℕ = b.consecutive_failures + 1 in
    if is_half_open b.state || leb b.failure_threshold failures
    then record b {
      state = opened;
      consecutive_failures = failures;
      opened_at = some now;
      probe_in_flight = false;
    }
    else record b { consecutive_failures = failures; probe_in_flight = false }
