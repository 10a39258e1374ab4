-- ===== src/Resilience/Manager.antt =====
-- `DependencyManager` of uyuni_ai_agent/resilience.py. `execute` gives up control while its operation
-- runs, so it is cut in two: `begin`, up to the operation, and `finish`, from how it ended. Each
-- takes the readings of the clock that it makes, in their order.
pub mod Isolation
pub mod Probe
pub mod Tests
use text.Mathlib.Text.{◌==◌ as str_eq}
use uyuni_ai.Common.{
  ℕ, ◌-◌, Bool, true, false, Option, none, some, List, [], ◌∷◌, String, on_option, if◌then◌else◌,
}
use uyuni_ai.Common.Result.{Result, ok, err}
use uyuni_ai.Resilience.Breaker.{
  CircuitBreaker, CircuitSnapshot, is_opened, acquire, snapshot, record_success, record_failure,
}

pub record Observation : Type 0 where
  pub dependency : String
  pub outcome : String
  pub duration : ℕ
  pub snapshot : CircuitSnapshot

-- `observed` holds the calls of the observer, the newest first.
pub record DependencyManager : Type 0 where
  pub observer : Bool
  pub breakers : List (String × CircuitBreaker)
  pub observed : List Observation

pub data ExecuteError : Type 0 where
  unknown_dependency : ExecuteError
  dependency_unavailable : ℕ → ExecuteError

-- self._breakers[dependency], a KeyError made a ValueError
pub breaker : String → List (String × CircuitBreaker) → Option CircuitBreaker
breaker name [] = none
breaker name ((n, b) ∷ bs) = if str_eq n name then some b else breaker name bs

-- the dictionary after the breaker of that name, which is shared, has changed
pub put : String → CircuitBreaker → List (String × CircuitBreaker) → List (String × CircuitBreaker)
put name b [] = []
put name b ((n, c) ∷ bs) = if str_eq n name then (n, b) ∷ bs else (n, c) ∷ put name b bs

pub with_breaker : String → CircuitBreaker → DependencyManager → DependencyManager
with_breaker name b m = record m { breakers = put name b m.breakers }

-- the breakers of `__init__`, all new and alike; of a name that is given twice the first is found
pub new_breakers : CircuitBreaker → List String → List (String × CircuitBreaker)
new_breakers fresh [] = []
new_breakers fresh (name ∷ names) = (name, fresh) ∷ new_breakers fresh names

-- `DependencyManager.snapshot`, which moves the breaker as its clock does
pub snapshot_of :
    String → ℕ → DependencyManager → Result ExecuteError (DependencyManager × CircuitSnapshot)
snapshot_of name now m =
    on_option (breaker name m.breakers) (err unknown_dependency)
      λ b. let (b', shot) = snapshot now b in ok (with_breaker name b' m, shot)

pub observe : String → String → ℕ → CircuitSnapshot → DependencyManager → DependencyManager
observe name outcome duration shot m =
    if m.observer
    then record m {
      observed =
          record { dependency = name; outcome = outcome; duration = duration; snapshot = shot }
          ∷ m.observed;
    }
    else m

-- `execute` up to its operation: the answer is the time `started`
pub begin : String → ℕ → ℕ → DependencyManager → DependencyManager × Result ExecuteError ℕ
begin name now started m =
    on_option (breaker name m.breakers) (m, err unknown_dependency)
      λ b.
        let (b', shot) = acquire now b in
        let m' = with_breaker name b' m in
        if is_opened shot.state
        then (observe name "circuit_open" 0 shot m', err (dependency_unavailable shot.retry_after))
        else (m', ok started)

-- How the operation ended: its task was cancelled, it ran out of time, it raised another exception,
-- or it returned a result, which the success predicate, if there is one, passed or not.
pub data Ending : Type 0 where
  was_cancelled timed_out raised : Ending
  returned : Bool → Ending

-- a breaker that has recorded the outcome, and the report of it
pub report : String → String → ℕ → ℕ → CircuitBreaker → DependencyManager → DependencyManager
report name outcome duration seen_at b m =
    let (b', shot) = snapshot seen_at b in
    observe name outcome duration shot (with_breaker name b' m)

pub finish_with :
    String → Ending → ℕ → ℕ → ℕ → ℕ → CircuitBreaker → DependencyManager → DependencyManager
finish_with name was_cancelled started failed_at ended_at seen_at b m = m
finish_with name timed_out started failed_at ended_at seen_at b m =
    report name "timeout" (ended_at - started) seen_at (record_failure failed_at b) m
finish_with name raised started failed_at ended_at seen_at b m =
    report name "error" (ended_at - started) seen_at (record_failure failed_at b) m
finish_with name (returned false) started failed_at ended_at seen_at b m =
    report name "error" (ended_at - started) seen_at (record_failure failed_at b) m
finish_with name (returned true) started failed_at ended_at seen_at b m =
    report name "success" (ended_at - started) seen_at (record_success b) m

-- `execute` from the end of its operation
pub finish : String → Ending → ℕ → ℕ → ℕ → ℕ → DependencyManager → DependencyManager
finish name ending started failed_at ended_at seen_at m =
    on_option (breaker name m.breakers) m
      λ b. finish_with name ending started failed_at ended_at seen_at b m

pub record_external_failure :
    String → String → ℕ → ℕ → DependencyManager → Result ExecuteError DependencyManager
record_external_failure name outcome failed_at seen_at m =
    on_option (breaker name m.breakers) (err unknown_dependency)
      λ b. ok (report name outcome 0 seen_at (record_failure failed_at b) m)

pub record_external_success : String → ℕ → DependencyManager → Result ExecuteError DependencyManager
record_external_success name seen_at m =
    on_option (breaker name m.breakers) (err unknown_dependency)
      λ b. ok (report name "success" 0 seen_at (record_success b) m)
