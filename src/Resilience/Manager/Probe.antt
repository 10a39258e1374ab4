-- ===== src/Resilience/Manager/Probe.antt =====
-- Admission by a `DependencyManager` (resilience.py), and what becomes of a cancelled probe.
use uyuni_ai.Common.{
  ℕ, ◌≡◌, ◌⊎◌, inl, inr, Option-cases, refl, sym, ap, ◌∙◌, true, none, some, List, [], ◌∷◌, String,
  on_option, if_cases,
}
use mathlib.Core.Bool.{false≢true}
use uyuni_ai.Common.Result.{Result, ok, err}
use uyuni_ai.Resilience.Breaker.{CircuitBreaker, closed, is_opened, acquire}
use uyuni_ai.Resilience.Breaker.Circuit.{IsValid, acquire-IsValid}
use uyuni_ai.Resilience.Breaker.Recovery.{
  Due, Due-acquires, refused_keeps, Admitted-iff, probe_excludes,
}
use uyuni_ai.Resilience.Manager.{
  DependencyManager, ExecuteError, unknown_dependency, dependency_unavailable, breaker,
  with_breaker, begin, was_cancelled, finish_with, finish,
}
use uyuni_ai.Resilience.Manager.Isolation.{breaker-put_self, breakers-observe}

-- the dependency's circuit has a probe in flight
abbrev pub IsProbing : String → DependencyManager → Type 0
IsProbing name m =
    (b : CircuitBreaker) × (breaker name m.breakers ≡ some b)
    × IsValid b
    × (b.probe_in_flight ≡ true)

begin_known :
    (name : String) (now started : ℕ) (m : DependencyManager) (b : CircuitBreaker)
    → breaker name m.breakers ≡ some b
    → IsValid b
    → b.probe_in_flight ≡ true
    → let r = begin name now started m in
      ((retry : ℕ) × (r.1 ≡ err (dependency_unavailable retry)))
      × (breaker name r.0.breakers ≡ some b)
unfolding begin with_breaker
begin_known name now started m b e v p =
    let (same, open') = probe_excludes now b v p in
    rw e (
      rw open' (
        ((acquire now b).1.retry_after, refl),
        ap (breaker name) (breakers-observe name _ _ _ _)
            ∙ breaker-put_self name (acquire now b).0 b m.breakers e
            ∙ ap some same,
      ))

-- an operation is tried at each of the times, and where it is refused nothing more happens
pub begin_all : String → List ℕ → DependencyManager → DependencyManager
begin_all name [] m = m
begin_all name (t ∷ ts) m = begin_all name ts (begin name t t m).0

begin-IsProbing :
    (name : String) (t started : ℕ) (m : DependencyManager)
    → IsProbing name m
    → IsProbing name (begin name t started m).0
begin-IsProbing name t started m (b, e, v, p) = (b, (begin_known name t started m b e v p).1, v, p)

begin_all_refused :
    (name : String) (ts : List ℕ) (now : ℕ) (m : DependencyManager)
    → IsProbing name m
    → (retry : ℕ) × ((begin name now now (begin_all name ts m)).1
        ≡ err (dependency_unavailable retry))
unfolding begin_all
begin_all_refused name [] now m (b, e, v, p) = (begin_known name now now m b e v p).0
begin_all_refused name (t ∷ ts) now m h =
    begin_all_refused name ts now _ (begin-IsProbing name t t m h)

cancelled-IsProbing :
    (name : String) (s f d t : ℕ) (m : DependencyManager)
    → IsProbing name m
    → IsProbing name (finish name was_cancelled s f d t m)
unfolding finish finish_with
cancelled-IsProbing name s f d t m (b, e, v, p) = (b, rw (e, on_option) e, v, p)

Due-begins :
    (name : String) (now started : ℕ) (m : DependencyManager) (b : CircuitBreaker)
    → breaker name m.breakers ≡ some b
    → IsValid b
    → Due now b
    → let r = begin name now started m in (r.1 ≡ ok started) × IsProbing name r.0
unfolding begin with_breaker
Due-begins name now started m b e v due =
    let (probe, open') = Due-acquires now b v due in
    rw e (
      rw open' (
        refl,
        (
          (acquire now b).0,
          breaker-put_self name (acquire now b).0 b m.breakers e,
          acquire-IsValid now b v,
          probe,
        ),
      ))

-- When a circuit is due for its probe, the next operation is admitted. If its task is then cancelled,
-- nothing is recorded, and from then on the dependency is refused: at every time, and after any
-- number of attempts, although no operation on it is in flight.
pub cancelled_probe_stuck :
    (name : String) (t started failed_at ended_at seen_at now : ℕ) (attempts : List ℕ)
    (m : DependencyManager) (b : CircuitBreaker)
    → breaker name m.breakers ≡ some b
    → IsValid b
    → Due t b
    → let (m', answer) = begin name t started m in
      let after = finish name was_cancelled started failed_at ended_at seen_at m' in
      (answer ≡ ok started)
      × ((retry : ℕ) × ((begin name now now (begin_all name attempts after)).1
            ≡ err (dependency_unavailable retry)))
cancelled_probe_stuck name t started f d u now attempts m b e v due =
    let (admitted, probing) = Due-begins name t started m b e v due in
    (
      admitted,
      begin_all_refused name attempts now _ (cancelled-IsProbing name started f d u _ probing),
    )

-- What `begin` answers.
abbrev pub Begins :
    String → ℕ → ℕ → DependencyManager → DependencyManager → Result ExecuteError ℕ → Type 0
Begins name now started m m' (ok at) =
    (at ≡ started)
    × ((b : CircuitBreaker) × (breaker name m.breakers ≡ some b) × ((b.state ≡ closed) ⊎ Due now b))
Begins name now started m m' (err unknown_dependency) = (breaker name m.breakers ≡ none) × (m' ≡ m)
Begins name now started m m' (err (dependency_unavailable retry)) =
    (b : CircuitBreaker) × (breaker name m.breakers ≡ some b)
    × ¬ ((b.state ≡ closed) ⊎ Due now b)
    × (breaker name m'.breakers ≡ some b)

begin-some :
    (name : String) (now started : ℕ) (m : DependencyManager) (b : CircuitBreaker)
    → breaker name m.breakers ≡ some b
    → IsValid b
    → let r = begin name now started m in Begins name now started m r.0 r.1
unfolding begin with_breaker
begin-some name now started m b e v =
    let spec = Admitted-iff now b v in
    rw (e, begin)
      (if_cases
        (λ (r : DependencyManager × Result ExecuteError ℕ). Begins name now started m r.0 r.1)
        (is_opened (acquire now b).1.state)
        (λ o. (
          b,
          e,
          λ h. false≢true (sym (spec.1 h) ∙ o),
          ap (breaker name) (breakers-observe name _ _ _ _)
              ∙ breaker-put_self name (acquire now b).0 b m.breakers e
              ∙ ap some (refused_keeps now b v o),
        ))
        (λ c. (refl, (b, e, spec.0 c))))

-- An operation begins, at the time that `execute` notes, exactly if its dependency is known and its
-- circuit is closed or due for a probe; an unknown dependency changes nothing, and a refusal
-- leaves the circuit as it was.
pub begin-Begins :
    (name : String) (now started : ℕ) (m : DependencyManager)
    → ((b : CircuitBreaker) → breaker name m.breakers ≡ some b → IsValid b)
    → let (m', answer) = begin name now started m in Begins name now started m m' answer
begin-Begins name now started m valid = elim (Option-cases (breaker name m.breakers)) [
  | inl e ↦ unknown e
  | inr (b, e) ↦ begin-some name now started m b e (valid b e)
]
  where
    unknown :
        breaker name m.breakers ≡ none
        → Begins name now started m (begin name now started m).0 (begin name now started m).1
    unknown e = unfold begin in rw (e, on_option) (e, refl)
