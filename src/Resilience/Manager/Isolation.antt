-- ===== src/Resilience/Manager/Isolation.antt =====
-- The breakers of a `DependencyManager` (resilience.py) are independent.
use text.Mathlib.TextEquality.{eq_iff}
use uyuni_ai.Common.{
  ℕ, ◌≡◌, ◌≢◌, refl, ap, ◌∙◌, true, false, some, List, [], ◌∷◌, String, arith, on_option_cases,
  if_cases,
}
use uyuni_ai.Common.Result.{Result}
use uyuni_ai.Resilience.Breaker.{CircuitBreaker, CircuitSnapshot, is_opened, acquire}
use uyuni_ai.Resilience.Manager.{
  DependencyManager, ExecuteError, breaker, put, with_breaker, observe, begin, Ending,
  was_cancelled, timed_out, raised, returned, report, finish_with, finish,
}

pub breaker-put :
    (n k : String) (b : CircuitBreaker) (bs : List (String × CircuitBreaker))
    → n ≢ k
    → breaker k (put n b bs) ≡ breaker k bs
unfolding breaker put
breaker-put n k b [] h = refl
breaker-put n k b ((j, c) ∷ bs) h = ground (arith, breaker-put n k b bs h, eq_iff j n, eq_iff j k)

pub breaker-put_self :
    (n : String) (b c : CircuitBreaker) (bs : List (String × CircuitBreaker))
    → breaker n bs ≡ some c
    → breaker n (put n b bs) ≡ some b
unfolding breaker put
breaker-put_self n b c [] e = cc
breaker-put_self n b c ((j, d) ∷ bs) e = ground (arith, breaker-put_self n b c bs, eq_iff j n)

pub breakers-observe :
    (n o : String) (d : ℕ) (s : CircuitSnapshot) (m : DependencyManager)
    → (observe n o d s m).breakers ≡ m.breakers
unfolding observe
breakers-observe n o d s m = ground arith

-- the breaker of `k` is the same in both
abbrev pub Same : String → DependencyManager → DependencyManager → Type 0
Same k m m' = breaker k m'.breakers ≡ breaker k m.breakers

report-Same :
    (n k o : String) (d t : ℕ) (b : CircuitBreaker) (m : DependencyManager)
    → n ≢ k
    → Same k m (report n o d t b m)
unfolding report with_breaker
report-Same n k o d t b m h =
    ap (breaker k) (breakers-observe n o d _ _) ∙ breaker-put n k _ m.breakers h

finish_with-Same :
    (n k : String) (e : Ending) (s f d t : ℕ) (b : CircuitBreaker) (m : DependencyManager)
    → n ≢ k
    → Same k m (finish_with n e s f d t b m)
unfolding finish_with
finish_with-Same n k was_cancelled s f d t b m h = refl
finish_with-Same n k timed_out s f d t b m h = report-Same n k _ _ _ _ m h
finish_with-Same n k raised s f d t b m h = report-Same n k _ _ _ _ m h
finish_with-Same n k (returned false) s f d t b m h = report-Same n k _ _ _ _ m h
finish_with-Same n k (returned true) s f d t b m h = report-Same n k _ _ _ _ m h

begin-Same :
    (n k : String) (now started : ℕ) (m : DependencyManager)
    → n ≢ k
    → Same k m (begin n now started m).0
unfolding begin with_breaker
begin-Same n k now started m h =
    on_option_cases (λ (r : DependencyManager × Result ExecuteError ℕ). Same k m r.0)
      (breaker n m.breakers) (λ _. refl)
      λ b _.
        if_cases (λ (r : DependencyManager × Result ExecuteError ℕ). Same k m r.0)
          (is_opened (acquire now b).1.state)
          (λ _. ap (breaker k) (breakers-observe n _ _ _ _) ∙ breaker-put n k _ m.breakers h)
          (λ _. breaker-put n k _ m.breakers h)

finish-Same :
    (n k : String) (e : Ending) (s f d t : ℕ) (m : DependencyManager)
    → n ≢ k
    → Same k m (finish n e s f d t m)
unfolding finish
finish-Same n k e s f d t m h =
    on_option_cases (Same k m) (breaker n m.breakers) (λ _. refl)
      λ b _. finish_with-Same n k e s f d t b m h

-- Neither part of an operation on one dependency, however it ends, touches the circuit of another.
pub execute-Same :
    (name other : String) (m : DependencyManager)
    → name ≢ other
    → ((now started : ℕ) → Same other m (begin name now started m).0)
      × ((ending : Ending) (started failed_at ended_at seen_at : ℕ)
          → Same other m (finish name ending started failed_at ended_at seen_at m))
execute-Same n k m h =
    (λ now started. begin-Same n k now started m h, λ e s f d t. finish-Same n k e s f d t m h)
