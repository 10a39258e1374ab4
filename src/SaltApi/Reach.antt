-- ===== src/SaltApi/Reach.antt =====
-- Whom a call of `SaltAPIClient._call` (uyuni_ai_agent/salt_api.py) reaches, how often, and what it
-- returns.
use text.Mathlib.Text.{◌==◌ as str_eq}
use uyuni_ai.Common.{
  ℕ, ◌+◌, ◌≤◌, ◌≡◌, refl, ◌∙◌, sym, subst, Bool, true, false, not, Option, none, some, List, [],
  ◌∷◌, ◌++◌, String, if◌then◌else◌, ◌==◌, ◌⊎◌, inl, inr, arith, if_cases, on_option_cases,
  Bool-cases,
}
use uyuni_ai.Common.Lists.{any, All, All-append}
use uyuni_ai.Common.Json.{Json, null, bool, num, str, array, object}
use uyuni_ai.Common.Result.{Result, ok, err, Returns, Returns-map}
use uyuni_ai.Commands.{Refusal, value_error, validate_configured_minion}
use uyuni_ai.SaltApi.{
  SaltError, refused_target, SaltClient, Post, login_post, call_post, Reply, Session, Run, and_then,
  login, ensure_login, sent, retry, unless_expired, last_result, extract_minion_result, send_call,
  on_checked, call,
}

abbrev pub is_call : Post → Bool
is_call login_post = false
is_call (call_post t f a) = true

-- how many of the requests pass the test
abbrev pub count : (Post → Bool) → List Post → ℕ
count p [] = 0
count p (x ∷ xs) = (if p x then 1 else 0) + count p xs

count-append : (p : Post → Bool) (xs ys : List Post) → count p (xs ++ ys) ≡ count p xs + count p ys
count-append p [] ys = omega arith
count-append p (x ∷ xs) ys = omega (arith, count-append p xs ys)

-- a request that logs in, or calls this function on this target
abbrev pub Asks : Post → Post → Type 0
Asks p login_post = Unit
Asks p (call_post t f a) = call_post t f a ≡ p

-- a run that keeps the allowlist, makes no more than so many logins and calls, each of them that call, and
-- returns only what it should
abbrev pub Bounded : {A : Type 0} → SaltClient → Post → ℕ → ℕ → (A → Type 0) → Run A → Type 0
Bounded c p logins calls R (c', ps, r) =
    (c'.allowed_minions ≡ c.allowed_minions)
    × (count (λ x. not (is_call x)) ps ≤ logins)
    × (count is_call ps ≤ calls)
    × All (Asks p) ps
    × Returns R r

Bounded-then :
    {A B : Type 0} (c : SaltClient) (p : Post) (l k l' k' : ℕ) (Q : A → Type 0) (R : B → Type 0)
    (m : Run A) (f : A → SaltClient → Run B)
    → Bounded c p l k Q m
    → ((a : A) (d : SaltClient) → Q a → Bounded d p l' k' R (f a d))
    → Bounded c p (l + l') (k + k') R (and_then m f)
unfolding and_then
Bounded-then c p l k l' k' Q R (d, ps, ok a) f (kept, b1, b2, asks, q) next =
    let (kept', b1', b2', asks', r) = next a d q in
    let qs = (f a d).1 in
    (
      kept' ∙ kept,
      omega (arith, count-append (λ x. not (is_call x)) ps qs),
      omega (arith, count-append is_call ps qs),
      All-append (Asks p) ps qs asks asks',
      r,
    )
Bounded-then c p l k l' k' Q R (d, ps, err e) f (kept, b1, b2, asks, q) next =
    (kept, omega arith, omega arith, asks, tt)

ensure_login-IsBounded :
    (w : Session) (c : SaltClient) (p : Post) → Bounded c p 1 0 (λ _. Unit) (ensure_login w c)
unfolding ensure_login login
ensure_login-IsBounded w c p =
    if_cases (Bounded c p 1 0 (λ _. Unit)) c.logged_in
      (λ _. (refl, omega arith, omega arith, tt, tt))
      λ _.
        if_cases (Bounded c p 1 0 (λ _. Unit)) w.already
          (λ _. (refl, omega arith, omega arith, tt, tt))
          λ _.
            if_cases (Bounded c p 1 0 (λ _. Unit)) (not c.started)
              (λ _. (refl, omega arith, omega arith, tt, tt))
              λ _.
                if_cases (Bounded c p 1 0 (λ _. Unit)) w.accepted
                  (λ _. (refl, omega arith, omega arith, (tt, tt), tt))
                  λ _. (refl, omega arith, omega arith, (tt, tt), tt)

sent-IsBounded :
    (t f : String) (a : Option Json) (reply : Option Reply) (c : SaltClient)
    → Bounded c (call_post t f a) 0 1 (λ r. reply ≡ some r) (sent (call_post t f a) reply c)
unfolding sent
sent-IsBounded t f a none c = (refl, omega arith, omega arith, (refl, tt), tt)
sent-IsBounded t f a (some r) c = (refl, omega arith, omega arith, (refl, tt), refl)

-- one request more after a 401
abbrev pub extra : Option Reply → ℕ
extra none = 0
extra (some r) = if r.status_code == 401 then 1 else 0

-- the response that counts: the first, or after a 401 the second
abbrev pub Counts : Option Reply → Option Reply → Reply → Type 0
Counts first second s =
    ((first ≡ some s) × ((s.status_code == 401) ≡ false))
    ⊎ ((r : Reply) × (first ≡ some r) × ((r.status_code == 401) ≡ true) × (second ≡ some s))

abbrev pub Gives : (ℕ → Bool) → String → Option Reply → Option Reply → Json → Type 0
Gives is_success t first second v =
    (s : Reply) × (body : Json) × Counts first second s
    × (is_success s.status_code ≡ true)
    × (s.json ≡ some body)
    × (extract_minion_result body t ≡ ok v)

retry-IsBounded :
    (t f : String) (a : Option Json) (w : Session) (second : Option Reply) (c : SaltClient)
    → Bounded c (call_post t f a) 1 1 (λ s. second ≡ some s) (retry (call_post t f a) w second c)
unfolding retry
retry-IsBounded t f a w second c =
    Bounded-then c (call_post t f a) 1 0 0 1 (λ _. Unit) (λ s. second ≡ some s)
      (ensure_login w (record c { logged_in = false })) (λ _ d. sent (call_post t f a) second d)
      (ensure_login-IsBounded w (record c { logged_in = false }) (call_post t f a))
      λ _ d _. sent-IsBounded t f a second d

Bounded-map :
    {A : Type 0} (c : SaltClient) (p : Post) (l k : ℕ) (Q R : A → Type 0) (m : Run A)
    → ((a : A) → Q a → R a)
    → Bounded c p l k Q m
    → Bounded c p l k R m
Bounded-map c p l k Q R (d, ps, r) f (kept, b1, b2, asks, q) =
    (kept, b1, b2, asks, Returns-map Q R r f q)

unless_expired-IsBounded :
    (t f : String) (a : Option Json) (w : Session) (second : Option Reply) (r : Reply)
    (c : SaltClient)
    → Bounded c
        (call_post t f a)
        (extra (some r))
        (extra (some r))
        (Counts (some r) second)
        (unless_expired (call_post t f a) w second r c)
unfolding unless_expired
unless_expired-IsBounded t f a w second r c = elim (Bool-cases (r.status_code == 401)) [
  | inl q ↦
      let m = retry (call_post t f a) w second c in
      rw q (
        Bounded-map c (call_post t f a) 1 1 (λ s. second ≡ some s) (Counts (some r) second) m
          (λ s e. inr (r, refl, q, e)) (retry-IsBounded t f a w second c))
  | inr q ↦ rw q (refl, omega arith, omega arith, tt, inl (refl, q))
]

each_value :
    (P : Json → Type 0) (r : Result SaltError Json)
    → ((v : Json) → Path (Result SaltError Json) r (ok v) → P v)
    → Returns P r
each_value P (ok v) h = h v refl
each_value P (err e) h = tt

abbrev Given : (ℕ → Bool) → String → Option Reply → Option Reply → Result SaltError Json → Type 0
Given is_success t first second r = Returns (Gives is_success t first second) r

last_result-Gives :
    (is_success : ℕ → Bool) (t : String) (first second : Option Reply) (s : Reply)
    → Counts first second s
    → Returns (Gives is_success t first second) (last_result is_success t s)
unfolding last_result
last_result-Gives is_success t first second s h =
    if_cases (Given is_success t first second) (is_success s.status_code)
      (λ q.
        on_option_cases (Given is_success t first second) s.json (λ _. tt)
          λ body e.
            each_value (Gives is_success t first second) (extract_minion_result body t)
              λ v x. (s, body, h, q, e, x))
      λ _. tt

Bounded-le :
    {A : Type 0} (c : SaltClient) (p : Post) (l k l' k' : ℕ) (R : A → Type 0) (m : Run A)
    → l ≤ l'
    → k ≤ k'
    → Bounded c p l k R m
    → Bounded c p l' k' R m
Bounded-le c p l k l' k' R (d, ps, r) h h' (kept, b1, b2, asks, q) =
    (kept, omega arith, omega arith, asks, q)

module _ (is_success : ℕ → Bool) (t f : String) (a : Option Json) (first : Option Reply)
    (w : Session) (second : Option Reply) where
  abbrev returned : Reply → SaltClient → Run Json
  returned s d = (d, [], last_result is_success t s)

  after_first :
      (r : Reply) (d : SaltClient)
      → first ≡ some r
      → Bounded d
          (call_post t f a)
          (extra first)
          (extra first)
          (Gives is_success t first second)
          (and_then (unless_expired (call_post t f a) w second r d) returned)
  after_first r d e =
      let m = unless_expired (call_post t f a) w second r d in
      let checked =
        subst (λ o. Bounded d (call_post t f a) (extra o) (extra o) (Counts o second) m) (sym e)
          (unless_expired-IsBounded t f a w second r d) in
      Bounded-le d (call_post t f a) (extra first + 0) (extra first + 0) (extra first) (extra first)
        (Gives is_success t first second) (and_then m returned) (omega arith) (omega arith)
        (Bounded-then d (call_post t f a) (extra first) (extra first) 0 0 (Counts first second)
          (Gives is_success t first second) m returned checked
          (λ s d' h.
            (refl, omega arith, omega arith, tt, last_result-Gives is_success t first second s h)))

  first_sent :
      (d : SaltClient)
      → Bounded d
          (call_post t f a)
          (0 + extra first)
          (1 + extra first)
          (Gives is_success t first second)
          (and_then
            (sent (call_post t f a) first d)
            (λ r d'. and_then (unless_expired (call_post t f a) w second r d') returned))
  first_sent d =
      Bounded-then d (call_post t f a) 0 1 (extra first) (extra first) (λ r. first ≡ some r)
        (Gives is_success t first second) (sent (call_post t f a) first d)
        (λ r d'. and_then (unless_expired (call_post t f a) w second r d') returned)
        (sent-IsBounded t f a first d) after_first

  send_call-IsBounded :
      (before : Session) (c : SaltClient)
      → Bounded c
          (call_post t f a)
          (1 + (0 + extra first))
          (0 + (1 + extra first))
          (Gives is_success t first second)
          (send_call is_success t (call_post t f a) before first w second c)
  unfolding send_call
  send_call-IsBounded before c =
      Bounded-then c (call_post t f a) 1 0 (0 + extra first) (1 + extra first) (λ _. Unit)
        (Gives is_success t first second) (ensure_login before c) _
        (ensure_login-IsBounded before c (call_post t f a))
        λ _ d _.
          if_cases
            (Bounded d (call_post t f a) (0 + extra first) (1 + extra first)
              (Gives is_success t first second))
            (not d.started) (λ _. (refl, omega arith, omega arith, tt, tt)) λ _. first_sent d

-- the call of this target is refused, or made
abbrev pub Reaches :
    (ℕ → Bool)
    → Json
    → SaltClient
    → String
    → Option Json
    → Option Reply
    → Option Reply
    → Run Json
    → Type 0
Reaches is_success tgt c f a first second m =
    ((e : Refusal) × (validate_configured_minion tgt c.allowed_minions ≡ err e)
      × (m ≡ (c, [], err (refused_target e))))
    ⊎ ((t : String) × (tgt ≡ str t)
        × (any (str_eq t) c.allowed_minions ≡ true)
        × Bounded c (call_post t f a) (1 + extra first) (1 + extra first)
            (Gives is_success t first second) m)

sent_to :
    (is_success : ℕ → Bool) (t f : String) (a : Option Json) (first : Option Reply) (w : Session)
    (second : Option Reply) (before : Session) (c : SaltClient)
    → Bounded c
        (call_post t f a)
        (1 + extra first)
        (1 + extra first)
        (Gives is_success t first second)
        (send_call is_success t (call_post t f a) before first w second c)
sent_to is_success t f a first w second before c =
    Bounded-le c (call_post t f a) (1 + (0 + extra first)) (0 + (1 + extra first)) (1 + extra first)
      (1 + extra first) (Gives is_success t first second)
      (send_call is_success t (call_post t f a) before first w second c) (omega arith) (omega arith)
      (send_call-IsBounded is_success t f a first w second before c)

-- A call on a target that is no configured minion, by its whole ID, is refused before any request is
-- made. Else every request of the call is a login, or this call on this very target; there are at most
-- one login and one such call, and at most one more of each if the first response was a 401; and the
-- allowlist stays as it was. A value that is returned is what the response that counts, with a
-- successful status, has for this minion: the first response if it is no 401, else the second. Which
-- statuses are successful, what the server answers, and whether other tasks log in may be anything.
pub call-Reaches :
    (is_success : ℕ → Bool) (tgt : Json) (c : SaltClient) (f : String) (a : Option Json)
    (before : Session) (first : Option Reply) (w : Session) (second : Option Reply)
    → Reaches is_success tgt c f a first second (call is_success tgt f a before first w second c)
unfolding call on_checked validate_configured_minion
call-Reaches is_success (str s) c f a before first w second =
    elim (Bool-cases (any (str_eq s) c.allowed_minions)) [
      | inl q ↦ inr (s, refl, q, rw q (sent_to is_success s f a first w second before c))
      | inr q ↦ inl (value_error, rw q refl, rw q refl)
    ]
call-Reaches is_success null c f a before first w second = inl (value_error, refl, refl)
call-Reaches is_success (bool b) c f a before first w second = inl (value_error, refl, refl)
call-Reaches is_success (num x) c f a before first w second = inl (value_error, refl, refl)
call-Reaches is_success (array xs) c f a before first w second = inl (value_error, refl, refl)
call-Reaches is_success (object m) c f a before first w second = inl (value_error, refl, refl)
