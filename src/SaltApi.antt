-- ===== src/SaltApi.antt =====
-- `extract_minion_result` and the sessions of `SaltAPIClient` (uyuni_ai_agent/salt_api.py): the allowlist,
-- the login and `_call`. What the server and other tasks do is an argument: what each POST gave, and
-- whether another task has logged in by the time that the lock is taken. The client is not closed
-- during a call. The semaphore only delays a call.
pub mod Reach
pub mod Tests
use uyuni_ai.Common.{
  ℕ, Bool, true, false, not, Option, none, some, List, [], ◌∷◌, ◌++◌, String, on_option,
  if◌then◌else◌, ◌==◌, map,
}
use text.Mathlib.Text.{◌==◌ as str_eq}
use uyuni_ai.Common.Lines.{strip_text}
use uyuni_ai.Common.Json.{Json, null, bool, num, str, array, object, Items, no_items, item, member}
use uyuni_ai.Common.Result.{Result, ok, err}
use uyuni_ai.Commands.{Refusal, validate_configured_minion}

pub data SaltError : Type 0 where
  refused_target : Refusal → SaltError
  not_started http_error salt_error : SaltError

pub record SaltClient : Type 0 where
  pub allowed_minions : List String
  pub started : Bool
  pub logged_in : Bool

-- a request: to log in, or a call of a function on a target with its argument
pub data Post : Type 0 where
  login_post : Post
  call_post : String → String → Option Json → Post

-- a response, and its JSON if it has any
pub record Reply : Type 0 where
  pub status_code : ℕ
  pub json : Option Json

-- what the server does with one login, and whether another task has logged in before
pub record Session : Type 0 where
  pub already : Bool
  pub accepted : Bool

-- the client after some requests, these requests, and the value or what was raised
abbrev pub Run : Type 0 → Type 0
Run A = SaltClient × List Post × Result SaltError A

pub and_then : {A B : Type 0} → Run A → (A → SaltClient → Run B) → Run B
and_then (c, ps, ok a) f = let (c', qs, r) = f a c in (c', ps ++ qs, r)
and_then (c, ps, err e) f = (c, ps, err e)

pub result_in : String → Option Json → Result SaltError Json
result_in minion_id (some (array (item (object members) rest))) =
    on_option (member minion_id members) (err salt_error) ok
result_in minion_id _ = err salt_error

pub extract_minion_result : Json → String → Result SaltError Json
extract_minion_result (object members) minion_id = result_in minion_id (member "return" members)
extract_minion_result _ minion_id = err salt_error

-- the IDs that are texts and not blank, without the blanks around them
pub normalized_ids : List Json → List String
normalized_ids [] = []
normalized_ids (str s ∷ vs) =
    let rest = normalized_ids vs in if str_eq (strip_text s) "" then rest else strip_text s ∷ rest
normalized_ids (_ ∷ vs) = normalized_ids vs

pub replace_allowed_minions : List Json → SaltClient → SaltClient
replace_allowed_minions ids c = record c { allowed_minions = normalized_ids ids }

pub login : Session → SaltClient → Run Bool
login w c =
    if not c.started
    then (c, [], err not_started)
    else if w.accepted
    then (record c { logged_in = true }, login_post ∷ [], ok true)
    else (record c { logged_in = false }, login_post ∷ [], err http_error)

-- `_ensure_login`: what another task does while this one waits for the lock comes between the tests
pub ensure_login : Session → SaltClient → Run Bool
ensure_login w c =
    if c.logged_in
    then (c, [], ok true)
    else if w.already
    then (record c { logged_in = true }, [], ok true)
    else login w c

pub sent : Post → Option Reply → SaltClient → Run Reply
sent p none c = (c, p ∷ [], err http_error)
sent p (some r) c = (c, p ∷ [], ok r)

-- after a 401: one login, and the request once more
pub retry : Post → Session → Option Reply → SaltClient → Run Reply
retry p w second c =
    and_then (ensure_login w (record c { logged_in = false })) λ _ c'. sent p second c'

pub unless_expired : Post → Session → Option Reply → Reply → SaltClient → Run Reply
unless_expired p w second r c = if r.status_code == 401 then retry p w second c else (c, [], ok r)

-- what `_call` returns of the last response; `is_success` is the test of `raise_for_status`
pub last_result : (ℕ → Bool) → String → Reply → Result SaltError Json
last_result is_success tgt r =
    if is_success r.status_code
    then on_option r.json (err salt_error) (λ data'. extract_minion_result data' tgt)
    else err http_error

pub send_call :
    (ℕ → Bool)
    → String
    → Post
    → Session
    → Option Reply
    → Session
    → Option Reply
    → SaltClient
    → Run Json
send_call is_success tgt p w first w' second c = and_then (ensure_login w c) λ _ c1.
    if not c1.started
    then (c1, [], err not_started)
    else and_then (sent p first c1) λ r c2.
      and_then (unless_expired p w' second r c2) λ s c3. (c3, [], last_result is_success tgt s)

pub on_checked : Result Refusal String → SaltClient → (String → Run Json) → Run Json
on_checked (ok t) c f = f t
on_checked (err e) c f = (c, [], err (refused_target e))

-- `_call`, with what `_ensure_login` and the POST gave, before and after a 401
pub call :
    (ℕ → Bool)
    → Json
    → String
    → Option Json
    → Session
    → Option Reply
    → Session
    → Option Reply
    → SaltClient
    → Run Json
call is_success tgt function arg w first w' second c =
    on_checked (validate_configured_minion tgt c.allowed_minions) c
      λ t. send_call is_success t (call_post t function arg) w first w' second c
