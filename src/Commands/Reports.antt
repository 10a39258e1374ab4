-- ===== src/Commands/Reports.antt =====
-- What a shell reads in the command of `SaltAPIClient.service_logs` (uyuni_ai_agent/salt_api.py).
use uyuni_ai.Common.{
  ℕ, ◌≤◌, ◌≡◌, refl, Bool, true, not, ◌&&◌, Option, some, List, [], ◌∷◌, ◌++◌, String, ◌⊎◌, inl,
  inr, ltb, arith, if_cases,
}
use uyuni_ai.Common.Lists.{length, all, is_nonempty}
use uyuni_ai.Common.Text.{codes}
use uyuni_ai.Common.Int.{ℤ}
use uyuni_ai.Common.Json.{Json, null, bool, num, str, array, object}
use uyuni_ai.Common.Result.{Result, ok, err, Returns, ◌>>=◌}
use uyuni_ai.Common.Shell.{decimal, word, is_safe, shell_words, Part}
use uyuni_ai.Common.Shell.Quoted.{safe_last}
use uyuni_ai.Commands.{
  Refusal, bounded_int, is_unit_char, is_full_name, is_service_name, normalized,
  validate_service_text, validate_systemd_service, service_logs_text, service_logs_command,
}
use uyuni_ai.Commands.Words.{fixed, number, Between, bounded_int-IsBounded}

-- a name of a unit that a shell reads as it is, with the suffix of a service
abbrev pub IsUnit : List ℕ → Type 0
IsUnit s = (is_nonempty s ≡ true) × (all is_unit_char s ≡ true) × (is_service_name s ≡ true)

abbrev Units : Result Refusal (List ℕ) → Type 0
Units r = Returns IsUnit r

full_parts : (a b c : Bool) → (a && (b && c)) ≡ true → (a ≡ true) × (b ≡ true) × (c ≡ true)
full_parts a b c h = (ground arith, ground arith, ground arith)

long_nonempty : (s : List ℕ) → ltb 8 (length s) ≡ true → is_nonempty s ≡ true
long_nonempty [] h = cc
long_nonempty (c ∷ s) h = refl

full_name-IsUnit : (s : List ℕ) → is_full_name s ≡ true → IsUnit s
unfolding is_full_name
full_name-IsUnit s h =
    let (a, b, c) = full_parts (all is_unit_char s) (is_service_name s) (ltb 8 (length s)) h in
    (long_nonempty s c, a, b)

validate_service_text-IsUnit : (s : List ℕ) → Units (validate_service_text s)
unfolding validate_service_text
validate_service_text-IsUnit s =
    if_cases Units (not (is_nonempty s && all is_unit_char s)) (λ _. tt)
      λ _.
        if_cases Units (is_full_name (normalized s)) (λ q. full_name-IsUnit (normalized s) q)
          λ _. tt

validate_systemd_service-IsUnit : (service : Json) → Units (validate_systemd_service service)
unfolding validate_systemd_service
validate_systemd_service-IsUnit (str s) = validate_service_text-IsUnit (codes s)
validate_systemd_service-IsUnit null = tt
validate_systemd_service-IsUnit (bool b) = tt
validate_systemd_service-IsUnit (num x) = tt
validate_systemd_service-IsUnit (array xs) = tt
validate_systemd_service-IsUnit (object m) = tt

unit_char-safe : (c : ℕ) → is_unit_char c ≡ true → is_safe c ≡ true
unfolding is_unit_char
unit_char-safe c h = ground arith

all_weaken :
    (p q : ℕ → Bool)
    → ((c : ℕ) → p c ≡ true → q c ≡ true)
    → (s : List ℕ) → all p s ≡ true
    → all q s ≡ true
all_weaken p q f [] h = refl
all_weaken p q f (c ∷ s) h = ground (arith, f c, all_weaken p q f s)

abbrev pub logs_words : List ℕ → ℕ → List Part
logs_words s n =
    word (codes "journalctl")
    ∷ word (codes "-u")
    ∷ word s
    ∷ word (codes "-n")
    ∷ word (decimal n)
    ∷ word (codes "--no-pager")
    ∷ []

service_logs_text-words :
    (s : List ℕ) (n : ℕ) → IsUnit s → shell_words (service_logs_text s n) ≡ some (logs_words s n)
unfolding service_logs_text shell_words
service_logs_text-words s n (some_char, unit, _) =
    let d = decimal n ++ 32 ∷ codes "--no-pager" in
    let c = codes "-n" ++ 32 ∷ d in
    let b = s ++ 32 ∷ c in
    let a = codes "-u" ++ 32 ∷ b in
    let safe = all_weaken is_unit_char is_safe unit_char-safe s unit in
    let last = number n (codes "--no-pager") _ (safe_last (codes "--no-pager") refl refl) in
    let middle = fixed s c _ some_char safe (fixed (codes "-n") d _ refl refl last) in
    fixed (codes "journalctl") a _ refl refl (fixed (codes "-u") b _ refl refl middle)

-- the command with the service and the number of lines that it was made of, or why there is none
abbrev pub IsLogs : Result Refusal (List ℕ) → Result Refusal ℕ → Result Refusal (List ℕ) → Type 0
IsLogs service lines (ok cmd) =
    (s : List ℕ) × (n : ℕ) × (service ≡ ok s)
    × (lines ≡ ok n)
    × IsUnit s
    × (1 ≤ n)
    × (n ≤ 200)
    × (shell_words cmd ≡ some (logs_words s n))
IsLogs service lines (err e) =
    (service ≡ err e) ⊎ ((s : List ℕ) × (service ≡ ok s) × (lines ≡ err e))

made_of_checked :
    (service : Result Refusal (List ℕ)) (lines : Result Refusal ℕ)
    → Units service
    → Between 1 200 lines
    → IsLogs service lines (service >>= λ s. lines >>= λ n. ok (service_logs_text s n))
made_of_checked (ok s) (ok n) h (low, high) =
    (s, n, refl, refl, h, low, high, service_logs_text-words s n h)
made_of_checked (ok s) (err e) h k = inr (s, refl, refl)
made_of_checked (err e) lines h k = inl refl

-- A command for the logs of a service is built exactly if the service and the number of lines pass
-- their checks, else the first refusal of the two is raised. Though the name of the service is put
-- into the command without quotes, a POSIX shell splits it into exactly six words, of which the third is that
-- name and the fifth the number of lines; the name ends in `.service` and has only letters, digits
-- and `_.@:-`, and the lines are from 1 to 200. What `int` reads in a text may be anything.
pub service_logs_command-IsLogs :
    (int_of : String → Option ℤ) (service lines : Json)
    → IsLogs
        (validate_systemd_service service)
        (bounded_int int_of lines 1 200)
        (service_logs_command int_of service lines)
unfolding service_logs_command
service_logs_command-IsLogs int_of service lines =
    made_of_checked (validate_systemd_service service) (bounded_int int_of lines 1 200)
      (validate_systemd_service-IsUnit service) (bounded_int-IsBounded int_of lines 1 200)
