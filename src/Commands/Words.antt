-- ===== src/Commands/Words.antt =====
-- What a shell reads in the commands of uyuni_ai_agent/validation.py and of
-- `SaltAPIClient.service_logs` (uyuni_ai_agent/salt_api.py).
use uyuni_ai.Common.{
  ℕ, ◌/◌, ◌%◌, ◌≤◌, ◌≡◌, refl, Bool, true, false, not, ◌&&◌, ◌||◌, Option, some, List, [], ◌∷◌,
  ◌++◌, String, ◌⊎◌, inl, inr, ltb, leb, ◌==◌, arith, tests, Bool-cases, if_cases, on_option_cases,
}
use uyuni_ai.Common.Lists.{length, all, is_nonempty}
use uyuni_ai.Common.Text.{codes}
use uyuni_ai.Common.Int.{ℤ, pos, negsuc, finite, infinity, negative_infinity, nan}
use uyuni_ai.Common.Json.{Json, null, bool, num, str, array, object}
use uyuni_ai.Common.Result.{Result, ok, err, Returns, ◌>>=◌}
use uyuni_ai.Common.Shell.{quote, decimal, word, is_safe, readings, shell_words, Part}
use uyuni_ai.Common.Shell.Quoted.{safe_text, space_ends, decimal_on-safe, quote_last}
use uyuni_ai.Commands.{
  Refusal, bounded_int, in_range, whole_in_range, checked_target, validate_network_target,
  labels_of, are_host_labels, ping_text, build_ping_command,
}

-- a fixed word, with a space after it
pub fixed :
    (s cs : List ℕ) (ps : List Part)
    → is_nonempty s ≡ true
    → all is_safe s ≡ true
    → (readings cs).outside ≡ some ps
    → (readings (s ++ 32 ∷ cs)).outside ≡ some (word s ∷ ps)
fixed s cs ps h k e = safe_text s (32 ∷ cs) ps h k (space_ends cs ps e)

pub number :
    (n : ℕ) (cs : List ℕ) (ps : List Part)
    → (readings cs).outside ≡ some ps
    → (readings (decimal n ++ 32 ∷ cs)).outside ≡ some (word (decimal n) ∷ ps)
number n cs ps e = let (h, k) = decimal_on-safe n n in fixed (decimal n) cs ps h k e

abbrev pub ping_words : List ℕ → ℕ → List Part
ping_words t n =
    word (codes "ping") ∷ word (codes "-c") ∷ word (decimal n) ∷ word (codes "--") ∷ word t ∷ []

ping_text-words : (t : List ℕ) (n : ℕ) → shell_words (ping_text t n) ≡ some (ping_words t n)
unfolding ping_text shell_words
ping_text-words t n =
    let c = codes "--" ++ 32 ∷ quote t in
    let b = decimal n ++ 32 ∷ c in
    let a = codes "-c" ++ 32 ∷ b in
    let last = fixed (codes "--") (quote t) (word t ∷ []) refl refl (quote_last t) in
    fixed (codes "ping") a _ refl refl (fixed (codes "-c") b _ refl refl (number n c _ last))

abbrev pub Between : ℕ → ℕ → Result Refusal ℕ → Type 0
Between low high r = Returns (λ n. (low ≤ n) × (n ≤ high)) r

in_range-IsBounded : (low high : ℕ) (z : ℤ) → Between low high (in_range low high z)
unfolding in_range
in_range-IsBounded low high (pos n) = elim (Bool-cases (leb low n && leb n high)) [
  | inl q ↦ rw q (grind tests, grind tests)
  | inr q ↦ rw q tt
]
in_range-IsBounded low high (negsuc n) = tt

pub bounded_int-IsBounded :
    (int_of : String → Option ℤ) (value : Json) (low high : ℕ)
    → Between low high (bounded_int int_of value low high)
unfolding bounded_int whole_in_range
bounded_int-IsBounded int_of (num (finite (pos n))) low high =
    if_cases (Between low high) (n % 1000 == 0) (λ q. in_range-IsBounded low high (pos (n / 1000)))
      λ q. tt
bounded_int-IsBounded int_of (num (finite (negsuc n))) low high = tt
bounded_int-IsBounded int_of (num nan) low high = tt
bounded_int-IsBounded int_of (num infinity) low high = tt
bounded_int-IsBounded int_of (num negative_infinity) low high = tt
bounded_int-IsBounded int_of (str s) low high =
    on_option_cases (Between low high) (int_of s) (λ q. tt) λ z q. in_range-IsBounded low high z
bounded_int-IsBounded int_of null low high = tt
bounded_int-IsBounded int_of (bool b) low high = tt
bounded_int-IsBounded int_of (array xs) low high = tt
bounded_int-IsBounded int_of (object m) low high = tt

-- an address, or host labels, in the length that a name may have
abbrev pub IsTarget : (List ℕ → Bool) → List ℕ → Type 0
IsTarget is_ip t =
    (is_nonempty t ≡ true)
    × (length t ≤ 253)
    × ((is_ip t ≡ true) ⊎ (are_host_labels (labels_of t) ≡ true))

abbrev pub Targets : (List ℕ → Bool) → Result Refusal (List ℕ) → Type 0
Targets is_ip r = Returns (IsTarget is_ip) r

not_more : (a b : ℕ) → ltb a b ≡ false → b ≤ a
not_more a b h = ground arith

short : (b c : Bool) → (not b || c) ≡ false → (b ≡ true) × (c ≡ false)
short true c h = (refl, h)
short false c h = cc

checked_target-IsTarget :
    (is_ip : List ℕ → Bool) (t : List ℕ) → Targets is_ip (checked_target is_ip t)
unfolding checked_target
checked_target-IsTarget is_ip t =
    if_cases (Targets is_ip) (not (is_nonempty t) || ltb 253 (length t)) (λ _. tt)
      λ q.
        let (some_char, fits) = short (is_nonempty t) (ltb 253 (length t)) q in
        let most = not_more 253 (length t) fits in
        if_cases (Targets is_ip) (is_ip t) (λ a. (some_char, most, inl a))
          λ _.
            if_cases (Targets is_ip) (are_host_labels (labels_of t)) (λ a. (some_char, most, inr a))
              λ _. tt

validate_network_target-IsTarget :
    (is_ip : List ℕ → Bool) (target : Json) → Targets is_ip (validate_network_target is_ip target)
unfolding validate_network_target
validate_network_target-IsTarget is_ip (str s) = checked_target-IsTarget is_ip _
validate_network_target-IsTarget is_ip null = tt
validate_network_target-IsTarget is_ip (bool b) = tt
validate_network_target-IsTarget is_ip (num x) = tt
validate_network_target-IsTarget is_ip (array xs) = tt
validate_network_target-IsTarget is_ip (object m) = tt

-- the command with the target and the count that it was made of, or why there is none
abbrev pub IsPing :
    (List ℕ → Bool) → Result Refusal (List ℕ) → Result Refusal ℕ → Result Refusal (List ℕ) → Type 0
IsPing is_ip target count (ok cmd) =
    (t : List ℕ) × (n : ℕ) × (target ≡ ok t)
    × (count ≡ ok n)
    × IsTarget is_ip t
    × (1 ≤ n)
    × (n ≤ 5)
    × (shell_words cmd ≡ some (ping_words t n))
IsPing is_ip target count (err e) =
    (target ≡ err e) ⊎ ((t : List ℕ) × (target ≡ ok t) × (count ≡ err e))

made_of_checked :
    (is_ip : List ℕ → Bool) (target : Result Refusal (List ℕ)) (count : Result Refusal ℕ)
    → Targets is_ip target
    → Between 1 5 count
    → IsPing is_ip target count (target >>= λ t. count >>= λ n. ok (ping_text t n))
made_of_checked is_ip (ok t) (ok n) h (low, high) =
    (t, n, refl, refl, h, low, high, ping_text-words t n)
made_of_checked is_ip (ok t) (err e) h k = inr (t, refl, refl)
made_of_checked is_ip (err e) count h k = inl refl

-- A ping command is built exactly if its target and its count pass their checks, else the first
-- refusal of the two is raised. A POSIX shell then splits the command into exactly five words, `ping`,
-- `-c`, the count, `--` and the target as it was checked; the count is from 1 to 5, and the target
-- has 1 to 253 characters and is an IP address or a name of host labels. What `int` reads in a text
-- and which texts are IP addresses may be anything.
pub build_ping_command-IsPing :
    (is_ip : List ℕ → Bool) (int_of : String → Option ℤ) (target count : Json)
    → IsPing is_ip
        (validate_network_target is_ip target)
        (bounded_int int_of count 1 5)
        (build_ping_command is_ip int_of target count)
unfolding build_ping_command
build_ping_command-IsPing is_ip int_of target count =
    made_of_checked is_ip (validate_network_target is_ip target) (bounded_int int_of count 1 5)
      (validate_network_target-IsTarget is_ip target) (bounded_int-IsBounded int_of count 1 5)
