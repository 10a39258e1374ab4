-- ===== src/Evidence/Remediation.antt =====
-- `_sanitize_remediation` of uyuni_ai_agent/evidence.py and its patterns.
pub mod Safety
use uyuni_ai.Common.{
  ℕ, Bool, true, false, not, ◌&&◌, ◌==◌, List, [], ◌∷◌, ◌++◌, String, if◌then◌else◌,
}
use uyuni_ai.Common.Lists.{length, filter, is_nonempty, reverse}
use uyuni_ai.Common.Strip.{strip}
use uyuni_ai.Common.Text.{codes}
use uyuni_ai.Common.Regex.{
  Regex, empty, one, boundary, line_end, seq, alt, star, is_space, word, sequence, choice, space,
  spaces, blanks, dot, dots, search,
}

-- `[^\n]*` and `[^.\n]*`
abbrev in_line : Regex
in_line = dots

abbrev in_sentence : Regex
in_sentence = star (one (λ c. not (c == 10) && not (c == b'.')))

abbrev equals : Regex
equals = sequence (blanks ∷ word "=" ∷ blanks ∷ [])

unfoldable pub high_risk : Regex
high_risk = choice (sequence (boundary ∷ word "rm" ∷ spaces ∷ word "-rf" ∷ boundary ∷ [])) (
    sequence (boundary ∷ word "kill" ∷ spaces ∷ word "-9" ∷ boundary ∷ [])
    ∷ sequence (boundary ∷ word "mkfs" ∷ alt (word ".") space ∷ [])
    ∷ sequence (boundary ∷ word "dd" ∷ spaces ∷ word "if=" ∷ [])
    ∷ sequence
        (boundary ∷ word "drop" ∷ spaces ∷ alt (word "database") (word "table") ∷ boundary ∷ [])
    ∷ sequence (boundary ∷ word "truncate" ∷ spaces ∷ word "table" ∷ boundary ∷ [])
    ∷ sequence (boundary ∷ alt (word "reboot") (word "shutdown") ∷ boundary ∷ [])
    ∷ sequence (boundary ∷ word "chmod" ∷ spaces ∷ alt (word "666") (word "777") ∷ boundary ∷ [])
    ∷ sequence (boundary ∷ word "stricthostkeychecking" ∷ equals ∷ word "no" ∷ boundary ∷ [])
    ∷ sequence (boundary ∷ word "userknownhostsfile" ∷ equals ∷ word "/dev/null" ∷ boundary ∷ [])
    ∷ sequence (
        boundary
        ∷ word "curl"
        ∷ boundary
        ∷ in_line
        ∷ alt (sequence (space ∷ word "-k" ∷ alt space line_end ∷ []))
            (sequence (space ∷ word "--insecure" ∷ boundary ∷ []))
        ∷ [])
    ∷ sequence (
        boundary
        ∷ choice (word "verify_tls") (word "ssl_verify" ∷ word "verify" ∷ [])
        ∷ equals
        ∷ alt (word "false") (word "0")
        ∷ boundary
        ∷ [])
    ∷ sequence (
        boundary
        ∷ choice (word "delete") (word "remove" ∷ word "clear" ∷ [])
        ∷ boundary
        ∷ in_sentence
        ∷ boundary
        ∷ word "known_hosts"
        ∷ boundary
        ∷ [])
    ∷ [])

abbrev host_key : Regex
host_key =
    alt (word "known_hosts") (sequence (word "host" ∷ alt (word "-") (word " ") ∷ word "key" ∷ []))

abbrev change : Regex
change = choice (word "replace") (word "update" ∷ word "change" ∷ [])

unfoldable pub changes_ssh_trust : Regex
changes_ssh_trust =
    alt (sequence (host_key ∷ dots ∷ change ∷ [])) (sequence (change ∷ dots ∷ host_key ∷ []))

abbrev trusted_channel : Regex
trusted_channel =
    choice (word "trusted")
      (sequence (word "out" ∷ dot ∷ word "of" ∷ dot ∷ word "band" ∷ []) ∷ word "console" ∷ [])

unfoldable pub verifies_fingerprint : Regex
verifies_fingerprint =
    alt (sequence (word "verify" ∷ dots ∷ word "fingerprint" ∷ dots ∷ trusted_channel ∷ [])) (
      sequence (
        word "fingerprint"
        ∷ dots
        ∷ trusted_channel
        ∷ dots
        ∷ alt (word "verify") (word "confirm")
        ∷ []))

-- [step.strip() for step in steps if step.strip() and not _HIGH_RISK_REMEDIATION.search(step)]
unfoldable pub safe_steps : (ℕ → Bool) → List (List ℕ) → List (List ℕ)
safe_steps u [] = []
safe_steps u (step ∷ steps) =
    let rest = safe_steps u steps in
    if is_nonempty (strip step) && not (search u high_risk step) then strip step ∷ rest else rest

-- [step for step in steps if step.strip()]
pub written_steps : List (List ℕ) → List (List ℕ)
written_steps steps = filter (λ step. is_nonempty (strip step)) steps

-- " ".join(texts)
abbrev pub join : List (List ℕ) → List ℕ
join [] = []
join (t ∷ []) = t
join (t ∷ s ∷ ts) = t ++ (32 ∷ join (s ∷ ts))

abbrev pub verify_step : List ℕ
verify_step =
    codes
      "Verify the presented SSH fingerprint through a trusted out-of-band channel before changing pinned trust."

abbrev pub escalate_step : List ℕ
escalate_step = codes "Escalate destructive recovery actions for explicit operator approval."

abbrev pub operator_step : List ℕ
operator_step = codes "Have an operator validate a safe remediation from the cited evidence."

abbrev pub inconclusive_steps : List (List ℕ)
inconclusive_steps =
    codes "Restore or refresh the missing evidence and repeat the investigation."
    ∷ codes
        "Have an operator validate the affected component before changing service state or data."
    ∷ []

-- `safe` after the insertion of the verification step
pub with_verification : (ℕ → Bool) → List (List ℕ) → List (List ℕ)
with_verification u safe =
    let combined = join safe in
    if search u changes_ssh_trust combined && not (search u verifies_fingerprint combined)
    then verify_step ∷ safe
    else safe

abbrev pub or_operator : List (List ℕ) → List (List ℕ)
or_operator [] = operator_step ∷ []
or_operator (s ∷ ss) = s ∷ ss

-- `unicode` says which characters above ASCII are letters or digits
pub sanitize_remediation : (ℕ → Bool) → Bool → List (List ℕ) → List (List ℕ)
sanitize_remediation u inconclusive steps =
    let safe = with_verification u (safe_steps u steps) in
    if inconclusive
    then inconclusive_steps
    else or_operator
        (if length safe == length (written_steps steps) then safe else safe ++ (escalate_step ∷ []))
