-- ===== src/Evidence/Remediation/Safety.antt =====
-- What `_sanitize_remediation` (evidence.py) lets through.
use uyuni_ai.Common.{
  ℕ, ◌+◌, ◌≡◌, refl, Bool, true, false, not, ◌&&◌, ◌==◌, ◌⊎◌, inl, inr, List, [], ◌∷◌, ◌++◌, arith,
  if◌then◌else◌, if_cases,
}
use uyuni_ai.Common.Lists.{length, is_nonempty, All}
use uyuni_ai.Common.Regex.{search}
use uyuni_ai.Common.Strip.{strip}
use uyuni_ai.Evidence.Remediation.{
  high_risk, changes_ssh_trust, verifies_fingerprint, safe_steps, written_steps, join, verify_step,
  escalate_step, operator_step, inconclusive_steps, with_verification, or_operator,
  sanitize_remediation,
}

removed_one :
    (written bad : Bool) (stripped step : List ℕ) (safe all_written : List (List ℕ)) (n : ℕ)
    → length safe + n ≡ length all_written
    → length (if written && not bad then stripped ∷ safe else safe)
        + ((if written && bad then 1 else 0) + n)
      ≡ length (if written then step ∷ all_written else all_written)
removed_one true true stripped step safe all_written n h = omega (arith, h)
removed_one true false stripped step safe all_written n h = omega (arith, h)
removed_one false bad stripped step safe all_written n h = omega (arith, h)

counted_with : (a b n : ℕ) → a + n ≡ b → (a + 1 == b) ≡ (n == 1)
counted_with a b n h = ground (arith, h)

module _ (u : ℕ → Bool) where
  -- `step` is one of the list
  abbrev pub In : List ℕ → List (List ℕ) → Type 0
  In step [] = ⊥
  In step (x ∷ xs) = (step ≡ x) ⊎ In step xs

  -- `line` is a step of the list, stripped, that has no high-risk text
  abbrev pub FromSafe : List (List ℕ) → List ℕ → Type 0
  FromSafe steps line =
      (step : List ℕ) × In step steps
      × (line ≡ strip step)
      × (search u high_risk step ≡ false)
      × (is_nonempty line ≡ true)

  -- one of the sentences that the program writes itself
  abbrev pub IsFixed : List ℕ → Type 0
  IsFixed line = (line ≡ verify_step) ⊎ ((line ≡ escalate_step) ⊎ (line ≡ operator_step))

  abbrev pub IsAllowed : List (List ℕ) → List ℕ → Type 0
  IsAllowed steps line = FromSafe steps line ⊎ IsFixed line

  FromSafe-cons :
      (x : List ℕ) (steps : List (List ℕ)) (line : List ℕ)
      → FromSafe steps line
      → FromSafe (x ∷ steps) line
  FromSafe-cons x steps line (s, i, e, r, n) = (s, inr i, e, r, n)

  All-map :
      (P Q : List ℕ → Type 0) (xs : List (List ℕ))
      → ((x : List ℕ) → P x → Q x)
      → All P xs
      → All Q xs
  All-map P Q [] f h = tt
  All-map P Q (x ∷ xs) f h = (f x h.0, All-map P Q xs f h.1)

  All-append :
      (P : List ℕ → Type 0) (xs ys : List (List ℕ)) → All P xs → All P ys → All P (xs ++ ys)
  All-append P [] ys h k = k
  All-append P (x ∷ xs) ys h k = (h.0, All-append P xs ys h.1 k)

  safe_steps-FromSafe : (steps : List (List ℕ)) → All (FromSafe steps) (safe_steps u steps)
  unfolding safe_steps
  safe_steps-FromSafe [] = tt
  safe_steps-FromSafe (step ∷ steps) =
      let rest =
        All-map (FromSafe steps) (FromSafe (step ∷ steps)) (safe_steps u steps)
          (FromSafe-cons step steps) (safe_steps-FromSafe steps) in
      if_cases (All (FromSafe (step ∷ steps)))
        (is_nonempty (strip step) && not (search u high_risk step))
        (λ h. ((step, inl refl, refl, ground arith, ground arith), rest)) (λ _. rest)

  with_verification-IsAllowed :
      (steps safe : List (List ℕ))
      → All (IsAllowed steps) safe
      → All (IsAllowed steps) (with_verification u safe)
  unfolding with_verification
  with_verification-IsAllowed steps safe h =
      if_cases (All (IsAllowed steps))
        (search u changes_ssh_trust (join safe) && not (search u verifies_fingerprint (join safe)))
        (λ _. (inr (inl refl), h)) (λ _. h)

  or_operator-IsAllowed :
      (steps safe : List (List ℕ))
      → All (IsAllowed steps) safe
      → All (IsAllowed steps) (or_operator safe)
  or_operator-IsAllowed steps [] h = (inr (inr (inr refl)), tt)
  or_operator-IsAllowed steps (x ∷ xs) h = h

  -- Of a confirmed analysis, every remediation line that comes out is a step of the analysis,
  -- stripped, that is not blank and in which the high-risk pattern finds nothing, or one of the three
  -- sentences that the program adds itself.
  pub sanitize-IsAllowed :
      (steps : List (List ℕ)) → All (IsAllowed steps) (sanitize_remediation u false steps)
  unfolding sanitize_remediation
  sanitize-IsAllowed steps =
      let safe = with_verification u (safe_steps u steps) in
      let ok : All (IsAllowed steps) safe = with_verification-IsAllowed steps (safe_steps u steps) (
        All-map (FromSafe steps) (IsAllowed steps) (safe_steps u steps) (λ x h. inl h)
          (safe_steps-FromSafe steps)) in
      or_operator-IsAllowed steps _ (
        if_cases (All (IsAllowed steps)) (length safe == length (written_steps steps)) (λ _. ok)
          (λ _.
            All-append (IsAllowed steps) safe (escalate_step ∷ []) ok (inr (inr (inl refl)), tt)))

  pub inconclusive-steps :
      (steps : List (List ℕ)) → sanitize_remediation u true steps ≡ inconclusive_steps
  unfolding sanitize_remediation
  inconclusive-steps steps = refl

  -- the analysis asks for a change of SSH trust and verifies no fingerprint
  abbrev pub NeedsVerification : List (List ℕ) → Type 0
  NeedsVerification steps =
      (search u changes_ssh_trust (join (safe_steps u steps)) ≡ true)
      × (search u verifies_fingerprint (join (safe_steps u steps)) ≡ false)

  -- how many of the steps are not blank, but removed for what they do
  abbrev pub removed : List (List ℕ) → ℕ
  removed [] = 0
  removed (step ∷ steps) =
      (if is_nonempty (strip step) && search u high_risk step then 1 else 0) + removed steps

  -- every step that is not blank is safe or removed
  removed-counts :
      (steps : List (List ℕ))
      → length (safe_steps u steps) + removed steps ≡ length (written_steps steps)
  unfolding safe_steps written_steps
  removed-counts [] = refl
  removed-counts (step ∷ steps) =
      removed_one (is_nonempty (strip step)) (search u high_risk step) (strip step) step
        (safe_steps u steps) (written_steps steps) (removed steps) (removed-counts steps)

  -- The escalation sentence is meant for analyses of which a step was removed as destructive. But
  -- where the verification step is inserted, it is counted as one of the safe steps: the sentence is
  -- left out exactly if one step was removed, and added otherwise, also if none was.
  pub verification_confuses_escalation :
      (steps : List (List ℕ))
      → NeedsVerification steps
      → sanitize_remediation u false steps ≡ (
          if removed steps == 1
          then verify_step ∷ safe_steps u steps
          else verify_step ∷ (safe_steps u steps ++ (escalate_step ∷ [])))
  unfolding sanitize_remediation with_verification
  verification_confuses_escalation steps (c, v) =
      let same : (length (safe_steps u steps) + 1 == length (written_steps steps))
          ≡ (removed steps == 1) =
        counted_with (length (safe_steps u steps)) (length (written_steps steps)) (removed steps)
          (removed-counts steps) in
      rw (c, v) (ground (arith, same))
