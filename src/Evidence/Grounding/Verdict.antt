-- ===== src/Evidence/Grounding/Verdict.antt =====
-- What `ground_analysis` (evidence.py) returns, whether it accepts the analysis or not.
use uyuni_ai.Common.{
  ℕ, zero, suc, ◌≤◌, ◌≡◌, refl, Bool, true, not, List, [], ◌∷◌, map, arith, if_cases, on_list_cases,
  subst,
}
use uyuni_ai.Common.Lists.{length, take, filter, mem, All, length-take-le}
use uyuni_ai.Evidence.Records.{EvidenceId, numbered, EvidenceRecord, is_ok, in_ids}
use uyuni_ai.Evidence.Records.Ledger.{own_ids}
use uyuni_ai.Evidence.Remediation.{inconclusive_steps}
use uyuni_ai.Evidence.Remediation.Safety.{inconclusive-steps}
use uyuni_ai.Evidence.Grounding.{
  AnalysisConclusion, confirmed, inconclusive, RootCauseAnalysis, Gate, of_record, supporting,
  failed_records, fallback, is_grounded, accept, reject, ground_analysis,
}
use uyuni_ai.Evidence.Grounding.Gates.{supporting_from_sound, gates-IsGrounded}

module _ {A : Type 0} (P : A → Type 0) where
  All-take : (n : ℕ) (xs : List A) → All P xs → All P (take n xs)
  All-take zero xs h = tt
  All-take (suc n) [] h = tt
  All-take (suc n) (x ∷ xs) h = (h.0, All-take n xs h.1)

  All-filter : (p : A → Bool) (xs : List A) → All P xs → All P (filter p xs)
  All-filter p [] h = tt
  All-filter p (x ∷ xs) h =
      if_cases (All P) (p x) (λ _. (h.0, All-filter p xs h.1)) (λ _. All-filter p xs h.1)

length-map : {A B : Type 0} (f : A → B) (xs : List A) → length (map f xs) ≡ length xs
length-map f [] = refl
length-map f (x ∷ xs) = omega (arith, length-map f xs)

module _ (rs : List EvidenceRecord) where
  abbrev pub InLedger : EvidenceId → Type 0
  InLedger i = in_ids i rs ≡ true

  numbered-InLedger :
      (ns : List ℕ)
      → ((n : ℕ) → mem n ns ≡ true → InLedger (numbered n))
      → All InLedger (map numbered ns)
  numbered-InLedger [] h = tt
  numbered-InLedger (n ∷ ns) h =
      (h n (ground arith), numbered-InLedger ns (λ k m. h k (ground arith)))

  records-InLedger :
      (xs : List EvidenceRecord)
      → All (λ r. InLedger (numbered r.id)) xs
      → All InLedger (map (λ r. numbered r.id) xs)
  records-InLedger [] h = tt
  records-InLedger (x ∷ xs) h = (h.0, records-InLedger xs h.1)

  fallback-InLedger : All (λ r. InLedger (numbered r.id)) (fallback rs)
  unfolding fallback failed_records
  fallback-InLedger =
      let P : EvidenceRecord → Type 0 = λ r. InLedger (numbered r.id) in
      on_list_cases (All P) (failed_records rs) (λ _. All-take P 3 rs (own_ids rs))
        (λ y ys e.
          All-take P 3 (y ∷ ys)
            (subst (All P) e (All-filter P (λ r. not (is_ok r.status)) rs (own_ids rs))))

  fallback-bound : length (fallback rs) ≤ 3
  unfolding fallback
  fallback-bound =
      on_list_cases (λ (xs : List EvidenceRecord). length xs ≤ 3) (failed_records rs)
        (λ _. length-take-le 3 rs) (λ y ys _. length-take-le 3 (y ∷ ys))

-- what an inconclusive analysis is reduced to
abbrev pub IsCautious : AnalysisConclusion → RootCauseAnalysis → Type 0
IsCautious confirmed out = Unit
IsCautious inconclusive out =
    (out.affected_component ≡ "unknown")
    × (out.confidence ≤ 300)
    × (out.remediation ≡ inconclusive_steps)
    × (length out.supporting_evidence_ids ≤ 3)

-- What a returned analysis keeps of the one it was made from: the IDs that it gives as supporting
-- evidence are of the ledger.
pub record IsVerdict (rs : List EvidenceRecord) (a out : RootCauseAnalysis) : Type 0 where
  pub cites_known : All (λ i. in_ids i rs ≡ true) out.supporting_evidence_ids
  pub at_most_three : length out.key_evidence ≤ 3
  pub no_more_confident : out.confidence ≤ a.confidence
  pub cautious : IsCautious out.conclusion out

-- Whatever the model's analysis, the supporting evidence IDs of the returned one are all IDs of
-- records of the ledger, it has at most three lines of key evidence, and it is not more confident.
-- If it is inconclusive, it names no component, has a confidence of at most 0.3 and at most three
-- supporting evidence IDs, and recommends only the two fixed steps.
pub ground-IsVerdict :
    (u : ℕ → Bool) (gate : Gate) (now : ℕ) (rs : List EvidenceRecord) (a : RootCauseAnalysis)
    → IsVerdict rs a (ground_analysis u gate now rs a)
unfolding ground_analysis accept reject supporting
ground-IsVerdict u gate now rs a =
    if_cases (IsVerdict rs a) (is_grounded u gate now rs a)
      (λ g. record {
        cites_known =
            numbered-InLedger rs _
              (λ n m. (supporting_from_sound rs [] a.supporting_evidence_ids n m).0);
        at_most_three = length-take-le 3 _;
        no_more_confident = omega arith;
        cautious = rw ((gates-IsGrounded u gate now rs a g).by_model) tt;
      })
      (λ g. record {
        cites_known = records-InLedger rs (fallback rs) (fallback-InLedger rs);
        at_most_three =
            omega
              (arith, length-map (λ r. of_record r.id r.summary) (fallback rs), fallback-bound rs);
        no_more_confident = omega arith;
        cautious = (
          refl,
          omega arith,
          inconclusive-steps u a.remediation,
          omega (arith, length-map (λ r. numbered r.id) (fallback rs), fallback-bound rs),
        );
      })
