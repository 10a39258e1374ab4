-- ===== src/Detector/Correlation/Pairs.antt =====
-- The search for a pair of anomalies in `correlate_dependency_anomalies` (anomaly_detector.py).
use uyuni_ai.Common.{
  ℕ, zero, suc, ◌+◌, ◌≡◌, refl, ap, ◌∙◌, inl, inr, Bool, true, false, ◌&&◌, Option, none, some,
  List, [], ◌∷◌, arith, Bool-cases, Option-cases, if_cases, subst, subst,
}
use uyuni_ai.Common.Lists.{All}
use uyuni_ai.Anomaly.{Anomaly}
use uyuni_ai.Detector.Correlation.{
  Edge, is_apache_candidate, is_postgres_candidate, candidates, linked, first_partner,
  selected_pair,
}

-- xs[n], if it is there
abbrev pub at : ℕ → List Anomaly → Option Anomaly
at n [] = none
at zero (x ∷ xs) = some x
at (suc n) (x ∷ xs) = at n xs

-- every entry is an anomaly of the list that passes the test, at its index
pub candidates-at :
    (p : Anomaly → Bool) (k : ℕ) (xs : List Anomaly) (f : ℕ → Option Anomaly)
    → ((n : ℕ) → f (k + n) ≡ at n xs)
    → All (λ (e : ℕ × Anomaly). (f e.0 ≡ some e.1) × (p e.1 ≡ true)) (candidates p k xs)
unfolding candidates
candidates-at p k [] f h = tt
candidates-at p k (x ∷ xs) f h =
    let rest = candidates-at p (suc k) xs f (λ n. ap f (omega arith) ∙ h (suc n)) in
    if_cases (All (λ (e : ℕ × Anomaly). (f e.0 ≡ some e.1) × (p e.1 ≡ true))) (p x)
      (λ t. ((ap f (omega arith) ∙ h 0, t), rest)) (λ _. rest)

first_partner-linked :
    (R : ℕ × Anomaly → Type 0) (edges : List (Option Edge)) (a : Anomaly) (ps : List (ℕ × Anomaly))
    (q : ℕ × Anomaly)
    → All R ps
    → first_partner edges a ps ≡ some q
    → R q × (linked edges a q.1 ≡ true)
unfolding first_partner
first_partner-linked R edges a [] q h e = cc
first_partner-linked R edges a (p ∷ ps) q h e = elim (Bool-cases (linked edges a p.1)) [
  | inl t ↦
      let same : p ≡ q = ground arith in
      subst (λ r. R r × (linked edges a r.1 ≡ true)) same (h.0, t)
  | inr t ↦ first_partner-linked R edges a ps q h.1 (ground arith)
]

pub selected_pair-linked :
    (R S : ℕ × Anomaly → Type 0) (edges : List (Option Edge)) (as' ps : List (ℕ × Anomaly))
    (a p : ℕ × Anomaly)
    → All R as'
    → All S ps
    → selected_pair edges as' ps ≡ some (a, p)
    → R a × S p × (linked edges a.1 p.1 ≡ true)
unfolding selected_pair
selected_pair-linked R S edges [] ps a p h g e = cc
selected_pair-linked R S edges (x ∷ xs) ps a p h g e =
    elim (Option-cases (first_partner edges x.1 ps)) [
      | inl n ↦ selected_pair-linked R S edges xs ps a p h.1 g (ground arith)
      | inr (q, f) ↦
          let (s, l) = first_partner-linked S edges x.1 ps q g f in
          let same_a : x ≡ a = ground arith in
          let same_p : q ≡ p = ground arith in
          let (s', l') = subst (λ r. S r × (linked edges x.1 r.1 ≡ true)) same_p (s, l) in
          subst (λ r. R r × S p × (linked edges r.1 p.1 ≡ true)) same_a (h.0, s', l')
    ]

first_partner-none :
    (u : ℕ → Bool) (edges : List (Option Edge)) (a : Anomaly) (k : ℕ) (xs : List Anomaly)
    → first_partner edges a (candidates (is_postgres_candidate u) k xs) ≡ none
    → All (λ p. (is_postgres_candidate u p && linked edges a p) ≡ false) xs
unfolding first_partner candidates
first_partner-none u edges a k [] h = tt
first_partner-none u edges a k (x ∷ xs) h = ground (arith, first_partner-none u edges a (suc k) xs)

weaken :
    (b : Bool) (f : Anomaly → Bool) (ps : List Anomaly)
    → All (λ p. f p ≡ false) ps
    → All (λ p. (b && f p) ≡ false) ps
weaken b f [] h = tt
weaken b f (p ∷ ps) h = (ground (arith, h.0), weaken b f ps h.1)

excluded : (f : Anomaly → Bool) (ps : List Anomaly) → All (λ p. (false && f p) ≡ false) ps
excluded f [] = tt
excluded f (p ∷ ps) = (refl, excluded f ps)

pub selected_pair-none :
    (u : ℕ → Bool) (edges : List (Option Edge)) (limit k : ℕ) (xs ps : List Anomaly)
    → selected_pair edges
        (candidates (is_apache_candidate limit) k xs)
        (candidates (is_postgres_candidate u) 0 ps)
      ≡ none
    → All
        (λ a.
          All
            (λ p.
              (is_apache_candidate limit a && (is_postgres_candidate u p && linked edges a p))
              ≡ false)
            ps)
        xs
unfolding selected_pair candidates
selected_pair-none u edges limit k [] ps h = tt
selected_pair-none u edges limit k (x ∷ xs) ps h = elim (Bool-cases (is_apache_candidate limit x)) [
  | inl t ↦
      let alone : first_partner edges x (candidates (is_postgres_candidate u) 0 ps) ≡ none =
        ground arith in
      (
        weaken _ (λ p. is_postgres_candidate u p && linked edges x p) ps
            (first_partner-none u edges x 0 ps alone),
        selected_pair-none u edges limit (suc k) xs ps (ground arith),
      )
  | inr t ↦ (
    rw t (excluded (λ p. is_postgres_candidate u p && linked edges x p) ps),
    selected_pair-none u edges limit (suc k) xs ps (ground arith),
  )
]
