-- ===== src/Detector/Correlation/Splice.antt =====
-- What `correlate_dependency_anomalies` (anomaly_detector.py) makes of a list of anomalies.
use package.text.Mathlib.TextEquality.{eq_iff}
use uyuni_ai.Common.{
  ℕ, zero, suc, min, max, ◌+◌, ◌<◌, ◌==◌, ◌≡◌, refl, ap, ◌⊎◌, inl, inr, Bool, true, false, ◌&&◌,
  Option, some, List, [], ◌∷◌, ◌++◌, arith, ltb, on_option_cases, Bool-cases, subst, subst,
}
use uyuni_ai.Common.Lists.{All}
use uyuni_ai.Anomaly.{Anomaly}
use uyuni_ai.Detector.Correlation.{
  Edge, is_apache_candidate, is_postgres_candidate, candidates, linked, selected_pair, correlated,
  splice, correlate_dependency_anomalies,
}
use uyuni_ai.Detector.Correlation.Pairs.{
  at, candidates-at, selected_pair-linked, selected_pair-none,
}

splice_done : (k i j : ℕ) (c : Anomaly) (xs : List Anomaly) → i < k → j < k → splice k i j c xs ≡ xs
unfolding splice
splice_done k i j c [] h g = refl
splice_done k i j c (x ∷ xs) h g = ground (arith, splice_done (suc k) i j c xs)

-- one of the two is behind, the other is to come
splice_one :
    (k i j n : ℕ) (c y : Anomaly) (xs : List Anomaly)
    → min i j < k
    → max i j ≡ k + n
    → at n xs ≡ some y
    → (mid post : List Anomaly) × (xs ≡ mid ++ (y ∷ post)) × (splice k i j c xs ≡ mid ++ post)
unfolding splice
splice_one k i j n c y [] h g e = cc
splice_one k i j zero c y (x ∷ xs) h g e =
    ([], xs, ground arith, ground (arith, splice_done (suc k) i j c xs))
splice_one k i j (suc n) c y (x ∷ xs) h g e =
    let (mid, post, split, out) = splice_one (suc k) i j n c y xs (omega arith) (omega arith) e in
    (x ∷ mid, post, ap (λ l. x ∷ l) split, ground (arith, out))

-- both are to come
splice_two :
    (k i j n q : ℕ) (c x y : Anomaly) (xs : List Anomaly)
    → min i j ≡ k + n
    → max i j ≡ k + q
    → n < q
    → at n xs ≡ some x
    → at q xs ≡ some y
    → (pre mid post : List Anomaly) × (xs ≡ pre ++ (x ∷ (mid ++ (y ∷ post))))
      × (splice k i j c xs ≡ pre ++ (c ∷ (mid ++ post)))
unfolding splice
splice_two k i j n q c x y [] h g lt e f = cc
splice_two k i j n zero c x y (z ∷ xs) h g lt e f = absurd (omega arith)
splice_two k i j zero (suc q) c x y (z ∷ xs) h g lt e f =
    let (mid, post, split, out) = splice_one (suc k) i j q c y xs (omega arith) (omega arith) f in
    ([], mid, post, ground arith, ground (arith, out))
splice_two k i j (suc n) (suc q) c x y (z ∷ xs) h g lt e f =
    let (pre, mid, post, split, out) =
      splice_two (suc k) i j n q c x y xs (omega arith) (omega arith) (omega arith) e f in
    (z ∷ pre, mid, post, ap (λ l. z ∷ l) split, ground (arith, out))

-- Two anomalies of the list, in whichever order, that are an overloaded Apache and a blocked
-- PostgreSQL on linked minions have become one, at the place of the first of them, and all others
-- are as they were.
pub record Collapses (u : ℕ → Bool) (edges : List (Option Edge)) (limit : ℕ)
    (anomalies out : List Anomaly) : Type 0 where
  pub apache : Anomaly
  pub postgres : Anomaly
  pub before : List Anomaly
  pub between : List Anomaly
  pub behind : List Anomaly
  pub is_apache : is_apache_candidate limit apache ≡ true
  pub is_postgres : is_postgres_candidate u postgres ≡ true
  pub on_linked : linked edges apache postgres ≡ true
  pub were :
      (anomalies ≡ before ++ (apache ∷ (between ++ (postgres ∷ behind))))
      ⊎ (anomalies ≡ before ++ (postgres ∷ (between ++ (apache ∷ behind))))
  pub are : out ≡ before ++ (correlated apache postgres ∷ (between ++ behind))

-- no overloaded Apache of the list is linked with a blocked PostgreSQL of it
abbrev pub NoPair : (ℕ → Bool) → List (Option Edge) → ℕ → List Anomaly → Type 0
NoPair u edges limit anomalies =
    All
      (λ a.
        All
          (λ p.
            (is_apache_candidate limit a && (is_postgres_candidate u p && linked edges a p))
            ≡ false)
          anomalies)
      anomalies

module _ (u : ℕ → Bool) (anomalies : List Anomaly) (edges : List (Option Edge)) (limit : ℕ) where
  not_both :
      (a : Anomaly) → is_apache_candidate limit a ≡ true → is_postgres_candidate u a ≡ true → ⊥
  unfolding is_apache_candidate is_postgres_candidate
  not_both a h g =
      let e : a.metric_name ≡ "apache_busy_workers" =
        (eq_iff a.metric_name "apache_busy_workers").0 (ground arith) in
      let f : a.metric_name ≡ "postgres_blocked_transaction" =
        (eq_iff a.metric_name "postgres_blocked_transaction").0 (ground arith) in
      cc

  collapses :
      (i j : ℕ) (a p : Anomaly)
      → at i anomalies ≡ some a
      → at j anomalies ≡ some p
      → is_apache_candidate limit a ≡ true
      → is_postgres_candidate u p ≡ true
      → linked edges a p ≡ true
      → Collapses u edges limit anomalies (splice 0 i j (correlated a p) anomalies)
  collapses i j a p e f ca cp l = elim (Bool-cases (ltb i j)) [
    | inl lt ↦
        let (pre, mid, post, split, out) =
          splice_two 0 i j i j (correlated a p) a p anomalies (ground arith) (ground arith)
            (ground arith) e f in
        record {
          apache = a;
          postgres = p;
          before = pre;
          between = mid;
          behind = post;
          is_apache = ca;
          is_postgres = cp;
          on_linked = l;
          were = inl split;
          are = out;
        }
    | inr ge ↦
        let (pre, mid, post, split, out) =
          splice_two 0 i j j i (correlated a p) p a anomalies (ground arith) (ground arith)
            (later ge) f e in
        record {
          apache = a;
          postgres = p;
          before = pre;
          between = mid;
          behind = post;
          is_apache = ca;
          is_postgres = cp;
          on_linked = l;
          were = inr split;
          are = out;
        }
  ]
    where
      later : ltb i j ≡ false → j < i
      later ge = elim (Bool-cases (i == j)) [
        | inl same ↦
            absurd (not_both a ca (subst (λ b. is_postgres_candidate u b ≡ true) (ground arith) cp))
        | inr apart ↦ ground arith
      ]

  -- Either no overloaded Apache of the list is linked with a blocked PostgreSQL of it, by a common
  -- minion or by a configured edge, and the anomalies come back as they are; or one such pair has
  -- become a single incident, in the place of the first of the two, and the others are kept in their
  -- order.
  pub correlate-Answers :
      (NoPair u edges limit anomalies
        × (correlate_dependency_anomalies u anomalies edges limit ≡ anomalies))
      ⊎ Collapses u edges limit anomalies (correlate_dependency_anomalies u anomalies edges limit)
  unfolding correlate_dependency_anomalies
  correlate-Answers =
      let apaches = candidates (is_apache_candidate limit) 0 anomalies in
      let postgreses = candidates (is_postgres_candidate u) 0 anomalies in
      let index : ℕ → Option Anomaly = λ n. at n anomalies in
      let here : (n : ℕ) → index (0 + n) ≡ at n anomalies = λ n. ap index (omega arith) in
      on_option_cases
        (λ (out : List Anomaly).
          (NoPair u edges limit anomalies × (out ≡ anomalies))
          ⊎ Collapses u edges limit anomalies out)
        (selected_pair edges apaches postgreses)
        (λ e. inl (selected_pair-none u edges limit 0 anomalies anomalies e, refl))
        (λ ((i, a), (j, p)) e.
          let (ra, rp, l) =
            selected_pair-linked _ _ edges apaches postgreses (i, a) (j, p)
              (candidates-at (is_apache_candidate limit) 0 anomalies index here)
              (candidates-at (is_postgres_candidate u) 0 anomalies index here) e in
          inr (collapses i j a p ra.0 rp.0 ra.1 rp.1 l))
