-- ===== src/Incidents/Reconcile.antt =====
-- `reconcile` (incident_store.py), incident by incident: what it leaves in the table and what it
-- reports under one fingerprint depends on that fingerprint alone.
use uyuni_ai.Common.{
  ℕ, ◌+◌, ◌≡◌, refl, ◌∙◌, ◌==◌, Option, none, some, List, [], ◌∷◌, String, arith, ltb,
  if◌then◌else◌, on_option, if_cases, on_option_cases,
}
use mathlib.Core.List.{append-nil}
use uyuni_ai.Common.Lists.{filter, filter-append}
use uyuni_ai.Common.Dict.{Dict, lookup, contains, Unique, Unique-insert}
use uyuni_ai.Anomaly.{Anomaly}
use uyuni_ai.Incidents.{
  Row, severity_rank, severity_text, update, always, write_of, reconcile_current, firing_of,
  FiringIncident, IncidentRecord, resolved_of, reconcile_absent, prefer_more_severe,
}
use uyuni_ai.Incidents.Identity.{incident_fingerprint}
use uyuni_ai.Incidents.Table.{
  updated, lookup-update, Unique-update, written, lookup-write_of, Unique-write_of,
}

-- the selection keeps one anomaly for each fingerprint
pub Unique-prefer_more_severe :
    (digest : List ℕ → ℕ) (as' : List Anomaly) (d : Dict Anomaly)
    → Unique d
    → Unique (prefer_more_severe digest as' d)
unfolding prefer_more_severe
Unique-prefer_more_severe digest [] d u = u
Unique-prefer_more_severe digest (a ∷ as') d u = Unique-prefer_more_severe digest as' _ (
    on_option_cases Unique (lookup (incident_fingerprint digest a) d) (λ _. Unique-insert _ a d u)
      (λ e _.
        if_cases Unique (ltb (severity_rank (severity_text e)) (severity_rank (severity_text a)))
          (λ _. Unique-insert (incident_fingerprint digest a) a d u) (λ _. u)))

module _ {P : Type 0} where
  -- the firing reports under a fingerprint
  abbrev pub firings : ℕ → List (FiringIncident P) → List (FiringIncident P)
  firings g = filter (λ f. f.fingerprint == g)

  abbrev pub resolutions : ℕ → List (IncidentRecord P) → List (IncidentRecord P)
  resolutions g = filter (λ f. f.fingerprint == g)

  firings-firing_of :
      (g k cooldown now : ℕ) (a : Anomaly) (active : Option (Row P))
      → firings g (firing_of cooldown now k a active)
        ≡ (if k == g then firing_of cooldown now k a active else [])
  unfolding firing_of
  firings-firing_of g k cooldown now a none = ground arith
  firings-firing_of g k cooldown now a (some r) = ground arith

  resolutions-resolved_of :
      (g k n : ℕ) (r : Row P)
      → resolutions g (resolved_of n k r) ≡ (if k == g then resolved_of n k r else [])
  unfolding resolved_of
  resolutions-resolved_of g k n r = ground arith

  module _ (m : String) (cooldown now : ℕ) (active : Dict (Row P)) where
    pub lookup-reconcile_current :
        (current : Dict Anomaly) (rows : Dict (Row P)) (g : ℕ)
        → Unique current
        → lookup g (reconcile_current m cooldown now active current rows).0
          ≡ on_option
              (lookup g current)
              (lookup g rows)
              (λ a. written m now a (lookup g active) (lookup g rows))
    unfolding reconcile_current
    lookup-reconcile_current [] rows g u = refl
    lookup-reconcile_current ((k, a) ∷ current) rows g u = ground (
      arith,
      lookup-reconcile_current current (write_of m now k a (lookup k active) rows) g u.1,
      lookup-write_of k g m a now (lookup k active) rows,
    )

    pub firings-reconcile_current :
        (current : Dict Anomaly) (rows : Dict (Row P)) (g : ℕ)
        → Unique current
        → firings g (reconcile_current m cooldown now active current rows).1
          ≡ on_option (lookup g current) [] (λ a. firing_of cooldown now g a (lookup g active))
    unfolding reconcile_current
    firings-reconcile_current [] rows g u = refl
    firings-reconcile_current ((k, a) ∷ current) rows g u =
        let rest =
          reconcile_current m cooldown now active current
            (write_of m now k a (lookup k active) rows) in
        let mine = firing_of cooldown now k a (lookup k active) in
        filter-append (λ f. f.fingerprint == g) mine rest.1
        ∙ rw
            (
              firings-firing_of g k cooldown now a (lookup k active),
              firings-reconcile_current current (write_of m now k a (lookup k active) rows) g u.1,
            )
            (ground (arith, append-nil mine))

    pub Unique-reconcile_current :
        (current : Dict Anomaly) (rows : Dict (Row P))
        → Unique rows
        → Unique (reconcile_current m cooldown now active current rows).0
    unfolding reconcile_current
    Unique-reconcile_current [] rows u = u
    Unique-reconcile_current ((k, a) ∷ current) rows u =
        Unique-reconcile_current current _ (Unique-write_of k m a now (lookup k active) rows u)

  -- the row that the second loop leaves
  abbrev pub aged : Option (Row P) → Option (Row P) → Option (Row P)
  aged none old = old
  aged (some r) old =
      updated always (λ o. record o { consecutive_absent = r.consecutive_absent + 1 }) old

  module _ (n : ℕ) (current : Dict Anomaly) where
    pub lookup-reconcile_absent :
        (active rows : Dict (Row P)) (g : ℕ)
        → Unique active
        → lookup g (reconcile_absent n current active rows).0
          ≡ (if contains g current then lookup g rows else aged (lookup g active) (lookup g rows))
    unfolding reconcile_absent
    lookup-reconcile_absent [] rows g u = ground arith
    lookup-reconcile_absent ((k, r) ∷ active) rows g u =
        let age : Row P → Row P = λ o. record o { consecutive_absent = r.consecutive_absent + 1 } in
        ground (
          arith,
          lookup-reconcile_absent active rows g u.1,
          lookup-reconcile_absent active (update k always age rows) g u.1,
          lookup-update k g always age rows,
        )

    pub resolutions-reconcile_absent :
        (active rows : Dict (Row P)) (g : ℕ)
        → Unique active
        → resolutions g (reconcile_absent n current active rows).1
          ≡ (if contains g current then [] else on_option (lookup g active) [] (resolved_of n g))
    unfolding reconcile_absent
    resolutions-reconcile_absent [] rows g u = ground arith
    resolutions-reconcile_absent ((k, r) ∷ active) rows g u =
        let age : Row P → Row P = λ o. record o { consecutive_absent = r.consecutive_absent + 1 } in
        let rows' = if contains k current then rows else update k always age rows in
        let mine = if contains k current then [] else resolved_of n k r in
        filter-append (λ f. f.fingerprint == g) mine (reconcile_absent n current active rows').1
        ∙ rw (resolutions-reconcile_absent active rows' g u.1)
            (ground (arith, append-nil mine, resolutions-resolved_of g k n r))

    pub Unique-reconcile_absent :
        (active rows : Dict (Row P))
        → Unique rows
        → Unique (reconcile_absent n current active rows).0
    unfolding reconcile_absent
    Unique-reconcile_absent [] rows u = u
    Unique-reconcile_absent ((k, r) ∷ active) rows u =
        Unique-reconcile_absent active _
          (if_cases Unique (contains k current) (λ _. u) (λ _. Unique-update k _ _ rows u))
