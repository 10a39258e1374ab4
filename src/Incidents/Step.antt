-- ===== src/Incidents/Step.antt =====
-- One incident under `reconcile` (incident_store.py): its row, its firing report and its resolution
-- report are functions of its row before and of the anomaly that was detected for it.
use uyuni_ai.Common.{
  ℕ, ◌≡◌, refl, ◌∙◌, ◌||◌, Option, none, some, List, [], ◌∷◌, String, arith, if◌then◌else◌,
  on_option, is_some,
}
use uyuni_ai.Common.Dict.{lookup, select, Unique, only, lookup-select, Unique-select}
use uyuni_ai.Anomaly.{Anomaly}
use uyuni_ai.Incidents.{
  Row, new_row, reopened, seen_again, escalated, cooldown_elapsed, rfc3339, reconcile_current,
  firing_of, FiringIncident, IncidentRecord, IncidentStore, resolved_of, absent_again, active_on,
  reconcile, prefer_more_severe,
}
use uyuni_ai.Incidents.Table.{written}
use uyuni_ai.Incidents.Reconcile.{
  firings, resolutions, aged, Unique-prefer_more_severe, lookup-reconcile_current,
  firings-reconcile_current, Unique-reconcile_current, lookup-reconcile_absent,
  resolutions-reconcile_absent, Unique-reconcile_absent,
}

module _ {P : Type 0} (m : String) (now : ℕ) where
  -- The row after a cycle: a new incident gets a new row, one that is active on this minion is seen
  -- again, one that is not is opened again, and an active one that was not detected is absent once
  -- more.
  abbrev pub next_row : Option Anomaly → Option (Row P) → Option (Row P)
  next_row none none = none
  next_row none (some r) = some (if active_on m r then absent_again r else r)
  next_row (some a) none = some (new_row m a now)
  next_row (some a) (some r) = some (if active_on m r then seen_again a now r else reopened a now r)

  abbrev pub opening : ℕ → Anomaly → FiringIncident P
  opening k a = record {
    anomaly = a;
    fingerprint = k;
    starts_at = rfc3339 now;
    previous_payload = none;
  }

  -- The firing report: a detected incident that was not active fires, and an active one fires if it
  -- escalated or its cooldown is over.
  abbrev pub next_firing : ℕ → ℕ → Option Anomaly → Option (Row P) → List (FiringIncident P)
  next_firing cooldown k none old = []
  next_firing cooldown k (some a) none = opening k a ∷ []
  next_firing cooldown k (some a) (some r) =
      if active_on m r
      then (if escalated a r || cooldown_elapsed cooldown now r
          then record {
            anomaly = a;
            fingerprint = k;
            starts_at = r.starts_at;
            previous_payload = r.payload;
          }
            ∷ []
          else [])
      else opening k a ∷ []

  -- The resolution report: an active incident that was absent often enough, counting this cycle.
  abbrev pub next_resolution : ℕ → ℕ → Option Anomaly → Option (Row P) → List (IncidentRecord P)
  next_resolution n k (some a) old = []
  next_resolution n k none none = []
  next_resolution n k none (some r) = if active_on m r then resolved_of n k r else []

module _ {P : Type 0} (m : String) (now : ℕ) where
  row_cases :
      (cur : Option Anomaly) (old : Option (Row P))
      → (if is_some cur
          then on_option cur old (λ a. written m now a (only (active_on m) old) old)
          else aged
              (only (active_on m) old)
              (on_option cur old (λ a. written m now a (only (active_on m) old) old)))
        ≡ next_row m now cur old
  unfolding absent_again
  row_cases none none = refl
  row_cases none (some r) = ground arith
  row_cases (some a) none = refl
  row_cases (some a) (some r) = ground arith

  firing_cases :
      (cooldown g : ℕ) (cur : Option Anomaly) (old : Option (Row P))
      → on_option cur [] (λ a. firing_of cooldown now g a (only (active_on m) old))
        ≡ next_firing m now cooldown g cur old
  unfolding firing_of
  firing_cases cooldown g none old = refl
  firing_cases cooldown g (some a) none = refl
  firing_cases cooldown g (some a) (some r) = ground arith

  resolution_cases :
      (n g : ℕ) (cur : Option Anomaly) (old : Option (Row P))
      → (if is_some cur then [] else on_option (only (active_on m) old) [] (resolved_of n g))
        ≡ next_resolution m now n g cur old
  resolution_cases n g none none = refl
  resolution_cases n g none (some r) = ground arith
  resolution_cases n g (some a) old = refl

-- the anomaly that was detected for a fingerprint
abbrev pub detected : (List ℕ → ℕ) → List Anomaly → ℕ → Option Anomaly
detected digest anomalies g = lookup g (prefer_more_severe digest anomalies [])

module _ {P : Type 0} (digest : List ℕ → ℕ) (m : String) (anomalies : List Anomaly) (now : ℕ)
    (s : IncidentStore P) where
  -- A cycle on a table whose keys are unique acts on each incident by itself: under every
  -- fingerprint the row, the firing report and the resolution report after it are those that follow
  -- from the row before and from the anomaly that was detected for the fingerprint, the keys stay
  -- unique, and the settings stay as they were.
  pub reconcile_steps :
      Unique s.incidents
      → let (s', changes) = reconcile digest m anomalies now s in
        ((g : ℕ)
          → (lookup g s'.incidents
              ≡ next_row m now (detected digest anomalies g) (lookup g s.incidents))
            × (firings g changes.firing
                ≡ next_firing m now s.cooldown_seconds g
                    (detected digest anomalies g)
                    (lookup g s.incidents))
            × (resolutions g changes.resolved
                ≡ next_resolution m now s.resolve_after_healthy_cycles g
                    (detected digest anomalies g)
                    (lookup g s.incidents)))
        × Unique s'.incidents
        × (s'.cooldown_seconds ≡ s.cooldown_seconds)
        × (s'.resolve_after_healthy_cycles ≡ s.resolve_after_healthy_cycles)
  unfolding reconcile
  reconcile_steps u =
      let current = prefer_more_severe digest anomalies [] in
      let active = select (active_on m) s.incidents in
      let first = reconcile_current m s.cooldown_seconds now active current s.incidents in
      let once = Unique-prefer_more_severe digest anomalies [] tt in
      let active_once = Unique-select (active_on m) s.incidents u in
      (
        λ g. (
          lookup-reconcile_absent s.resolve_after_healthy_cycles current active first.0 g
                active_once
              ∙ rw
                  (
                    lookup-reconcile_current m s.cooldown_seconds now active current s.incidents g
                        once,
                    lookup-select (active_on m) g s.incidents u,
                  )
                  (row_cases m now (lookup g current) (lookup g s.incidents)),
          firings-reconcile_current m s.cooldown_seconds now active current s.incidents g once
              ∙ rw (lookup-select (active_on m) g s.incidents u) (
                  firing_cases m now s.cooldown_seconds g (lookup g current)
                    (lookup g s.incidents)),
          resolutions-reconcile_absent s.resolve_after_healthy_cycles current active first.0 g
                active_once
              ∙ rw (lookup-select (active_on m) g s.incidents u) (
                  resolution_cases m now s.resolve_after_healthy_cycles g (lookup g current)
                    (lookup g s.incidents)),
        ),
        Unique-reconcile_absent s.resolve_after_healthy_cycles current active first.0
            (Unique-reconcile_current m s.cooldown_seconds now active current s.incidents u),
        refl,
        refl,
      )
