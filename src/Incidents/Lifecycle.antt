-- ===== src/Incidents/Lifecycle.antt =====
-- The life of one incident in the store (incident_store.py): retry until delivered, silence during
-- the cooldown, and resolution after enough healthy cycles.
use text.Mathlib.Text.{◌==◌ as str_eq}
use uyuni_ai.Common.{
  ℕ, ◌+◌, ◌*◌, ◌≤◌, ◌<◌, ◌≡◌, ◌≢◌, refl, ap, ◌∙◌, true, false, ◌&&◌, Option, none, some, List, [],
  ◌∷◌, String, arith,
}
use uyuni_ai.Common.Dict.{lookup, Unique}
use uyuni_ai.Common.Text.{lower, text_or_empty}
use uyuni_ai.Anomaly.{Anomaly}
use uyuni_ai.Incidents.{
  Row, second, new_row, absent_again, reopened, seen_again, escalated, cooldown_elapsed,
  severity_rank, severity_text, IncidentStore, active_on, reconcile, emitted, mark_emitted,
  starts_with,
}
use uyuni_ai.Incidents.Table.{updated, lookup-update, Unique-update}
use uyuni_ai.Incidents.Reconcile.{firings}
use uyuni_ai.Incidents.Resolution.{cycles}
use uyuni_ai.Incidents.Step.{next_row, next_firing, detected, reconcile_steps}

-- what was detected is no more severe than what was delivered
abbrev pub NoWorse : String → Option Anomaly → Type 0
NoWorse delivered none = Unit
NoWorse delivered (some b) = severity_rank (severity_text b) ≤ severity_rank (lower delivered)

module _ {P : Type 0} where
  -- a report that is due stays due for what `next_row` leaves, if the severity does not fall
  firing_stays :
      (m : String) (now later cooldown g : ℕ) (a b : Anomaly) (old : Option (Row P))
      → now ≤ later
      → severity_rank (severity_text a) ≤ severity_rank (severity_text b)
      → next_firing m now cooldown g (some a) old ≢ []
      → next_firing m later cooldown g (some b) (next_row m now (some a) old) ≢ []
  unfolding escalated cooldown_elapsed new_row reopened seen_again
  firing_stays m now later cooldown g a b none t sev h = ground arith
  firing_stays m now later cooldown g a b (some r) t sev h = ground arith

  -- An incident that `reconcile` reported as firing, and for which no delivery was recorded, is
  -- reported again by the next cycle that detects it with no lesser severity, at whatever later time.
  pub unemitted_retries :
      (digest : List ℕ → ℕ) (m : String) (first again : List Anomaly) (now later g : ℕ)
      (a b : Anomaly) (s : IncidentStore P)
      → Unique s.incidents
      → now ≤ later
      → detected digest first g ≡ some a
      → detected digest again g ≡ some b
      → severity_rank (severity_text a) ≤ severity_rank (severity_text b)
      → firings g (reconcile digest m first now s).1.firing ≢ []
      → firings g (reconcile digest m again later (reconcile digest m first now s).0).1.firing ≢ []
  unemitted_retries digest m first again now later g a b s u t da db sev h e =
      let (at, once, cooldown, _) = reconcile_steps digest m first now s u in
      let s' = (reconcile digest m first now s).0 in
      let fired = (at g).1 in
      let row = (at g).0 in
      let again' = ((reconcile_steps digest m again later s' once).0 g).1 in
      firing_stays m now later s.cooldown_seconds g a b (lookup g s.incidents) t sev
        (λ none_fired. h (
          fired
          ∙ ap (λ d. next_firing m now s.cooldown_seconds g d (lookup g s.incidents)) da
          ∙ none_fired))
        (cc (again', e, row, da, db, cooldown))

  -- the row of a delivery that is recorded
  lookup-mark_emitted :
      (g : ℕ) (delivered : String) (payload : P) (now : ℕ) (at : Option ℕ) (s : IncidentStore P)
      → lookup g (mark_emitted g delivered payload now at s).incidents
        ≡ updated
            (λ r. r.active && starts_with at r)
            (emitted delivered payload now)
            (lookup g s.incidents)
  unfolding mark_emitted
  lookup-mark_emitted g delivered payload now at s =
      lookup-update g g _ _ s.incidents ∙ ground arith

  -- the incident is active, and a delivery with this severity at this time is on its row
  abbrev Delivered : String → String → ℕ → Row P → Type 0
  Delivered m delivered now r =
      (active_on m r ≡ true)
      × (r.last_emitted ≡ some now)
      × (text_or_empty r.last_emitted_severity ≡ lower delivered)

  silent :
      (m : String) (now later cooldown g : ℕ) (d : Option Anomaly) (delivered : String) (r : Row P)
      → Delivered m delivered now r
      → later < now + cooldown * second
      → NoWorse delivered d
      → next_firing m later cooldown g d (some r) ≡ []
  unfolding escalated cooldown_elapsed active_on
  silent m now later cooldown g none delivered r (on, at, label) t calm = refl
  silent m now later cooldown g (some b) delivered r (on, at, label) t calm =
      let calm : escalated b r ≡ false = rw label (ground arith) in rw (at, calm) (ground arith)

  -- a cycle keeps the delivery on the row, whether it detects the incident or not
  stays-Delivered :
      (m delivered : String) (now at : ℕ) (d : Option Anomaly) (r : Row P)
      → Delivered m delivered now r
      → (r' : Row P) × (next_row m at d (some r) ≡ some r') × Delivered m delivered now r'
  unfolding active_on seen_again absent_again
  stays-Delivered m delivered now at none r (on, e, label) =
      (absent_again r, rw on refl, (on, e, label))
  stays-Delivered m delivered now at (some a) r (on, e, label) =
      (seen_again a at r, rw on refl, (on, e, label))

  Unique-mark_emitted :
      (g : ℕ) (delivered : String) (payload : P) (now : ℕ) (at : Option ℕ) (s : IncidentStore P)
      → Unique s.incidents
      → Unique (mark_emitted g delivered payload now at s).incidents
  unfolding mark_emitted
  Unique-mark_emitted g delivered payload now at s u = Unique-update g _ _ s.incidents u

  cooldown-mark_emitted :
      (g : ℕ) (delivered : String) (payload : P) (now : ℕ) (at : Option ℕ) (s : IncidentStore P)
      → (mark_emitted g delivered payload now at s).cooldown_seconds ≡ s.cooldown_seconds
  unfolding mark_emitted
  cooldown-mark_emitted g delivered payload now at s = refl

  cycles-Delivered :
      (digest : List ℕ → ℕ) (m delivered : String) (now g : ℕ) (cs : List (List Anomaly × ℕ))
      (r : Row P) (s : IncidentStore P)
      → Unique s.incidents
      → lookup g s.incidents ≡ some r
      → Delivered m delivered now r
      → let s' = cycles digest m cs s in
        Unique s'.incidents
        × ((r' : Row P) × (lookup g s'.incidents ≡ some r') × Delivered m delivered now r')
        × (s'.cooldown_seconds ≡ s.cooldown_seconds)
  unfolding cycles
  cycles-Delivered digest m delivered now g [] r s u e d = (u, (r, e, d), refl)
  cycles-Delivered digest m delivered now g ((anomalies, at) ∷ cs) r s u e d =
      let (step, once, cooldown, _) = reconcile_steps digest m anomalies at s u in
      let s' = (reconcile digest m anomalies at s).0 in
      let (r', moved, d') = stays-Delivered m delivered now at (detected digest anomalies g) r d in
      let row : lookup g s'.incidents ≡ some r' = (step g).0 ∙ rw e moved in
      let (u', found, same) = cycles-Delivered digest m delivered now g cs r' s' once row d' in
      (u', found, same ∙ cooldown)

  emitted-Delivered :
      (m delivered : String) (payload : P) (now : ℕ) (r : Row P)
      → active_on m r ≡ true
      → str_eq (lower delivered) "" ≡ false
      → Delivered m delivered now (emitted delivered payload now r)
  unfolding emitted active_on
  emitted-Delivered m delivered payload now r on named = (on, refl, rw named refl)

  -- Once the delivery of an incident that is active on the minion is recorded for its generation, with
  -- a severity label, no cycle of the minion before the cooldown is over reports the incident, after
  -- any cycles that detected it or not, unless the cycle detects it as more severe than it was
  -- delivered. This is as long as only cycles of the minion come in between, so that no resolution
  -- is recorded.
  pub emitted_silences :
      (digest : List ℕ → ℕ) (m delivered : String) (cs : List (List Anomaly × ℕ))
      (anomalies : List Anomaly) (now later g : ℕ) (payload : P) (r : Row P) (s : IncidentStore P)
      → Unique s.incidents
      → lookup g s.incidents ≡ some r
      → active_on m r ≡ true
      → str_eq (lower delivered) "" ≡ false
      → later < now + s.cooldown_seconds * second
      → NoWorse delivered (detected digest anomalies g)
      → let s' = cycles digest m cs (mark_emitted g delivered payload now (some r.starts_at) s) in
        firings g (reconcile digest m anomalies later s').1.firing ≡ []
  unfolding active_on mark_emitted
  emitted_silences digest m delivered cs anomalies now later g payload r s u e on named t calm =
      let at = some r.starts_at in
      let s0 = mark_emitted g delivered payload now at s in
      let row : lookup g s0.incidents ≡ some (emitted delivered payload now r) =
        lookup-mark_emitted g delivered payload now at s ∙ rw e (ground arith) in
      let (once, (r', row', d), same) =
        cycles-Delivered digest m delivered now g cs (emitted delivered payload now r) s0
          (Unique-mark_emitted g delivered payload now at s u) row
          (emitted-Delivered m delivered payload now r on named) in
      let s' = cycles digest m cs s0 in
      ((reconcile_steps digest m anomalies later s' once).0 g).1
      ∙ rw (row', same, cooldown-mark_emitted g delivered payload now at s)
          (silent m now later s.cooldown_seconds g (detected digest anomalies g) delivered r' d t
            calm)
