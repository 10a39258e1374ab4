-- ===== src/Incidents/Resolution.antt =====
-- How the store resolves an incident (incident_store.py), and which incidents are worth an
-- investigation.
use uyuni_ai.Common.{
  ℕ, suc, ◌+◌, ◌==◌, ◌≡◌, ◌≢◌, refl, sym, ap, ◌∙◌, Bool, true, false, ◌&&◌, Option, none, some,
  List, [], ◌∷◌, String, arith, leb, if◌then◌else◌, on_option, is_some, ==_refl,
}
use uyuni_ai.Common.Lists.{length}
use uyuni_ai.Common.Dict.{lookup, Unique}
use uyuni_ai.Anomaly.{Anomaly}
use uyuni_ai.Incidents.{
  Row, seen_again, IncidentStore, resolved_of, absent_again, active_on, reconcile, emitted,
  mark_emitted, is_actionable, mark_resolved, starts_with,
}
use uyuni_ai.Incidents.Table.{updated, lookup-update, Unique-update}
use uyuni_ai.Incidents.Reconcile.{resolutions}
use uyuni_ai.Incidents.Step.{next_row, next_resolution, detected, reconcile_steps}

-- no cycle of the list detects the incident
abbrev pub NeverDetected : (List ℕ → ℕ) → ℕ → List (List Anomaly × ℕ) → Type 0
NeverDetected digest g [] = Unit
NeverDetected digest g ((anomalies, _) ∷ rest) =
    (detected digest anomalies g ≡ none) × NeverDetected digest g rest

module _ {P : Type 0} where
  -- whether the row is active on the minion after one absence more
  absent_on : (m : String) (r : Row P) → active_on m r ≡ true → active_on m (absent_again r) ≡ true
  unfolding active_on absent_again
  absent_on m r h = h

  -- cycles of one minion, each with what was detected and when
  unfoldable pub cycles :
      (List ℕ → ℕ) → String → List (List Anomaly × ℕ) → IncidentStore P → IncidentStore P
  cycles digest m [] s = s
  cycles digest m ((anomalies, now) ∷ rest) s =
      cycles digest m rest (reconcile digest m anomalies now s).0

  -- the row after n absences
  abbrev pub absent_for : ℕ → Row P → Row P
  absent_for n r = record r { consecutive_absent = r.consecutive_absent + n }

  absent_suc : (n : ℕ) (r : Row P) → absent_for n (absent_again r) ≡ absent_for (suc n) r
  unfolding absent_again
  absent_suc n r = ap (λ k. record r { consecutive_absent = k }) (omega arith)

  cycles_absent :
      (digest : List ℕ → ℕ) (m : String) (g : ℕ) (cs : List (List Anomaly × ℕ)) (r : Row P)
      (s : IncidentStore P)
      → Unique s.incidents
      → lookup g s.incidents ≡ some r
      → active_on m r ≡ true
      → NeverDetected digest g cs
      → let s' = cycles digest m cs s in
        Unique s'.incidents
        × (lookup g s'.incidents ≡ some (absent_for (length cs) r))
        × (active_on m (absent_for (length cs) r) ≡ true)
        × (s'.resolve_after_healthy_cycles ≡ s.resolve_after_healthy_cycles)
  unfolding cycles active_on
  cycles_absent digest m g [] r s u e on h =
      (u, e ∙ ap some (ap (λ k. record r { consecutive_absent = k }) (omega arith)), on, refl)
  cycles_absent digest m g ((anomalies, now) ∷ cs) r s u e on h =
      let (at, once, _, same) = reconcile_steps digest m anomalies now s u in
      let s' = (reconcile digest m anomalies now s).0 in
      let row : lookup g s'.incidents ≡ some (absent_again r) =
        (at g).0 ∙ rw (h.0, e) (rw on refl) in
      let (once', row', on', same') =
        cycles_absent digest m g cs (absent_again r) s' once row (absent_on m r on) h.1 in
      (once', row' ∙ ap some (absent_suc (length cs) r), on, same' ∙ same)

  -- a cycle that does not detect an active incident: its row after it, and the report
  pub absent_once :
      (digest : List ℕ → ℕ) (m : String) (g now : ℕ) (anomalies : List Anomaly) (r : Row P)
      (s : IncidentStore P)
      → Unique s.incidents
      → lookup g s.incidents ≡ some r
      → active_on m r ≡ true
      → detected digest anomalies g ≡ none
      → (lookup g (reconcile digest m anomalies now s).0.incidents ≡ some (absent_for 1 r))
        × (resolutions g (reconcile digest m anomalies now s).1.resolved ≡ (
            if leb s.resolve_after_healthy_cycles (r.consecutive_absent + 1)
            then record { fingerprint = g; row = absent_for 1 r } ∷ []
            else []))
  unfolding resolved_of absent_again
  absent_once digest m g now anomalies r s u e on miss =
      let (row, _, report) = (reconcile_steps digest m anomalies now s u).0 g in
      (row ∙ rw (miss, e) (rw on refl), report ∙ rw (e, miss) (rw on refl))

  -- An active incident that no cycle detects counts the cycles, and the next cycle that misses it too
  -- reports it as resolved exactly if its absences, with that cycle, reach the configured number.
  pub resolves_after :
      (digest : List ℕ → ℕ) (m : String) (g now : ℕ) (anomalies : List Anomaly)
      (cs : List (List Anomaly × ℕ)) (r : Row P) (s : IncidentStore P)
      → Unique s.incidents
      → lookup g s.incidents ≡ some r
      → active_on m r ≡ true
      → NeverDetected digest g cs
      → detected digest anomalies g ≡ none
      → resolutions g (reconcile digest m anomalies now (cycles digest m cs s)).1.resolved ≡ (
          if leb s.resolve_after_healthy_cycles (r.consecutive_absent + length cs + 1)
          then record { fingerprint = g; row = absent_for (length cs + 1) r } ∷ []
          else [])
  unfolding resolved_of absent_again
  resolves_after digest m g now anomalies cs r s u e on never miss =
      let (once, row, on', same) = cycles_absent digest m g cs r s u e on never in
      let s' = cycles digest m cs s in
      ((reconcile_steps digest m anomalies now s' once).0 g).2
      ∙ rw (row, miss, same)
          (rw on' (
            ap
              (λ k.
                if leb s.resolve_after_healthy_cycles (r.consecutive_absent + length cs + 1)
                then record { fingerprint = g; row = record r { consecutive_absent = k } } ∷ []
                else [])
              (omega arith)))

  -- a resolution that is due stays due after one absence more
  resolution_stays :
      (m : String) (now later n g : ℕ) (old : Option (Row P))
      → next_resolution m now n g none old ≢ []
      → next_resolution m later n g none (next_row m now none old) ≢ []
  unfolding resolved_of absent_again active_on
  resolution_stays m now later n g none h = h
  resolution_stays m now later n g (some r) h = ground arith

  -- An incident that `reconcile` reported as resolved, and whose resolution was not recorded, is
  -- reported as resolved again by the next cycle that does not detect it either.
  pub unrecorded_retries :
      (digest : List ℕ → ℕ) (m : String) (first again : List Anomaly) (now later g : ℕ)
      (s : IncidentStore P)
      → Unique s.incidents
      → detected digest first g ≡ none
      → detected digest again g ≡ none
      → resolutions g (reconcile digest m first now s).1.resolved ≢ []
      → resolutions g (reconcile digest m again later (reconcile digest m first now s).0).1.resolved
        ≢ []
  unrecorded_retries digest m first again now later g s u da db h e =
      let (at, once, _, same) = reconcile_steps digest m first now s u in
      let s' = (reconcile digest m first now s).0 in
      let again' = ((reconcile_steps digest m again later s' once).0 g).2 in
      resolution_stays m now later s.resolve_after_healthy_cycles g (lookup g s.incidents)
        (λ none_resolved. h (
          (at g).2
          ∙ ap
              (λ d. next_resolution m now s.resolve_after_healthy_cycles g d (lookup g s.incidents))
              da
          ∙ none_resolved))
        (cc (again', e, (at g).0, da, db, same))

  actionable_row : ℕ → Option (Row P) → Bool
  actionable_row at o =
      on_option o false (λ r. r.starts_at == at && (r.active && r.consecutive_absent == 0))

  actionable-eq :
      (g at : ℕ) (s : IncidentStore P)
      → is_actionable g at s ≡ actionable_row at (lookup g s.incidents)
  unfolding is_actionable actionable_row
  actionable-eq g at s = refl

  next_actionable :
      (m : String) (now at : ℕ) (d : Option Anomaly) (r : Row P)
      → active_on m r ≡ true
      → actionable_row at (next_row m now d (some r)) ≡ (is_some d && r.starts_at == at)
  unfolding actionable_row absent_again seen_again active_on
  next_actionable m now at none r on = rw on (ground arith)
  next_actionable m now at (some a) r on = rw on (ground arith)

  closing_row : ℕ → Row P → Row P
  closing_row now r = record r { active = false; resolved_at = some now }

  closed_row :
      (now at : ℕ) (o : Option (Row P))
      → actionable_row at (updated (λ r. r.active) (closing_row now) o) ≡ false
  unfolding actionable_row closing_row
  closed_row now at none = refl
  closed_row now at (some r) = ground arith

  resolved_not_actionable :
      (g now at : ℕ) (s : IncidentStore P) → is_actionable g at (mark_resolved g now s) ≡ false
  unfolding mark_resolved closing_row
  resolved_not_actionable g now at s =
      actionable-eq g at (mark_resolved g now s)
      ∙ ap (actionable_row at)
          (lookup-update g g (λ r. r.active) (closing_row now) s.incidents ∙ rw (==_refl g) refl)
      ∙ closed_row now at (lookup g s.incidents)

  pub Unique-mark_resolved :
      (g now : ℕ) (s : IncidentStore P)
      → Unique s.incidents
      → Unique (mark_resolved g now s).incidents
  unfolding mark_resolved
  Unique-mark_resolved g now s u = Unique-update g _ _ s.incidents u

  delivered_row :
      (now at : ℕ) (delivered : String) (payload : P) (generation : Option ℕ) (o : Option (Row P))
      → actionable_row at
          (updated (λ r. r.active && starts_with generation r) (emitted delivered payload now) o)
        ≡ actionable_row at o
  unfolding actionable_row emitted
  delivered_row now at delivered payload generation none = refl
  delivered_row now at delivered payload generation (some r) = ground arith

  emitted_actionable :
      (g now at : ℕ) (delivered : String) (payload : P) (generation : Option ℕ)
      (s : IncidentStore P)
      → is_actionable g at (mark_emitted g delivered payload now generation s)
        ≡ is_actionable g at s
  unfolding mark_emitted
  emitted_actionable g now at delivered payload generation s =
      actionable-eq g at (mark_emitted g delivered payload now generation s)
      ∙ ap (actionable_row at) (
          lookup-update g g (λ r. r.active && starts_with generation r)
            (emitted delivered payload now) s.incidents
          ∙ rw (==_refl g) refl)
      ∙ delivered_row now at delivered payload generation (lookup g s.incidents)
      ∙ sym (actionable-eq g at s)

  -- Of an incident that is active on the minion: after a cycle it is worth an investigation exactly
  -- if the cycle detected it, and under the generation that it had; its resolution leaves it worth
  -- none under any generation; recording a delivery, of whatever generation, changes nothing of
  -- that.
  pub actionable_after :
      (digest : List ℕ → ℕ) (m delivered : String) (anomalies : List Anomaly) (now g at : ℕ)
      (payload : P) (generation : Option ℕ) (r : Row P) (s : IncidentStore P)
      → Unique s.incidents
      → lookup g s.incidents ≡ some r
      → active_on m r ≡ true
      → (is_actionable g at (reconcile digest m anomalies now s).0
          ≡ (is_some (detected digest anomalies g) && r.starts_at == at))
        × (is_actionable g at (mark_resolved g now s) ≡ false)
        × (is_actionable g at (mark_emitted g delivered payload now generation s)
            ≡ is_actionable g at s)
  actionable_after digest m delivered anomalies now g at payload generation r s u e on =
      let s' = (reconcile digest m anomalies now s).0 in
      let row = ((reconcile_steps digest m anomalies now s u).0 g).0 in
      (
        actionable-eq g at s'
            ∙ rw (row, e) (next_actionable m now at (detected digest anomalies g) r on),
        resolved_not_actionable g now at s,
        emitted_actionable g now at delivered payload generation s,
      )
