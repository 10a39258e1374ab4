-- ===== src/Polling/Firing/Acknowledgement.antt =====
-- What `_process_firing_investigation` (main.py) has done when it returns.
use uyuni_ai.Common.{
  ℕ, ◌+◌, ◌*◌, ◌≡◌, refl, sym, ap, ◌∙◌, ◌⊎◌, inl, inr, Bool, true, false, not, ◌&&◌, Option, none,
  some, List, [], ◌∷◌, ◌++◌, arith, ltb, if◌then◌else◌, if_cases,
}
use uyuni_ai.Evidence.Grounding.{RootCauseAnalysis}
use uyuni_ai.Incidents.{second, FiringIncident}
use uyuni_ai.Alerts.{AlertPayload}
use uyuni_ai.Polling.Firing.{
  Store, InvestigationWork, Investigation, analysis, timed_out, failed, Outcome, Surroundings, Done,
  current, payload_of, acknowledge, deliver, resolution_of, transition, labels_changed, notify,
  conclude, process_firing,
}

module _ (dry : Bool) (e : Surroundings) (f : FiringIncident AlertPayload) where
  -- the resolutions that have to be posted before the alert of an analysis
  abbrev pub before_alert : RootCauseAnalysis → Option AlertPayload → List AlertPayload
  before_alert a none = []
  before_alert a (some previous) =
      if labels_changed dry e f (payload_of dry e f a) (some previous) && not dry
      then resolution_of dry e f previous ∷ []
      else []

  -- The alert of an analysis of the run was due: the store had the incident at the moment before,
  -- and the resolution of an earlier alert was delivered, where there was one to be posted.
  abbrev pub Due : RootCauseAnalysis → Store → Type 0
  Due a t =
      (e.investigated ≡ analysis a)
      × (current dry e f t ≡ true)
      × ((before_alert a f.previous_payload ≡ []) ⊎ (e.transition_delivered ≡ true))

  -- What the run has done, by the outcome that it returns, from the store `s`.
  abbrev pub Effects : Store → Store → List AlertPayload → Outcome → Type 0
  Effects s s' sent Outcome.stale = (s' ≡ s) × (sent ≡ [])
  Effects s s' sent Outcome.obsolete = (current dry e f s ≡ false) × (s' ≡ s) × (sent ≡ [])
  Effects s s' sent Outcome.llm_timeout =
      (e.investigated ≡ timed_out) × (s' ≡ e.during_investigation s) × (sent ≡ [])
  Effects s s' sent Outcome.investigation_failed =
      (e.investigated ≡ failed) × (s' ≡ e.during_investigation s) × (sent ≡ [])
  Effects s s' sent Outcome.recovered =
      (current dry e f s' ≡ false)
      × (((s' ≡ e.during_investigation s) × (sent ≡ []))
          ⊎ ((p : AlertPayload) × (f.previous_payload ≡ some p)
              × (s' ≡ e.during_transition (e.during_investigation s))
              × (sent ≡ resolution_of dry e f p ∷ [])))
  Effects s s' sent Outcome.transition_failed =
      (p : AlertPayload) × (f.previous_payload ≡ some p)
      × (s' ≡ e.during_transition (e.during_investigation s))
      × (sent ≡ resolution_of dry e f p ∷ [])
      × (e.transition_delivered ≡ false)
  Effects s s' sent Outcome.dry_run =
      (a : RootCauseAnalysis) × (t : Store) × Due a t
      × (dry ≡ true)
      × (sent ≡ [])
      × (s' ≡ acknowledge dry e f (payload_of dry e f a) t)
  Effects s s' sent Outcome.delivered =
      (a : RootCauseAnalysis) × (t : Store) × Due a t
      × (e.alert_delivered ≡ true)
      × (sent ≡ before_alert a f.previous_payload ++ (payload_of dry e f a ∷ []))
      × (s' ≡ acknowledge dry e f (payload_of dry e f a) (e.during_delivery t))
  Effects s s' sent Outcome.delivery_failed =
      (a : RootCauseAnalysis) × (t : Store) × Due a t
      × (e.alert_delivered ≡ false)
      × (sent ≡ before_alert a f.previous_payload ++ (payload_of dry e f a ∷ []))
      × (s' ≡ e.during_delivery t)

  -- what a part of the run has done
  abbrev Done-Effects : Store → Done → Type 0
  Done-Effects s d = Effects s d.0 d.1 d.2

  deliver-Effects :
      (s t : Store) (a : RootCauseAnalysis) (sent : List AlertPayload)
      → Due a t
      → (sent ≡ before_alert a f.previous_payload)
      → (dry ≡ true → sent ≡ [])
      → Done-Effects s (deliver dry e f (payload_of dry e f a) sent t)
  unfolding deliver
  deliver-Effects s t a sent due same none_sent =
      if_cases (Done-Effects s) dry (λ d. (a, t, due, d, none_sent d, refl))
        (λ d.
          if_cases (Done-Effects s) e.alert_delivered
            (λ h. (a, t, due, h, ap (λ l. l ++ (payload_of dry e f a ∷ [])) same, refl))
            (λ h. (a, t, due, h, ap (λ l. l ++ (payload_of dry e f a ∷ [])) same, refl)))

  transition-Effects :
      (s : Store) (a : RootCauseAnalysis) (previous : AlertPayload)
      → e.investigated ≡ analysis a
      → f.previous_payload ≡ some previous
      → labels_changed dry e f (payload_of dry e f a) (some previous) ≡ true
      → dry ≡ false
      → Done-Effects s
          (transition dry e f (payload_of dry e f a) previous (e.during_investigation s))
  unfolding transition
  transition-Effects s a previous found same changed wet =
      let t = e.during_transition (e.during_investigation s) in
      let posted : (resolution_of dry e f previous ∷ []) ≡ before_alert a f.previous_payload =
        sym (ap (before_alert a) same ∙ rw (changed, wet) refl) in
      if_cases (Done-Effects s) (not e.transition_delivered)
        (λ h. (previous, same, refl, refl, ground arith))
        (λ taken.
          if_cases (Done-Effects s) (not (current dry e f t))
            (λ h. (ground arith, inr (previous, same, refl, refl)))
            (λ h.
              deliver-Effects s t a (resolution_of dry e f previous ∷ [])
                (found, ground arith, inr (ground (arith, taken))) posted
                (λ d. absurd (cc (d, wet)))))

  direct-Effects :
      (s : Store) (a : RootCauseAnalysis)
      → e.investigated ≡ analysis a
      → current dry e f (e.during_investigation s) ≡ true
      → before_alert a f.previous_payload ≡ []
      → Done-Effects s (deliver dry e f (payload_of dry e f a) [] (e.during_investigation s))
  direct-Effects s a found on none_before =
      deliver-Effects s (e.during_investigation s) a [] (found, on, inl none_before)
        (sym none_before) (λ _. refl)

  notify-Effects :
      (s : Store) (a : RootCauseAnalysis) (o : Option AlertPayload)
      → e.investigated ≡ analysis a
      → current dry e f (e.during_investigation s) ≡ true
      → f.previous_payload ≡ o
      → Done-Effects s (notify dry e f (payload_of dry e f a) o (e.during_investigation s))
  unfolding notify
  notify-Effects s a none found on same = direct-Effects s a found on (ap (before_alert a) same)
  notify-Effects s a (some previous) found on same =
      let changed = labels_changed dry e f (payload_of dry e f a) (some previous) in
      if_cases (Done-Effects s) (changed && not dry)
        (λ h. transition-Effects s a previous found same (ground arith) (ground arith))
        (λ h. direct-Effects s a found on (ap (before_alert a) same ∙ rw h refl))

  conclude-Effects :
      (s : Store) (i : Investigation)
      → e.investigated ≡ i
      → Done-Effects s (conclude dry e f i (e.during_investigation s))
  unfolding conclude
  conclude-Effects s timed_out same = (same, refl, refl)
  conclude-Effects s failed same = (same, refl, refl)
  conclude-Effects s (analysis a) same =
      if_cases (Done-Effects s) (not (current dry e f (e.during_investigation s)))
        (λ h. (ground arith, inl (refl, refl)))
        (λ h. notify-Effects s a f.previous_payload same (ground arith) refl)

-- Whatever the model, Alertmanager and the other tasks do, a job does what its outcome says. An alert
-- is posted only for an analysis of this run, only if the store still has the incident, of the same
-- generation, at the last moment before, and only after the resolution of an earlier alert whose
-- labels differ, if there is one, was delivered. The incident is acknowledged in the store exactly
-- where the outcome is `delivered` or `dry_run`; with every other outcome the job itself has
-- changed nothing in the store.
pub process_firing-Effects :
    (dry : Bool) (max_job_age : ℕ) (e : Surroundings) (work : InvestigationWork) (s : Store)
    → let (s', sent, outcome) = process_firing dry max_job_age e work s in
      Effects dry e work.firing s s' sent outcome
unfolding process_firing
process_firing-Effects dry max_job_age e work s =
    let P = λ (d : Done). Effects dry e work.firing s d.0 d.1 d.2 in
    if_cases P (ltb (work.detected_at + max_job_age * second) e.started_at) (λ h. (refl, refl))
      (λ _.
        if_cases P (not (current dry e work.firing s)) (λ h. (ground arith, refl, refl))
          (λ _. conclude-Effects dry e work.firing s e.investigated refl))
