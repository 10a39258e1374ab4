-- ===== src/Polling/Minion/Soundness.antt =====
-- `process_minion_anomalies` (main.py) keeps the queue well formed and the keys of the table unique.
use uyuni_ai.Common.{ℕ, not, none, List, [], ◌∷◌, ◌++◌, String, if_cases, on_option_cases}
use uyuni_ai.Common.Lists.{is_nonempty}
use uyuni_ai.Common.Dict.{Unique}
use uyuni_ai.Anomaly.{Anomaly, severity_value}
use uyuni_ai.Incidents.{FiringIncident, IncidentRecord, reconcile}
use uyuni_ai.Incidents.Step.{reconcile_steps}
use uyuni_ai.Incidents.Resolution.{Unique-mark_resolved}
use uyuni_ai.Queue.{CancelStatus, cancel}
use uyuni_ai.Queue.Invariant.{IsValid}
use uyuni_ai.Queue.Preserves.{enqueue-IsValid, cancel-IsValid}
use uyuni_ai.Alerts.{AlertPayload, build_resolved_payload}
use uyuni_ai.Polling.Minion.{
  World, Surroundings, record_resolution, post_resolution, conclude, after_cancel, resolve_one,
  resolve_all, queue_one, queue_all, detected_on, process_minion_anomalies,
}

-- the queue is well formed, and no fingerprint is twice in the table
abbrev pub IsSound : World → Type 0
IsSound w = IsValid w.queue × Unique w.store.incidents

-- the other tasks keep that
pub record IsFair (e : Surroundings) : Type 0 where
  pub at_cancel : (k : ℕ) (w : World) → IsSound w → IsSound (e.before_cancel k w)
  pub at_delivery : (k : ℕ) (w : World) → IsSound w → IsSound (e.during_delivery k w)
  pub at_enqueue : (k : ℕ) (w : World) → IsSound w → IsSound (e.before_enqueue k w)

module _ (e : Surroundings) (fair : IsFair e) where
  record_resolution-IsSound : (k : ℕ) (w : World) → IsSound w → IsSound (record_resolution e k w)
  unfolding record_resolution
  record_resolution-IsSound k w h = (h.0, Unique-mark_resolved k (e.resolved_at k) w.store h.1)

  post_resolution-IsSound :
      (k : ℕ) (p : AlertPayload) (w : World) → IsSound w → IsSound (post_resolution e k p w)
  unfolding post_resolution
  post_resolution-IsSound k p w h =
      let posted : World = record w {
        sent = w.sent ++ (build_resolved_payload p none (e.ends_at k) ∷ []);
      } in
      let kept = fair.at_delivery k posted h in
      if_cases IsSound (e.delivered k) (λ _. record_resolution-IsSound k _ kept) (λ _. kept)

  conclude-IsSound :
      (i : IncidentRecord AlertPayload) (w : World) → IsSound w → IsSound (conclude e i w)
  unfolding conclude
  conclude-IsSound i w h =
      on_option_cases IsSound i.row.payload (λ _. record_resolution-IsSound i.fingerprint w h)
        λ p _.
          if_cases IsSound e.dry_run (λ _. record_resolution-IsSound i.fingerprint w h)
            (λ _. post_resolution-IsSound i.fingerprint p w h)

  after_cancel-IsSound :
      (i : IncidentRecord AlertPayload) (c : CancelStatus) (w : World)
      → IsSound w
      → IsSound (after_cancel e i c w)
  unfolding after_cancel
  after_cancel-IsSound i CancelStatus.in_flight w h = h
  after_cancel-IsSound i CancelStatus.cancelled w h = conclude-IsSound i w h
  after_cancel-IsSound i CancelStatus.not_found w h = conclude-IsSound i w h

  resolve_all-IsSound :
      (is : List (IncidentRecord AlertPayload)) (w : World)
      → IsSound w
      → IsSound (resolve_all e is w)
  unfolding resolve_all resolve_one
  resolve_all-IsSound [] w h = h
  resolve_all-IsSound (i ∷ rest) w0 h =
      let w = e.before_cancel i.fingerprint w0 in
      let (v, u) = fair.at_cancel i.fingerprint w0 h in
      resolve_all-IsSound rest _ (
        after_cancel-IsSound i _ (record w { queue = (cancel i.fingerprint w.queue).0 })
          (cancel-IsValid i.fingerprint w.queue v, u))

  queue_all-IsSound :
      (fs : List (FiringIncident AlertPayload)) (w : World) → IsSound w → IsSound (queue_all e fs w)
  unfolding queue_all queue_one
  queue_all-IsSound [] w h = h
  queue_all-IsSound (f ∷ rest) w0 h =
      let (v, u) = fair.at_enqueue f.fingerprint w0 h in
      queue_all-IsSound rest _
        (enqueue-IsValid f.fingerprint (severity_value f.anomaly.severity) _ _ v, u)

  -- A minion's part of a cycle keeps the queue well formed and the keys of the table unique, if
  -- what other tasks do while it waits does.
  pub process_minion_anomalies-IsSound :
      (digest : List ℕ → ℕ) (minion_id : String) (anomalies : List Anomaly) (w : World)
      → IsSound w
      → IsSound (process_minion_anomalies digest e minion_id anomalies w)
  unfolding process_minion_anomalies
  process_minion_anomalies-IsSound digest m anomalies w h =
      let detected = detected_on m anomalies in
      let r = reconcile digest m detected e.reconciled_at w.store in
      let once = (reconcile_steps digest m detected e.reconciled_at w.store h.1).1 in
      let kept = resolve_all-IsSound r.1.resolved (record w { store = r.0 }) (h.0, once) in
      if_cases IsSound (not (is_nonempty detected)) (λ _. kept)
        (λ _. queue_all-IsSound r.1.firing _ kept)
