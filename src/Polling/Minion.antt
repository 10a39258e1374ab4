-- ===== src/Polling/Minion.antt =====
-- `process_minion_anomalies` of uyuni_ai_agent/main.py: one minion's part of a cycle, over the store and
-- the queue. Where it waits for the queue's lock or for Alertmanager, other tasks may act: what they
-- do is an argument for each fingerprint, as are the readings of the clock and the answers of
-- Alertmanager. The metrics of a snapshot, which a job carries to the model, are left out.
pub mod Deferral
pub mod Soundness
use text.Mathlib.Text.{◌==◌ as str_eq}
use uyuni_ai.Common.{
  ℕ, Bool, true, false, not, Option, none, some, List, [], ◌∷◌, ◌++◌, String, if◌then◌else◌,
  on_option,
}
use uyuni_ai.Common.Lists.{is_nonempty}
use uyuni_ai.Anomaly.{Anomaly, severity_value}
use uyuni_ai.Incidents.{FiringIncident, IncidentRecord, IncidentChanges, reconcile, mark_resolved}
use uyuni_ai.Queue.{
  InvestigationQueue, CancelStatus, cancelled, in_flight, not_found, enqueue, cancel,
}
use uyuni_ai.Alerts.{AlertPayload, build_resolved_payload}
use uyuni_ai.Polling.Firing.{Store, InvestigationWork}

-- what the tasks share, and the payloads that were posted, in their order
pub record World : Type 0 where
  pub store : Store
  pub queue : InvestigationQueue InvestigationWork
  pub sent : List AlertPayload

pub record Surroundings : Type 0 where
  pub dry_run : Bool
  pub reconciled_at : ℕ
  pub ends_at : ℕ → ℕ
  pub resolved_at : ℕ → ℕ
  pub detected_at : ℕ → ℕ
  pub before_cancel : ℕ → World → World
  pub during_delivery : ℕ → World → World
  pub delivered : ℕ → Bool
  pub before_enqueue : ℕ → World → World

-- incident_store.mark_resolved(fingerprint)
pub record_resolution : Surroundings → ℕ → World → World
record_resolution e k w = record w { store = mark_resolved k (e.resolved_at k) w.store }

-- the delivery of a resolution, and its record
pub post_resolution : Surroundings → ℕ → AlertPayload → World → World
post_resolution e k previous w =
    let posted : World = record w {
      sent = w.sent ++ (build_resolved_payload previous none (e.ends_at k) ∷ []);
    } in
    let w' = e.during_delivery k posted in if e.delivered k then record_resolution e k w' else w'

-- an incident that no worker has
pub conclude : Surroundings → IncidentRecord AlertPayload → World → World
conclude e i w = on_option i.row.payload (record_resolution e i.fingerprint w) λ previous.
    if e.dry_run
    then record_resolution e i.fingerprint w
    else post_resolution e i.fingerprint previous w

pub after_cancel : Surroundings → IncidentRecord AlertPayload → CancelStatus → World → World
after_cancel e i CancelStatus.in_flight w = w
after_cancel e i CancelStatus.cancelled w = conclude e i w
after_cancel e i CancelStatus.not_found w = conclude e i w

-- one round of the loop over `changes.resolved`
pub resolve_one : Surroundings → IncidentRecord AlertPayload → World → World
resolve_one e i w0 =
    let w = e.before_cancel i.fingerprint w0 in
    let (queue, status) = cancel i.fingerprint w.queue in
    after_cancel e i status (record w { queue = queue })

pub resolve_all : Surroundings → List (IncidentRecord AlertPayload) → World → World
resolve_all e [] w = w
resolve_all e (i ∷ rest) w = resolve_all e rest (resolve_one e i w)

-- one round of the loop over `changes.firing`
pub queue_one : Surroundings → FiringIncident AlertPayload → World → World
queue_one e f w0 =
    let w = e.before_enqueue f.fingerprint w0 in
    let work : InvestigationWork = record {
      firing = f;
      detected_at = e.detected_at f.fingerprint;
    } in
    record w { queue = (enqueue f.fingerprint (severity_value f.anomaly.severity) work w.queue).0 }

pub queue_all : Surroundings → List (FiringIncident AlertPayload) → World → World
queue_all e [] w = w
queue_all e (f ∷ rest) w = queue_all e rest (queue_one e f w)

-- [anomaly for anomaly in all_cycle_anomalies if anomaly.minion_id == minion_id]
unfoldable pub detected_on : String → List Anomaly → List Anomaly
detected_on minion_id [] = []
detected_on minion_id (a ∷ rest) =
    let others = detected_on minion_id rest in
    if str_eq a.minion_id minion_id then a ∷ others else others

unfoldable pub process_minion_anomalies :
    (List ℕ → ℕ) → Surroundings → String → List Anomaly → World → World
process_minion_anomalies digest e minion_id anomalies w =
    let detected = detected_on minion_id anomalies in
    let (store, changes) = reconcile digest minion_id detected e.reconciled_at w.store in
    let w' = resolve_all e changes.resolved (record w { store = store }) in
    if not (is_nonempty detected) then w' else queue_all e changes.firing w'
