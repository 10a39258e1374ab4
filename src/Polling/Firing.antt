-- ===== src/Polling/Firing.antt =====
-- `_process_firing_investigation` of uyuni_ai_agent/main.py: one job of the queue, from its start to the
-- recorded delivery. At each of its three waits other tasks may change the store; what they do is an
-- argument, as are the readings of the clock, the outcome of the model and the answers of
-- Alertmanager. A time of the store is in microseconds, as in Incidents.
pub mod Acknowledgement
use uyuni_ai.Common.{
  ℕ, ◌+◌, ◌*◌, Bool, true, false, not, ◌&&◌, Option, none, some, List, [], ◌∷◌, ◌++◌, String, ltb,
  if◌then◌else◌, on_option, is_some,
}
use uyuni_ai.Common.Text.{text_or_empty}
use uyuni_ai.Anomaly.{Anomaly, severity_value}
use uyuni_ai.Evidence.Grounding.{RootCauseAnalysis}
use uyuni_ai.Incidents.{second, FiringIncident, IncidentStore, is_actionable, mark_emitted}
use uyuni_ai.Alerts.{AlertPayload, build_alert_payload, build_resolved_payload, same_labels}

abbrev pub Store : Type 0
Store = IncidentStore AlertPayload

pub record InvestigationWork : Type 0 where
  pub firing : FiringIncident AlertPayload
  pub detected_at : ℕ

-- how `investigate` ended
pub data Investigation : Type 0 where
  analysis : RootCauseAnalysis → Investigation
  timed_out failed : Investigation

pub data Outcome : Type 0 where
  stale obsolete llm_timeout investigation_failed recovered transition_failed : Outcome
  dry_run delivered delivery_failed : Outcome

-- What one run meets: the clock at its start, at the building of a resolution and at the record of the
-- delivery, the end of the investigation, whether Alertmanager took the resolution and the alert,
-- and what other tasks did to the store meanwhile.
pub record Surroundings : Type 0 where
  pub started_at : ℕ
  pub resolved_at : ℕ
  pub emitted_at : ℕ
  pub investigated : Investigation
  pub during_investigation : Store → Store
  pub transition_delivered : Bool
  pub during_transition : Store → Store
  pub alert_delivered : Bool
  pub during_delivery : Store → Store

-- the store after the job, the payloads that were posted, in their order, and the outcome
abbrev pub Done : Type 0
Done = Store × List AlertPayload × Outcome

module _ (dry : Bool) (e : Surroundings) (f : FiringIncident AlertPayload) where
  pub current : Store → Bool
  current s = is_actionable f.fingerprint f.starts_at s

  pub payload_of : RootCauseAnalysis → AlertPayload
  payload_of a =
      build_alert_payload a (severity_value f.anomaly.severity) f.anomaly.minion_id
        f.anomaly.metric_name (text_or_empty f.anomaly.service_name)
        (text_or_empty f.anomaly.resource) (some f.fingerprint) (some f.starts_at) 0

  pub acknowledge : AlertPayload → Store → Store
  acknowledge p s = mark_emitted f.fingerprint p.labels.severity p e.emitted_at (some f.starts_at) s

  -- the end of the function; `sent` was posted before
  pub deliver : AlertPayload → List AlertPayload → Store → Done
  deliver p sent s =
      if dry
      then (acknowledge p s, sent, dry_run)
      else if e.alert_delivered
      then (acknowledge p (e.during_delivery s), sent ++ (p ∷ []), delivered)
      else (e.during_delivery s, sent ++ (p ∷ []), delivery_failed)

  pub resolution_of : AlertPayload → AlertPayload
  resolution_of previous = build_resolved_payload previous none e.resolved_at

  -- the labels of the alert that fires are others now
  pub transition : AlertPayload → AlertPayload → Store → Done
  transition p previous s =
      let s' = e.during_transition s in
      let sent = resolution_of previous ∷ [] in
      if not e.transition_delivered
      then (s', sent, transition_failed)
      else if not (current s')
      then (s', sent, recovered)
      else deliver p sent s'

  pub labels_changed : AlertPayload → Option AlertPayload → Bool
  labels_changed p none = false
  labels_changed p (some previous) = not (same_labels previous.labels p.labels)

  pub notify : AlertPayload → Option AlertPayload → Store → Done
  notify p none s = deliver p [] s
  notify p (some previous) s =
      if labels_changed p (some previous) && not dry
      then transition p previous s
      else deliver p [] s

  -- from the end of the investigation on
  pub conclude : Investigation → Store → Done
  conclude timed_out s = (s, [], llm_timeout)
  conclude failed s = (s, [], investigation_failed)
  conclude (analysis a) s =
      if not (current s) then (s, [], recovered) else notify (payload_of a) f.previous_payload s

pub process_firing : Bool → ℕ → Surroundings → InvestigationWork → Store → Done
process_firing dry max_job_age e work s =
    if ltb (work.detected_at + max_job_age * second) e.started_at
    then (s, [], stale)
    else if not (current dry e work.firing s)
    then (s, [], obsolete)
    else conclude dry e work.firing e.investigated (e.during_investigation s)
