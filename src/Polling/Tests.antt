-- ===== src/Polling/Tests.antt =====
-- Runs of the polling loop (main.py).
use uyuni_ai.Common.{true, false, none, some, [], ◌∷◌}
use uyuni_ai.Common.Text.{codes}
use uyuni_ai.Anomaly.{Anomaly, warning, memory_usage}
use uyuni_ai.Evidence.Grounding.{RootCauseAnalysis, confirmed, Cause, Urgency}
use uyuni_ai.Incidents.{FiringIncident, Row}
use uyuni_ai.Alerts.{AlertPayload}
use uyuni_ai.Polling.Firing.{Store, InvestigationWork, analysis, Surroundings, process_firing}
use uyuni_ai.Incidents.{IncidentRecord}
use uyuni_ai.Common.{refl, arith}
use uyuni_ai.Queue.{InvestigationQueue}
use uyuni_ai.Queue.Invariant.{IsValid}
use uyuni_ai.Polling.Minion
use uyuni_ai.Polling.Minion.{World, resolve_one, process_minion_anomalies}
use uyuni_ai.Polling.Minion.Deferral.{Resolves, resolve_one-Resolves}
use uyuni_ai.Polling.Minion.Soundness.{IsFair}
use uyuni_ai.Polling.Firing.Acknowledgement.{Effects, process_firing-Effects}

abbrev high_memory : Anomaly
high_memory = record {
  minion_id = "db1";
  metric_name = "memory_pressure";
  current_value = 91000;
  threshold = 90000;
  severity = warning;
  description = memory_usage 91000 none;
  service_name = none;
  resource = some "host-memory";
  context = [];
}

abbrev finding : RootCauseAnalysis
finding = record {
  summary = codes "Memory is exhausted";
  conclusion = confirmed;
  affected_component = "postgresql";
  root_cause = Cause.written (codes "Swap is full [E1]");
  supporting_evidence_ids = [];
  key_evidence = [];
  remediation = [];
  urgency = Urgency.high;
  confidence = 900;
}

abbrev firing : FiringIncident AlertPayload
firing = record { anomaly = high_memory; fingerprint = 42; starts_at = 90; previous_payload = none }

abbrev job : InvestigationWork
job = record { firing = firing; detected_at = 91000000 }

abbrev row : Row AlertPayload
row = record {
  minion_id = "db1";
  metric_name = "memory_pressure";
  service_name = "";
  resource = "host-memory";
  severity = "warning";
  last_emitted_severity = none;
  active = true;
  first_seen = 90000000;
  last_seen = 90000000;
  last_emitted = none;
  consecutive_absent = 0;
  starts_at = 90;
  payload = none;
  resolved_at = none;
}

abbrev store : Store
store = record {
  cooldown_seconds = 900;
  resolve_after_healthy_cycles = 2;
  incidents = (42, row) ∷ [];
}

-- the model answers, and Alertmanager takes the alert
abbrev calm : Surroundings
calm = record {
  started_at = 95000000;
  resolved_at = 0;
  emitted_at = 120000000;
  investigated = analysis finding;
  during_investigation = λ s. s;
  transition_delivered = true;
  during_transition = λ s. s;
  alert_delivered = true;
  during_delivery = λ s. s;
}

process_firing-Effects_example :
    let (s', sent, outcome) = process_firing false 300 calm job store in
    Effects false calm firing store s' sent outcome
process_firing-Effects_example = process_firing-Effects false 300 calm job store

-- a worker has the job of the incident, and no other is pending
abbrev busy_queue : InvestigationQueue InvestigationWork
busy_queue = record {
  max_pending = 2;
  worker_count = 1;
  heap = [];
  pending = [];
  in_flight = 42 ∷ [];
  sequence = 1;
  handler = true;
  observer = false;
  observed = [];
  worker_tasks = 1;
  accepting = true;
  closing = false;
  enqueued = 1;
  coalesced = 0;
  completed = 0;
  failed = 0;
  rejected = 0;
  evicted = 0;
  cancelled = 0;
}

pub busy_queue-IsValid : IsValid busy_queue
busy_queue-IsValid = record {
  heap_ordered = tt;
  fresh = tt;
  room = omega arith;
  bounded = omega arith;
  indexed = λ f. refl;
  disjoint = λ f m. refl;
}

abbrev pub world : World
world = record { store = store; queue = busy_queue; sent = [] }

-- nothing happens meanwhile, and Alertmanager takes every resolution
abbrev pub quiet : Minion.Surroundings
quiet = record {
  dry_run = false;
  reconciled_at = 200000000;
  ends_at = λ k. 200;
  resolved_at = λ k. 200000000;
  detected_at = λ k. 200000000;
  before_cancel = λ k w. w;
  during_delivery = λ k w. w;
  delivered = λ k. true;
  before_enqueue = λ k w. w;
}

abbrev healthy_again : IncidentRecord AlertPayload
healthy_again = record { fingerprint = 42; row = row }

resolve_one-Resolves_example :
    Resolves quiet healthy_again world (resolve_one quiet healthy_again world) true
resolve_one-Resolves_example = resolve_one-Resolves quiet healthy_again world busy_queue-IsValid

pub quiet-IsFair : IsFair quiet
quiet-IsFair = record { at_cancel = λ k w h. h; at_delivery = λ k w h. h; at_enqueue = λ k w h. h }
