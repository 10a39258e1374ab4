-- ===== src/Detector/BlindSpots.antt =====
-- `telemetry_anomalies` of uyuni_ai_agent/anomaly_detector.py. The observation of a query that was never
-- made has neither an exporter nor a target.
pub mod Judged
pub mod Cover
pub mod Total
use Prim.Native.String.{◌++◌ as concat}
use package.text.Mathlib.Text.{◌==◌ as str_eq}
use uyuni_ai.Common.{
  ℕ, ◌==◌, Bool, true, false, not, Option, none, some, List, [], ◌∷◌, String, if◌then◌else◌,
  on_option, on_list, ltb,
}
use uyuni_ai.Common.Lists.{filter}
use uyuni_ai.Common.Int.{ℤ, pos, negsuc}
use uyuni_ai.Common.Json.{Raised, type_error}
use uyuni_ai.Common.Result.{Result, ok, err, ◌>>=◌}
use uyuni_ai.Evidence.Records.{EvidenceStatus, is_ok}
use uyuni_ai.Telemetry.{Observation, Failure, not_collected, health_not_collected, target_down}
use uyuni_ai.Anomaly.{
  Anomaly, AlertSeverity, warning, Value, text, observations, Description, telemetry_unavailable,
}

-- one entry of `_REQUIRED_TELEMETRY`, its names sorted
pub record Required : Type 0 where
  pub exporter : String
  pub names : List String

unfoldable pub required_telemetry : List Required
required_telemetry =
    record {
      exporter = "node_exporter";
      names = "cpu_percent" ∷ "filesystems" ∷ "memory_available_bytes" ∷ "memory_total_bytes" ∷ [];
    }
    ∷ record {
      exporter = "apache_exporter";
      names = "apache_busy_workers_percent" ∷ "apache_requests_per_sec" ∷ [];
    }
    ∷ record {
      exporter = "postgres_exporter";
      names = "postgres_active_connections_percent" ∷ "postgres_deadlocks_per_min" ∷ [];
    }
    ∷ []

-- exporter_observations.get(name)
unfoldable pub observed : String → List Observation → Option Observation
observed name [] = none
observed name (o ∷ rest) = if str_eq o.name name then some o else observed name rest

-- an observation of a query that was never made
abbrev never_made : String → Failure → Observation
never_made name why = record {
  name = name;
  exporter = "";
  target = "";
  status = EvidenceStatus.missing;
  value = none;
  observed_at = none;
  error = some why;
}

-- the failures of the required names, where the target is up
unfoldable pub required_failures : List String → List Observation → List Observation
required_failures [] known = []
required_failures (name ∷ names) known =
    let rest = required_failures names known in
    on_option (observed name known) (never_made name not_collected ∷ rest)
      λ o. if is_ok o.status then rest else o ∷ rest

-- float(up.get("value")) != 1.0
unfoldable pub is_up : Option ℤ → Result Raised Bool
is_up none = err type_error
is_up (some (pos n)) = ok (n == 1000)
is_up (some (negsuc _)) = ok false

-- `failures`, from the observation of the target's health
unfoldable pub failures_of :
    String → List String → List Observation → Option Observation → Result Raised (List Observation)
failures_of exporter names known none =
    ok (never_made (concat exporter "_up") health_not_collected ∷ [])
failures_of exporter names known (some up) =
    if not (is_ok up.status)
    then ok (up ∷ [])
    else (is_up up.value >>= λ up_now. ok (
        if up_now
        then required_failures names known
        else record up { status = EvidenceStatus.error; error = some target_down } ∷ []))

-- the place of a status among the sorted texts
abbrev pub status_order : EvidenceStatus → ℕ
status_order EvidenceStatus.contradictory = 0
status_order EvidenceStatus.error = 1
status_order EvidenceStatus.missing = 2
status_order EvidenceStatus.ok = 3
status_order EvidenceStatus.stale = 4

pub insert_status : EvidenceStatus → List EvidenceStatus → List EvidenceStatus
insert_status s [] = s ∷ []
insert_status s (t ∷ ts) =
    if status_order s == status_order t
    then t ∷ ts
    else if ltb (status_order t) (status_order s)
    then t ∷ insert_status s ts
    else s ∷ t ∷ ts

-- sorted({item["status"] for item in failures})
pub statuses_of : List Observation → List EvidenceStatus
statuses_of [] = []
statuses_of (o ∷ rest) = insert_status o.status (statuses_of rest)

-- f"telemetry:{exporter}:{target}"
unfoldable pub telemetry_resource : String → String → String
telemetry_resource exporter target = concat "telemetry:" (concat exporter (concat ":" target))

unfoldable pub telemetry_anomaly : String → String → String → List Observation → Anomaly
telemetry_anomaly minion_id exporter target failures = record {
  minion_id = minion_id;
  metric_name = "telemetry_unavailable";
  current_value = 1000;
  threshold = 1000;
  severity = warning;
  description = telemetry_unavailable exporter target (statuses_of failures);
  service_name = none;
  resource = some (telemetry_resource exporter target);
  context =
      ("exporter", text exporter)
      ∷ ("target", text target)
      ∷ ("observations", observations failures)
      ∷ [];
}

-- the observations of an exporter
unfoldable pub of_exporter : String → List Observation → List Observation
of_exporter exporter known = filter (λ o. str_eq o.exporter exporter) known

-- one round of the loop: the anomaly of an exporter, if it has one
unfoldable pub exporter_anomaly :
    String → Required → List Observation → Result Raised (Option Anomaly)
exporter_anomaly minion_id required [] = ok none
exporter_anomaly minion_id required (first ∷ others) = do
  failures ←
      failures_of required.exporter required.names (first ∷ others)
        (observed (concat required.exporter "_up") (first ∷ others))
  ok (
      on_list failures none
        λ f fs. some (telemetry_anomaly minion_id required.exporter first.target (f ∷ fs)))

unfoldable pub anomalies_from :
    String → List Observation → List Required → Result Raised (List Anomaly)
anomalies_from minion_id known [] = ok []
anomalies_from minion_id known (required ∷ more) = do
  found ← exporter_anomaly minion_id required (of_exporter required.exporter known)
  rest ← anomalies_from minion_id known more
  ok (on_option found rest (λ a. a ∷ rest))

unfoldable pub telemetry_anomalies : List Observation → String → Result Raised (List Anomaly)
telemetry_anomalies known minion_id = anomalies_from minion_id known required_telemetry
