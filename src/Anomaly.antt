-- ===== src/Anomaly.antt =====
-- The anomalies that the detector, the store and the polling loop share (`AlertSeverity` and
-- `Anomaly` of uyuni_ai_agent/anomaly_detector.py, `incident_fingerprint` of
-- uyuni_ai_agent/incident_store.py). A float is a whole number of a fixed small unit; a description
-- is kept as the parts of its f-string.
use uyuni_ai.Common.{ℕ, Bool, Option, List, String}
use uyuni_ai.Common.Text.{text_or_empty}
use uyuni_ai.Evidence.Records.{EvidenceStatus}
use uyuni_ai.Telemetry.{Observation}

pub data AlertSeverity : Type 0 where
  info warning critical : AlertSeverity

-- severity.value
abbrev pub severity_value : AlertSeverity → String
severity_value info = "info"
severity_value warning = "warning"
severity_value critical = "critical"

-- one wait for a PostgreSQL lock, as `parse_postgres_lock_pairs` gives it
pub record LockPair : Type 0 where
  pub database : String
  pub blocked_pid : ℕ
  pub blocker_pid : ℕ
  pub blocked_seconds : ℕ
  pub blocked_application : String

-- the values of `Anomaly.context`
pub data Value : Type 0 where
  absent : Value
  number : ℕ → Value
  flag : Bool → Value
  text : String → Value
  texts : List String → Value
  numbers : List ℕ → Value
  pairs : List LockPair → Value
  observations : List Observation → Value
  readings : List (String × Option ℕ) → Value

pub data Description : Type 0 where
  label_at : String → ℕ → Description
  salt_unavailable : String → Description
  service_failed : String → Bool → Description
  database_blocked : String → ℕ → ℕ → Description
  correlated : String → String → ℕ → String → Description
  memory_usage : ℕ → Option ℕ → Description
  telemetry_unavailable : String → String → List EvidenceStatus → Description

pub record Anomaly : Type 0 where
  pub minion_id : String
  pub metric_name : String
  pub current_value : ℕ
  pub threshold : ℕ
  pub severity : AlertSeverity
  pub description : Description
  pub service_name : Option String
  pub resource : Option String
  pub context : List (String × Value)

pub record IdentityKey : Type 0 where
  pub minion_id : String
  pub metric_name : String
  pub service_name : String
  pub resource : String

unfoldable pub identity_key : Anomaly → IdentityKey
identity_key a = record {
  minion_id = a.minion_id;
  metric_name = a.metric_name;
  service_name = text_or_empty a.service_name;
  resource = text_or_empty a.resource;
}
