-- ===== src/Telemetry.antt =====
-- What one query of the monitoring gave, as a snapshot keeps it (`MetricReading.as_dict` of
-- uyuni_ai_agent/prometheus_client.py), and why there is no value.
use uyuni_ai.Common.{ℕ, Option, List, String}
use uyuni_ai.Common.Int.{ℤ, Float}
use uyuni_ai.Common.Json.{Raised}
use uyuni_ai.Evidence.Records.{EvidenceStatus}

-- the texts of the field `error`, by the place that makes them
pub data Failure : Type 0 where
  http_status : ℕ → List ℕ → Failure
  invalid_json : List ℕ → Failure
  query_failed : List ℕ → Failure
  no_result_list no_series : Failure
  older_than : ℕ → Failure
  connection_failed : List ℕ → Failure
  invalid_sample : Raised → Failure
  not_finite : Float → Failure
  no_filesystem : ℕ → Failure
  no_workers no_maximum : Failure
  not_collected health_not_collected target_down : Failure
  inspection : List ℕ → Failure

-- `value` is a number where the query has one; a list of filesystems is left out
pub record Observation : Type 0 where
  pub name : String
  pub exporter : String
  pub target : String
  pub status : EvidenceStatus
  pub value : Option ℤ
  pub observed_at : Option Float
  pub error : Option Failure
