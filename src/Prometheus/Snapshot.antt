-- ===== src/Prometheus/Snapshot.antt =====
-- `get_all_metrics` of uyuni_ai_agent/prometheus_client.py: the snapshot of one minion. The dictionary
-- `telemetry` is the list of its observations in their order, each under its own name; a metric that
-- the snapshot has no key for is none.
pub mod Valued
pub mod Observations
use package.text.Mathlib.Text.{◌==◌ as str_eq}
use uyuni_ai.Common.{
  ℕ, Bool, Option, none, some, List, [], ◌∷◌, ◌++◌, String, if◌then◌else◌, on_option,
}
use uyuni_ai.Common.Int.{ℤ}
use uyuni_ai.Common.Json.{Raised}
use uyuni_ai.Common.Result.{Result, ok, err, ◌>>=◌}
use uyuni_ai.Common.Text.{given}
use uyuni_ai.Telemetry.{Observation}
use uyuni_ai.Detector.Thresholds.{Filesystem}
use uyuni_ai.Prometheus.{Client, MetricReading, usable}
use uyuni_ai.Prometheus.Exporters.{
  get_target_health, get_cpu_usage_percent, get_apache_requests_per_sec,
  get_postgres_deadlocks_per_min,
}
use uyuni_ai.Prometheus.Memory.{MemoryPressure, get_memory_pressure_metrics, usable_value, as_dict}
use uyuni_ai.Prometheus.Filesystems.{get_filesystem_usage_percent}
use uyuni_ai.Prometheus.Ratios.{
  get_apache_busy_workers_percent, get_postgres_active_connections_percent,
}

pub record Metrics : Type 0 where
  pub memory_pressure : MemoryPressure
  pub cpu_percent : Option ℤ
  pub disk_percent : Option ℕ
  pub filesystems : List Filesystem
  pub telemetry : List Observation
  pub apache_busy_workers_percent : Option ℤ
  pub apache_requests_per_sec : Option ℤ
  pub postgres_active_connections_percent : Option ℤ
  pub postgres_deadlocks_per_min : Option ℤ

-- as_dict() of a reading of filesystems, without the list
unfoldable pub filesystems_dict : MetricReading (List Filesystem) → Observation
filesystems_dict r = record {
  name = r.name;
  exporter = r.exporter;
  target = r.target;
  status = r.status;
  value = none;
  observed_at = r.observed_at;
  error = r.error;
}

-- filesystems_reading.value if filesystems_reading.usable else []
unfoldable pub usable_filesystems : MetricReading (List Filesystem) → List Filesystem
unfolding usable
usable_filesystems r = if usable r then on_option r.value [] (λ found. found) else []

-- the usage of the filesystem that is mounted at "/"
unfoldable pub root_usage : List Filesystem → Option ℕ
root_usage [] = none
root_usage (fs ∷ rest) = if str_eq fs.mountpoint "/" then fs.usage_percent else root_usage rest

-- the part of the snapshot that every minion has
unfoldable pub node_metrics :
    MetricReading ℤ → MetricReading (List Filesystem) → MemoryPressure → MetricReading ℤ → Metrics
node_metrics node_up found memory cpu = record {
  memory_pressure = memory;
  cpu_percent = usable_value cpu;
  disk_percent = root_usage (usable_filesystems found);
  filesystems = usable_filesystems found;
  telemetry = as_dict node_up ∷ filesystems_dict found ∷ (memory.telemetry ++ (as_dict cpu ∷ []));
  apache_busy_workers_percent = none;
  apache_requests_per_sec = none;
  postgres_active_connections_percent = none;
  postgres_deadlocks_per_min = none;
}

unfoldable pub get_node_metrics : String → Client → String → Option ℕ → Result Raised Metrics
get_node_metrics instance client url max_age = do
  node_up ← get_target_health instance "node_exporter" client url max_age "up"
  found ← get_filesystem_usage_percent instance client url max_age
  memory ← get_memory_pressure_metrics instance client url max_age
  cpu ← get_cpu_usage_percent instance client url max_age
  ok (node_metrics node_up found memory cpu)

unfoldable pub with_apache_readings :
    Metrics → MetricReading ℤ → MetricReading ℤ → MetricReading ℤ → Metrics
with_apache_readings metrics apache_up busy rps = record metrics {
  telemetry = metrics.telemetry ++ (as_dict apache_up ∷ as_dict busy ∷ as_dict rps ∷ []);
  apache_busy_workers_percent = usable_value busy;
  apache_requests_per_sec = usable_value rps;
}

-- if apache_instance: …
unfoldable pub with_apache :
    Client → String → Option ℕ → Option String → Metrics → Result Raised Metrics
with_apache client url max_age none metrics = ok metrics
with_apache client url max_age (some instance) metrics = do
  apache_up ← get_target_health instance "apache_exporter" client url max_age "apache_up"
  busy ← get_apache_busy_workers_percent instance client url max_age
  rps ← get_apache_requests_per_sec instance client url max_age
  ok (with_apache_readings metrics apache_up busy rps)

unfoldable pub with_postgres_readings :
    Metrics → MetricReading ℤ → MetricReading ℤ → MetricReading ℤ → Metrics
with_postgres_readings metrics postgres_up connections deadlocks = record metrics {
  telemetry =
      metrics.telemetry ++ (as_dict postgres_up ∷ as_dict connections ∷ as_dict deadlocks ∷ []);
  postgres_active_connections_percent = usable_value connections;
  postgres_deadlocks_per_min = usable_value deadlocks;
}

-- if postgres_instance: …
unfoldable pub with_postgres :
    Client → String → Option ℕ → Option String → Metrics → Result Raised Metrics
with_postgres client url max_age none metrics = ok metrics
with_postgres client url max_age (some instance) metrics = do
  postgres_up ← get_target_health instance "postgres_exporter" client url max_age "pg_up"
  connections ← get_postgres_active_connections_percent instance client url max_age
  deadlocks ← get_postgres_deadlocks_per_min instance client url max_age
  ok (with_postgres_readings metrics postgres_up connections deadlocks)

unfoldable pub get_all_metrics :
    String → Client → String → Option ℕ → Option String → Option String → Result Raised Metrics
get_all_metrics instance client url max_age apache_instance postgres_instance = do
  node ← get_node_metrics instance client url max_age
  apache ← with_apache client url max_age (given apache_instance) node
  with_postgres client url max_age (given postgres_instance) apache
