-- ===== src/Detector/Checks.antt =====
-- `check_all_metrics` of uyuni_ai_agent/anomaly_detector.py. A threshold is not negative, so a negative
-- value, which none of them can reach, is passed to the checks as not known.
use uyuni_ai.Common.{
  ℕ, Bool, false, Option, none, some, List, [], ◌∷◌, ◌++◌, String, if◌then◌else◌, on_option,
}
use uyuni_ai.Common.Int.{ℤ, pos}
use uyuni_ai.Common.Json.{Raised}
use uyuni_ai.Common.Result.{Result, ok, ◌>>=◌}
use uyuni_ai.Common.Text.{given}
use uyuni_ai.Anomaly.{Anomaly, Value, absent, number, text, readings}
use uyuni_ai.Prometheus.{Client}
use uyuni_ai.Prometheus.Memory.{MemoryPressure}
use uyuni_ai.Prometheus.Snapshot.{Metrics, get_all_metrics}
use uyuni_ai.Detector.Context.{get, set, update, as_flag}
use uyuni_ai.Detector.Thresholds.{Thresholds, check_threshold, filesystem_anomalies}
use uyuni_ai.Detector.Pressure.{PressureThresholds, memory_pressure_anomaly}
use uyuni_ai.Detector.BlindSpots.{telemetry_anomalies}

-- config["thresholds"]
pub record CheckThresholds : Type 0 where
  pub memory : PressureThresholds
  pub cpu : Thresholds
  pub disk : Thresholds
  pub busy_workers_percent : Thresholds
  pub requests_per_sec : Thresholds
  pub active_connections_percent : Thresholds
  pub deadlocks_per_min : Thresholds

-- a value that a check can judge
unfoldable pub known : Option ℤ → Option ℕ
known (some (pos n)) = some n
known _ = none

unfoldable pub memory_entries : MemoryPressure → List (String × Option ℕ)
memory_entries m =
    ("memory_usage_percent", m.memory_usage_percent)
    ∷ ("memory_available_bytes", known m.memory_available_bytes)
    ∷ ("memory_total_bytes", known m.memory_total_bytes)
    ∷ ("swap_total_bytes", known m.swap_total_bytes)
    ∷ ("swap_used_bytes", m.swap_used_bytes)
    ∷ ("swap_usage_percent", m.swap_usage_percent)
    ∷ ("swap_in_pages_per_second", known m.swap_in_pages_per_second)
    ∷ ("swap_out_pages_per_second", known m.swap_out_pages_per_second)
    ∷ ("swap_activity_pages_per_second", known m.swap_activity_pages_per_second)
    ∷ ("system_cpu_percent", known m.system_cpu_percent)
    ∷ ("iowait_cpu_percent", known m.iowait_cpu_percent)
    ∷ []

abbrev pub quantity : Option ℕ → Value
quantity none = absent
quantity (some n) = number n

-- an anomaly, or none
abbrev pub listed : Option Anomaly → List Anomaly
listed none = []
listed (some a) = a ∷ []

-- the memory check
unfoldable pub memory_check : CheckThresholds → String → Metrics → Option Anomaly
memory_check t minion_id m =
    on_option (memory_pressure_anomaly (memory_entries m.memory_pressure) t.memory minion_id) none
      λ a.
        some (record a {
          context = set "cpu_usage_percent" (quantity (known m.cpu_percent)) a.context;
        })

-- memory_anomaly and memory_anomaly.context.get("active_swapping", False)
unfoldable pub is_swapping : Option Anomaly → Bool
is_swapping none = false
is_swapping (some a) = as_flag (get "active_swapping" a.context)

-- the CPU check; the anomaly is left out where the memory's explains it
unfoldable pub cpu_check : CheckThresholds → String → Metrics → Option Anomaly → Option Anomaly
cpu_check t minion_id m memory_anomaly =
    on_option (check_threshold (known m.cpu_percent) t.cpu minion_id "cpu" "CPU usage") none λ a.
      if is_swapping memory_anomaly
      then none
      else some (record a {
        resource = some "host-cpu";
        context =
            update
              (("cpu_usage_percent", quantity (known m.cpu_percent))
                ∷ ("memory_pressure", readings (memory_entries m.memory_pressure))
                ∷ [])
              a.context;
      })

-- the service, the resource and the context that a check adds
abbrev annotated : String → String → List (String × Value) → Anomaly → Anomaly
annotated service resource context a = record a {
  service_name = some service;
  resource = some resource;
  context = update context a.context;
}

-- anomalies of an optional check
abbrev annotate : String → String → List (String × Value) → Option Anomaly → List Anomaly
annotate service resource context found =
    on_option found [] (λ a. annotated service resource context a ∷ [])

unfoldable pub apache_checks : CheckThresholds → String → Metrics → Option String → List Anomaly
apache_checks t minion_id m none = []
apache_checks t minion_id m (some instance) =
    annotate "apache2" "apache:workers" context (
      check_threshold (known m.apache_busy_workers_percent) t.busy_workers_percent minion_id
        "apache_busy_workers" "Apache busy workers")
    ++ annotate "apache2" "apache:traffic" context (
        check_threshold (known m.apache_requests_per_sec) t.requests_per_sec minion_id
          "apache_requests" "Apache requests per second")
  where
    context : List (String × Value)
    context =
        ("apache_instance", text instance)
        ∷ ("busy_workers_percent", quantity (known m.apache_busy_workers_percent))
        ∷ ("requests_per_second", quantity (known m.apache_requests_per_sec))
        ∷ []

unfoldable pub postgres_checks : CheckThresholds → String → Metrics → Option String → List Anomaly
postgres_checks t minion_id m none = []
postgres_checks t minion_id m (some instance) =
    annotate "postgresql" "postgresql:cluster"
      (("postgres_instance", text instance)
        ∷ ("connection_utilization_percent", quantity (known m.postgres_active_connections_percent))
        ∷ [])
      (check_threshold (known m.postgres_active_connections_percent) t.active_connections_percent
        minion_id "postgres_connections" "PostgreSQL connection utilization")
    ++ listed (
        check_threshold (known m.postgres_deadlocks_per_min) t.deadlocks_per_min minion_id
          "postgres_deadlocks" "PostgreSQL deadlocks/min")

-- the checks of a snapshot, after the blind spots
unfoldable pub metric_checks :
    CheckThresholds → String → Metrics → Option String → Option String → List Anomaly
metric_checks t minion_id m apache_instance postgres_instance =
    let memory = memory_check t minion_id m in
    listed memory
    ++ (listed (cpu_check t minion_id m memory)
        ++ (filesystem_anomalies m.filesystems t.disk minion_id
            ++ (apache_checks t minion_id m (given apache_instance)
                ++ postgres_checks t minion_id m (given postgres_instance))))

unfoldable pub checked :
    CheckThresholds
    → String
    → Option String
    → Option String
    → Metrics
    → Result Raised (List Anomaly)
checked t minion_id apache_instance postgres_instance m = do
  blind ← telemetry_anomalies m.telemetry minion_id
  ok (blind ++ metric_checks t minion_id m apache_instance postgres_instance)

-- `metrics` is none where the caller leaves the queries to the check
unfoldable pub check_all_metrics :
    String
    → String
    → Client
    → String
    → Option ℕ
    → CheckThresholds
    → Option String
    → Option String
    → Option Metrics
    → Result Raised (List Anomaly)
check_all_metrics instance minion_id client url max_age t apache_instance postgres_instance none =
    get_all_metrics instance client url max_age apache_instance postgres_instance
    >>= checked t minion_id apache_instance postgres_instance
check_all_metrics instance minion_id client url max_age t apache_instance postgres_instance
      (some m) =
    checked t minion_id apache_instance postgres_instance m
