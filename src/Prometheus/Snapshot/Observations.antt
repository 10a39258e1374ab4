-- ===== src/Prometheus/Snapshot/Observations.antt =====
-- Every observation of a snapshot that is ok has its value (`get_all_metrics` of
-- uyuni_ai_agent/prometheus_client.py).
use uyuni_ai.Common.{ℕ, inl, Option, none, some, List, String}
use uyuni_ai.Common.Lists.{All, All-append}
use uyuni_ai.Common.Text.{given}
use uyuni_ai.Common.Int.{ℤ}
use uyuni_ai.Common.Json.{Raised}
use uyuni_ai.Common.Result.{Result, ◌>>=◌, Returns, Returns-with}
use uyuni_ai.Detector.Thresholds.{Filesystem}
use uyuni_ai.Prometheus.{Client, MetricReading}
use uyuni_ai.Prometheus.Exporters.{
  get_target_health, get_cpu_usage_percent, get_apache_requests_per_sec,
  get_postgres_deadlocks_per_min,
}
use uyuni_ai.Prometheus.Memory.{MemoryPressure}
use uyuni_ai.Prometheus.Snapshot.{
  Metrics, filesystems_dict, node_metrics, get_node_metrics, with_apache, with_apache_readings,
  with_postgres, with_postgres_readings, get_all_metrics,
}
use uyuni_ai.Prometheus.Snapshot.Valued.{
  Valued, Kept, MemoryValued, Filed, as_dict-Valued, scalar-Kept, busy-Kept, connections-Kept,
  filesystems-Filed, memory-Valued,
}

abbrev pub MetricsValued : Metrics → Type 0
MetricsValued m = All Valued m.telemetry

node_metrics-Valued :
    (up : MetricReading ℤ) (found : MetricReading (List Filesystem)) (memory : MemoryPressure)
    (cpu : MetricReading ℤ)
    → Kept up
    → Filed found
    → MemoryValued memory
    → Kept cpu
    → MetricsValued (node_metrics up found memory cpu)
unfolding node_metrics filesystems_dict
node_metrics-Valued up found memory cpu ku kf km kc = (
  as_dict-Valued up ku,
  (inl kf, All-append Valued memory.telemetry _ km (as_dict-Valued cpu kc, tt)),
)

-- the next reading of a snapshot
next_reading :
    (r : Result Raised (MetricReading ℤ)) (f : MetricReading ℤ → Result Raised Metrics)
    → Returns Kept r
    → ((a : MetricReading ℤ) → Kept a → Returns MetricsValued (f a))
    → Returns MetricsValued (r >>= f)
next_reading r f = Returns-with Kept MetricsValued r f

next_listing :
    (r : Result Raised (MetricReading (List Filesystem)))
    (f : MetricReading (List Filesystem) → Result Raised Metrics)
    → Returns Filed r
    → ((a : MetricReading (List Filesystem)) → Filed a → Returns MetricsValued (f a))
    → Returns MetricsValued (r >>= f)
next_listing r f = Returns-with Filed MetricsValued r f

next_memory :
    (r : Result Raised MemoryPressure) (f : MemoryPressure → Result Raised Metrics)
    → Returns MemoryValued r
    → ((a : MemoryPressure) → MemoryValued a → Returns MetricsValued (f a))
    → Returns MetricsValued (r >>= f)
next_memory r f = Returns-with MemoryValued MetricsValued r f

node-Valued :
    (instance : String) (client : Client) (url : String) (max_age : Option ℕ)
    → Returns MetricsValued (get_node_metrics instance client url max_age)
unfolding get_node_metrics get_target_health get_cpu_usage_percent
node-Valued instance client url max_age =
    search
      (
        next_reading, next_listing, next_memory, scalar-Kept, filesystems-Filed, memory-Valued,
        node_metrics-Valued,
      )
      depth 12

with_apache_readings-Valued :
    (m : Metrics) (up busy rps : MetricReading ℤ)
    → MetricsValued m
    → Kept up
    → Kept busy
    → Kept rps
    → MetricsValued (with_apache_readings m up busy rps)
unfolding with_apache_readings
with_apache_readings-Valued m up busy rps v ku kb kr =
    All-append Valued m.telemetry _ v
      (as_dict-Valued up ku, (as_dict-Valued busy kb, (as_dict-Valued rps kr, tt)))

with_postgres_readings-Valued :
    (m : Metrics) (up connections deadlocks : MetricReading ℤ)
    → MetricsValued m
    → Kept up
    → Kept connections
    → Kept deadlocks
    → MetricsValued (with_postgres_readings m up connections deadlocks)
unfolding with_postgres_readings
with_postgres_readings-Valued m up connections deadlocks v ku kc kd =
    All-append Valued m.telemetry _ v
      (as_dict-Valued up ku, (as_dict-Valued connections kc, (as_dict-Valued deadlocks kd, tt)))

apache-Valued :
    (client : Client) (url : String) (max_age : Option ℕ) (o : Option String) (m : Metrics)
    → MetricsValued m
    → Returns MetricsValued (with_apache client url max_age o m)
unfolding with_apache get_target_health get_apache_requests_per_sec
apache-Valued client url max_age none m v = v
apache-Valued client url max_age (some instance) m v =
    search (next_reading, scalar-Kept, busy-Kept, with_apache_readings-Valued) depth 12

postgres-Valued :
    (client : Client) (url : String) (max_age : Option ℕ) (o : Option String) (m : Metrics)
    → MetricsValued m
    → Returns MetricsValued (with_postgres client url max_age o m)
unfolding with_postgres get_target_health get_postgres_deadlocks_per_min
postgres-Valued client url max_age none m v = v
postgres-Valued client url max_age (some instance) m v =
    search (next_reading, scalar-Kept, connections-Kept, with_postgres_readings-Valued) depth 12

-- an observation of a snapshot that is ok has its value, a listing of filesystems aside
pub snapshot-Valued :
    (instance : String) (client : Client) (url : String) (max_age : Option ℕ)
    (apache_instance postgres_instance : Option String)
    → Returns MetricsValued
        (get_all_metrics instance client url max_age apache_instance postgres_instance)
unfolding get_all_metrics
snapshot-Valued instance client url max_age apache_instance postgres_instance =
    Returns-with MetricsValued MetricsValued (get_node_metrics instance client url max_age) _
      (node-Valued instance client url max_age)
      (λ node v.
        Returns-with MetricsValued MetricsValued
          (with_apache client url max_age (given apache_instance) node) _
          (apache-Valued client url max_age (given apache_instance) node v)
          (λ apache w. postgres-Valued client url max_age (given postgres_instance) apache w))
