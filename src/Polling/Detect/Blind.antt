-- ===== src/Polling/Detect/Blind.antt =====
-- What `detect_minion` of uyuni_ai_agent/main.py makes of a Prometheus that answers no query.
use uyuni_ai.Common.{ℕ, ◌≡◌, refl, ap, ◌∙◌, false, Option, none, some, List, [], String, arith}
use uyuni_ai.Common.Lists.{any-append}
use uyuni_ai.Common.Text.{given}
use uyuni_ai.Common.Json.{Raised}
use uyuni_ai.Common.Result.{Result, ok, err, ◌>>=◌}
use uyuni_ai.Prometheus.{Request, Client, usable}
use uyuni_ai.Prometheus.Query.{
  query_prometheus, answer, scalar_reading, reading_from_first_sample, no_value,
}
use uyuni_ai.Prometheus.Exporters.{
  get_target_health, get_cpu_usage_percent, get_apache_requests_per_sec,
  get_postgres_deadlocks_per_min,
}
use uyuni_ai.Prometheus.Memory.{
  get_memory_pressure_metrics, memory_pressure_of, as_dict, usable_value,
}
use uyuni_ai.Prometheus.Filesystems.{get_filesystem_usage_percent, filesystem_result}
use uyuni_ai.Prometheus.Ratios.{
  get_apache_busy_workers_percent, get_postgres_active_connections_percent, busy_share,
  connection_share, first_failed,
}
use uyuni_ai.Prometheus.Snapshot.{
  Metrics, filesystems_dict, usable_filesystems, root_usage, node_metrics, get_node_metrics,
  with_apache, with_apache_readings, with_postgres, with_postgres_readings, get_all_metrics,
}
use uyuni_ai.Polling.Detect.{answered, prometheus_snapshot_available}

-- the client, if each of its requests raises
abbrev pub unreachable : (Request → List ℕ) → Client → Client
unreachable message client = record client { get = λ q. err (message q) }

-- nothing is known
pub record IsDark (m : Metrics) : Type 0 where
  pub no_memory : m.memory_pressure.memory_usage_percent ≡ none
  pub no_cpu : m.cpu_percent ≡ none
  pub no_filesystems : m.filesystems ≡ []
  pub no_busy : m.apache_busy_workers_percent ≡ none
  pub no_requests : m.apache_requests_per_sec ≡ none
  pub no_connections : m.postgres_active_connections_percent ≡ none
  pub no_deadlocks : m.postgres_deadlocks_per_min ≡ none
  pub unavailable : prometheus_snapshot_available m ≡ false

abbrev pub Dark : Result Raised Metrics → Type 0
Dark r = (m : Metrics) × Path (Result Raised Metrics) r (ok m) × IsDark m

module _ (instance url : String) (max_age : Option ℕ) (message : Request → List ℕ)
    (client : Client) where
  get_node_metrics-Dark : Dark (get_node_metrics instance (unreachable message client) url max_age)
  unfolding get_node_metrics get_target_health get_cpu_usage_percent get_memory_pressure_metrics
      get_filesystem_usage_percent scalar_reading query_prometheus answer reading_from_first_sample
      no_value filesystem_result memory_pressure_of as_dict filesystems_dict usable_value usable
      usable_filesystems root_usage node_metrics prometheus_snapshot_available
  get_node_metrics-Dark = (
    _,
    refl,
    record {
      no_memory = refl;
      no_cpu = refl;
      no_filesystems = refl;
      no_busy = refl;
      no_requests = refl;
      no_connections = refl;
      no_deadlocks = refl;
      unavailable = refl;
    },
  )

  with_apache-Dark :
      (o : Option String) (m : Metrics)
      → IsDark m
      → Dark (with_apache (unreachable message client) url max_age o m)
  unfolding with_apache with_apache_readings get_target_health get_apache_busy_workers_percent
      get_apache_requests_per_sec scalar_reading query_prometheus answer reading_from_first_sample
      no_value as_dict usable_value usable busy_share first_failed prometheus_snapshot_available
  with_apache-Dark none m d = (m, refl, d)
  with_apache-Dark (some target) m d = (
    _,
    refl,
    record {
      no_memory = d.no_memory;
      no_cpu = d.no_cpu;
      no_filesystems = d.no_filesystems;
      no_busy = refl;
      no_requests = refl;
      no_connections = d.no_connections;
      no_deadlocks = d.no_deadlocks;
      unavailable = any-append answered m.telemetry _ ∙ ground (arith, d.unavailable);
    },
  )

  with_postgres-Dark :
      (o : Option String) (m : Metrics)
      → IsDark m
      → Dark (with_postgres (unreachable message client) url max_age o m)
  unfolding with_postgres with_postgres_readings get_target_health
      get_postgres_active_connections_percent get_postgres_deadlocks_per_min scalar_reading
      query_prometheus answer reading_from_first_sample no_value as_dict usable_value usable
      connection_share first_failed prometheus_snapshot_available
  with_postgres-Dark none m d = (m, refl, d)
  with_postgres-Dark (some target) m d = (
    _,
    refl,
    record {
      no_memory = d.no_memory;
      no_cpu = d.no_cpu;
      no_filesystems = d.no_filesystems;
      no_busy = d.no_busy;
      no_requests = d.no_requests;
      no_connections = refl;
      no_deadlocks = refl;
      unavailable = any-append answered m.telemetry _ ∙ ground (arith, d.unavailable);
    },
  )

  bind-Dark :
      (r : Result Raised Metrics) (f : Metrics → Result Raised Metrics)
      → Dark r
      → ((m : Metrics) → IsDark m → Dark (f m))
      → Dark (r >>= f)
  bind-Dark r f (m, e, d) k = let (m', e', d') = k m d in (m', ap (λ r. r >>= f) e ∙ e', d')

  -- the snapshot of a Prometheus that answers no query
  pub get_all_metrics-Dark :
      (apache_instance postgres_instance : Option String)
      → Dark (
          get_all_metrics instance
            (unreachable message client)
            url
            max_age
            apache_instance
            postgres_instance)
  unfolding get_all_metrics
  get_all_metrics-Dark apache_instance postgres_instance =
      bind-Dark (get_node_metrics instance (unreachable message client) url max_age) _
        get_node_metrics-Dark
        (λ node d.
          bind-Dark
            (with_apache (unreachable message client) url max_age (given apache_instance) node) _
            (with_apache-Dark (given apache_instance) node d)
            (λ apache d'. with_postgres-Dark (given postgres_instance) apache d'))
