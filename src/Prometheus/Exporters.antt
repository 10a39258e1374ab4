-- ===== src/Prometheus/Exporters.antt =====
-- The queries of one number (uyuni_ai_agent/prometheus_client.py), with their PromQL texts.
use Prim.Native.String.{◌++◌ as concat}
use uyuni_ai.Common.{ℕ, Option, List, [], ◌∷◌, String}
use uyuni_ai.Common.Int.{ℤ}
use uyuni_ai.Common.Json.{Raised}
use uyuni_ai.Common.Result.{Result}
use uyuni_ai.Prometheus.{Client, MetricReading}
use uyuni_ai.Prometheus.Query.{scalar_reading}

-- the parts of an f-string
abbrev pub parts : List String → String
parts [] = ""
parts (s ∷ []) = s
parts (s ∷ t ∷ rest) = concat s (parts (t ∷ rest))

-- f'instance="{instance}"'
abbrev pub on_instance : String → String
on_instance instance = parts ("instance=\"" ∷ instance ∷ "\"" ∷ [])

unfoldable pub get_target_health :
    String → String → Client → String → Option ℕ → String → Result Raised (MetricReading ℤ)
get_target_health instance exporter client url max_age health_metric =
    scalar_reading (parts (health_metric ∷ "{" ∷ on_instance instance ∷ "}" ∷ []))
      (concat exporter "_up") instance exporter client url max_age

pub get_memory_usage_percent : String → Client → String → Option ℕ → Result Raised (MetricReading ℤ)
get_memory_usage_percent instance client url max_age =
    scalar_reading
      (parts (
        "100 - (node_memory_MemAvailable_bytes{"
        ∷ on_instance instance
        ∷ "} / node_memory_MemTotal_bytes{"
        ∷ on_instance instance
        ∷ "} * 100)"
        ∷ []))
      "memory_percent" instance "node_exporter" client url max_age

unfoldable pub get_cpu_usage_percent :
    String → Client → String → Option ℕ → Result Raised (MetricReading ℤ)
get_cpu_usage_percent instance client url max_age =
    scalar_reading
      (parts (
        "100 - (avg(irate(node_cpu_seconds_total{"
        ∷ on_instance instance
        ∷ ",mode=\"idle\"}[5m])) * 100)"
        ∷ []))
      "cpu_percent" instance "node_exporter" client url max_age

-- instance="…",mountpoint="…"
abbrev mounted_at : String → String → String
mounted_at instance mountpoint =
    parts (on_instance instance ∷ ",mountpoint=\"" ∷ mountpoint ∷ "\"" ∷ [])

pub get_disk_usage_percent :
    String → Client → String → String → Option ℕ → Result Raised (MetricReading ℤ)
get_disk_usage_percent instance client url mountpoint max_age =
    scalar_reading
      (parts (
        "100 - (node_filesystem_avail_bytes{"
        ∷ mounted_at instance mountpoint
        ∷ "} / node_filesystem_size_bytes{"
        ∷ mounted_at instance mountpoint
        ∷ "} * 100)"
        ∷ []))
      (concat "filesystem_usage:" mountpoint) instance "node_exporter" client url max_age

unfoldable pub get_apache_requests_per_sec :
    String → Client → String → Option ℕ → Result Raised (MetricReading ℤ)
get_apache_requests_per_sec instance client url max_age =
    scalar_reading (parts ("rate(apache_accesses_total{" ∷ on_instance instance ∷ "}[5m])" ∷ []))
      "apache_requests_per_sec" instance "apache_exporter" client url max_age

unfoldable pub get_postgres_deadlocks_per_min :
    String → Client → String → Option ℕ → Result Raised (MetricReading ℤ)
get_postgres_deadlocks_per_min instance client url max_age =
    scalar_reading
      (parts ("sum(rate(pg_stat_database_deadlocks{" ∷ on_instance instance ∷ "}[5m])) * 60" ∷ []))
      "postgres_deadlocks_per_min" instance "postgres_exporter" client url max_age
