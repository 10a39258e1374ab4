-- ===== src/Prometheus/Ratios.antt =====
-- `get_apache_busy_workers_percent` and `get_postgres_active_connections_percent` of
-- uyuni_ai_agent/prometheus_client.py: a share of two readings. A quotient is rounded down to a
-- thousandth.
use uyuni_ai.Common.{
  ℕ, suc, ◌+◌, ◌-◌, ◌*◌, ◌/◌, not, Option, none, some, [], ◌∷◌, String, if◌then◌else◌, on_option,
}
use uyuni_ai.Common.Int.{ℤ, pos, negsuc, ◌+ℤ◌, Float}
use uyuni_ai.Common.Json.{Raised}
use uyuni_ai.Common.Result.{Result, ok, ◌>>=◌}
use uyuni_ai.Telemetry.{Failure, no_workers, no_maximum}
use uyuni_ai.Evidence.Records.{EvidenceStatus}
use uyuni_ai.Prometheus.{Client, MetricReading, usable}
use uyuni_ai.Prometheus.Query.{scalar_reading, no_value}
use uyuni_ai.Prometheus.Exporters.{parts, on_instance}

-- part / (whole + 1) * 100.0, in thousandths
unfoldable pub percent_of : ℤ → ℕ → ℤ
percent_of (pos a) whole = pos (a * 100000 / suc whole)
percent_of (negsuc a) whole = negsuc ((suc a * 100000 + whole) / suc whole - 1)

-- the share in a positive whole
unfoldable pub share :
    Option Float → ℤ → ℤ → Failure → Option Float → String → String → String → MetricReading ℤ
share at part (pos (suc whole)) zero_error zero_at name target exporter = record {
  name = name;
  target = target;
  exporter = exporter;
  status = EvidenceStatus.ok;
  value = some (percent_of part whole);
  observed_at = at;
  error = none;
}
share at part _ zero_error zero_at name target exporter =
    no_value EvidenceStatus.error zero_at (some zero_error) name target exporter

-- next((reading for reading in (a, b) if not reading.usable), None)
unfoldable pub first_failed : MetricReading ℤ → MetricReading ℤ → Option (MetricReading ℤ)
unfolding usable
first_failed a b = if not (usable a) then some a else if not (usable b) then some b else none

-- reading.value of a usable reading
unfoldable pub value_of : MetricReading ℤ → ℤ
value_of r = on_option r.value (pos 0) (λ v. v)

abbrev pub workers_query : String → String → String
workers_query state instance =
    parts ("apache_workers{" ∷ on_instance instance ∷ ",state=\"" ∷ state ∷ "\"}" ∷ [])

abbrev pub backends_query : String → String
backends_query instance =
    parts ("sum(pg_stat_database_numbackends{" ∷ on_instance instance ∷ "})" ∷ [])

abbrev pub maximum_query : String → String
maximum_query instance = parts ("pg_settings_max_connections{" ∷ on_instance instance ∷ "}" ∷ [])

unfoldable pub busy_share : String → MetricReading ℤ → MetricReading ℤ → MetricReading ℤ
busy_share instance busy idle =
    on_option (first_failed busy idle)
      (share busy.observed_at (value_of busy) (value_of busy +ℤ value_of idle) no_workers
        busy.observed_at "apache_busy_workers_percent" instance "apache_exporter")
      (λ f.
        no_value f.status f.observed_at f.error "apache_busy_workers_percent" instance
          "apache_exporter")

unfoldable pub get_apache_busy_workers_percent :
    String → Client → String → Option ℕ → Result Raised (MetricReading ℤ)
get_apache_busy_workers_percent instance client url max_age = do
  busy ←
      scalar_reading (workers_query "busy" instance) "apache_busy_workers" instance
        "apache_exporter" client url max_age
  idle ←
      scalar_reading (workers_query "idle" instance) "apache_idle_workers" instance
        "apache_exporter" client url max_age
  ok (busy_share instance busy idle)

unfoldable pub connection_share : String → MetricReading ℤ → MetricReading ℤ → MetricReading ℤ
connection_share instance backends maximum =
    on_option (first_failed backends maximum)
      (share backends.observed_at (value_of backends) (value_of maximum) no_maximum
        maximum.observed_at "postgres_active_connections_percent" instance "postgres_exporter")
      (λ f.
        no_value f.status f.observed_at f.error "postgres_active_connections_percent" instance
          "postgres_exporter")

unfoldable pub get_postgres_active_connections_percent :
    String → Client → String → Option ℕ → Result Raised (MetricReading ℤ)
get_postgres_active_connections_percent instance client url max_age = do
  backends ←
      scalar_reading (backends_query instance) "postgres_connections" instance "postgres_exporter"
        client url max_age
  maximum ←
      scalar_reading (maximum_query instance) "postgres_max_connections" instance
        "postgres_exporter" client url max_age
  ok (connection_share instance backends maximum)
