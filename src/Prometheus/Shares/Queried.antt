-- ===== src/Prometheus/Shares/Queried.antt =====
-- The shares of `get_apache_busy_workers_percent` and `get_postgres_active_connections_percent`
-- (uyuni_ai_agent/prometheus_client.py), and the queries that they come of.
use uyuni_ai.Common.{ℕ, Option, String}
use uyuni_ai.Common.Int.{ℤ}
use uyuni_ai.Common.Result.{Returns, Returns-with}
use uyuni_ai.Prometheus.{Client, MetricReading}
use uyuni_ai.Prometheus.Readings.{Reads, scalar_reading-Reads}
use uyuni_ai.Prometheus.Memory.{usable_value}
use uyuni_ai.Prometheus.Shares.{
  Reads→Sound, BusyShare, busy_share_lem, ConnectionShare, connection_share_lem,
}
use uyuni_ai.Prometheus.Ratios.{
  busy_share, connection_share, get_apache_busy_workers_percent,
  get_postgres_active_connections_percent, workers_query, backends_query, maximum_query,
}

-- two readings of their queries, and the share that comes of them
abbrev pub Comes :
    (Option ℤ → Option ℤ → MetricReading ℤ → Type 0)
    → Client
    → Option ℕ
    → String
    → String
    → MetricReading ℤ
    → Type 0
Comes P client max_age q q' r =
    (a : MetricReading ℤ) × (b : MetricReading ℤ) × Reads client q max_age a
    × Reads client q' max_age b
    × P (usable_value a) (usable_value b) r

busy-Comes :
    (instance : String) (client : Client) (max_age : Option ℕ) (busy idle : MetricReading ℤ)
    → Reads client (workers_query "busy" instance) max_age busy
    → Reads client (workers_query "idle" instance) max_age idle
    → Comes BusyShare client max_age
        (workers_query "busy" instance)
        (workers_query "idle" instance)
        (busy_share instance busy idle)
busy-Comes instance client max_age busy idle h h' = (
  busy,
  idle,
  h,
  h',
  busy_share_lem instance busy idle (Reads→Sound busy h) (Reads→Sound idle h'),
)

connections-Comes :
    (instance : String) (client : Client) (max_age : Option ℕ) (backends maximum : MetricReading ℤ)
    → Reads client (backends_query instance) max_age backends
    → Reads client (maximum_query instance) max_age maximum
    → Comes ConnectionShare client max_age
        (backends_query instance)
        (maximum_query instance)
        (connection_share instance backends maximum)
connections-Comes instance client max_age backends maximum h h' = (
  backends,
  maximum,
  h,
  h',
  connection_share_lem instance backends maximum (Reads→Sound backends h) (Reads→Sound maximum h'),
)

pub shares-Comes :
    (instance : String) (client : Client) (url : String) (max_age : Option ℕ)
    → Returns
        (Comes BusyShare client max_age
          (workers_query "busy" instance)
          (workers_query "idle" instance))
        (get_apache_busy_workers_percent instance client url max_age)
      × Returns
          (Comes ConnectionShare client max_age (backends_query instance) (maximum_query instance))
          (get_postgres_active_connections_percent instance client url max_age)
unfolding get_apache_busy_workers_percent get_postgres_active_connections_percent
shares-Comes instance client url max_age = (
  Returns-with (Reads client (workers_query "busy" instance) max_age) _ _ _
      (scalar_reading-Reads client _ _ _ _ url max_age)
      (λ busy h.
        Returns-with (Reads client (workers_query "idle" instance) max_age) _ _ _
          (scalar_reading-Reads client _ _ _ _ url max_age)
          (λ idle h'. busy-Comes instance client max_age busy idle h h')),
  Returns-with (Reads client (backends_query instance) max_age) _ _ _
      (scalar_reading-Reads client _ _ _ _ url max_age)
      (λ backends h.
        Returns-with (Reads client (maximum_query instance) max_age) _ _ _
          (scalar_reading-Reads client _ _ _ _ url max_age)
          (λ maximum h'. connections-Comes instance client max_age backends maximum h h')),
)
