-- ===== src/Prometheus/Snapshot/Valued.antt =====
-- The observations of a snapshot (`get_all_metrics` of uyuni_ai_agent/prometheus_client.py).
use uyuni_ai.Common.{
  ℕ, zero, suc, ◌≡◌, refl, ◌⊎◌, inl, inr, true, false, not, Option, none, some, List, [], ◌∷◌,
  String, arith, if_cases, is_some,
}
use uyuni_ai.Common.Lists.{All}
use uyuni_ai.Common.Int.{ℤ, pos, negsuc, Float}
use uyuni_ai.Common.Json.{Raised}
use uyuni_ai.Common.Result.{Result, ◌>>=◌, Returns, Returns-bind, Returns-with, Returns-map}
use uyuni_ai.Evidence.Records.{is_ok}
use uyuni_ai.Telemetry.{Observation}
use uyuni_ai.Detector.Thresholds.{Filesystem}
use uyuni_ai.Prometheus.{Client, PrometheusQueryResult, MetricReading}
use uyuni_ai.Prometheus.Query.{query_prometheus, scalar_reading, no_value}
use uyuni_ai.Prometheus.Readings.{Reads, scalar_reading-Reads}
use uyuni_ai.Prometheus.Memory.{
  MemoryPressure, get_memory_pressure_metrics, memory_pressure_of, as_dict, usable_value,
}
use uyuni_ai.Prometheus.Filesystems.{
  get_filesystem_usage_percent, filesystem_result, filesystem_reading, filesystems_of,
}
use uyuni_ai.Prometheus.Ratios.{
  get_apache_busy_workers_percent, get_postgres_active_connections_percent,
}
use uyuni_ai.Prometheus.Shares.{Sound, Reads→Sound, BusyShare, ConnectionShare}
use uyuni_ai.Prometheus.Shares.Queried.{shares-Comes}

-- an observation of a number has one if it is ok
abbrev pub Valued : Observation → Type 0
Valued o = (o.name ≡ "filesystems") ⊎ (is_ok o.status ≡ false) ⊎ (is_some o.value ≡ true)

-- a reading of a number that is ok has one
abbrev pub Kept : MetricReading ℤ → Type 0
Kept r = (is_ok r.status ≡ false) ⊎ (is_some r.value ≡ true)

pub as_dict-Valued : (r : MetricReading ℤ) → Kept r → Valued (as_dict r)
unfolding as_dict
as_dict-Valued r k = inr k

Sound→Kept : (r : MetricReading ℤ) → Sound r → Kept r
Sound→Kept r (inl (s, _, _)) = inl s
Sound→Kept r (inr (_, _, (v, h))) = inr (ground arith)

pub scalar-Kept :
    (client : Client) (q name target exporter url : String) (max_age : Option ℕ)
    → Returns Kept (scalar_reading q name target exporter client url max_age)
scalar-Kept client q name target exporter url max_age =
    Returns-map (Reads client q max_age) Kept _ (λ r h. Sound→Kept r (Reads→Sound r h))
      (scalar_reading-Reads client q name target exporter url max_age)

BusyShare→Kept : (a b : Option ℤ) (r : MetricReading ℤ) → BusyShare a b r → Kept r
BusyShare→Kept (some (pos a)) (some (pos b)) r (inl (_, (s, _, _))) = inl s
BusyShare→Kept (some (pos a)) (some (pos b)) r (inr (p, s, v, _, _)) = inr (ground arith)
BusyShare→Kept (some (pos a)) (some (negsuc b)) r h = Sound→Kept r h
BusyShare→Kept (some (negsuc a)) (some b) r h = Sound→Kept r h
BusyShare→Kept none b r (s, _, _) = inl s
BusyShare→Kept (some (pos a)) none r (s, _, _) = inl s
BusyShare→Kept (some (negsuc a)) none r (s, _, _) = inl s

ConnectionShare→Kept : (a b : Option ℤ) (r : MetricReading ℤ) → ConnectionShare a b r → Kept r
ConnectionShare→Kept (some (pos a)) (some (pos (suc b))) r (p, s, v, _) = inr (ground arith)
ConnectionShare→Kept (some (pos a)) (some (pos zero)) r (s, _, _) = inl s
ConnectionShare→Kept (some (pos a)) (some (negsuc b)) r (s, _, _) = inl s
ConnectionShare→Kept (some (negsuc a)) (some (pos (suc b))) r h = Sound→Kept r h
ConnectionShare→Kept (some (negsuc a)) (some (pos zero)) r (s, _, _) = inl s
ConnectionShare→Kept (some (negsuc a)) (some (negsuc b)) r (s, _, _) = inl s
ConnectionShare→Kept none b r (s, _, _) = inl s
ConnectionShare→Kept (some (pos a)) none r (s, _, _) = inl s
ConnectionShare→Kept (some (negsuc a)) none r (s, _, _) = inl s

pub busy-Kept :
    (instance : String) (client : Client) (url : String) (max_age : Option ℕ)
    → Returns Kept (get_apache_busy_workers_percent instance client url max_age)
busy-Kept instance client url max_age =
    Returns-map _ Kept _ (λ r (a, b, _, _, h). BusyShare→Kept (usable_value a) (usable_value b) r h)
      (shares-Comes instance client url max_age).0

pub connections-Kept :
    (instance : String) (client : Client) (url : String) (max_age : Option ℕ)
    → Returns Kept (get_postgres_active_connections_percent instance client url max_age)
connections-Kept instance client url max_age =
    Returns-map _ Kept _
      (λ r (a, b, _, _, h). ConnectionShare→Kept (usable_value a) (usable_value b) r h)
      (shares-Comes instance client url max_age).1

abbrev pub Filed : MetricReading (List Filesystem) → Type 0
Filed r = r.name ≡ "filesystems"

filesystem_reading-Filed :
    (at : Option Float) (instance : String) (found : List Filesystem × ℕ)
    → Filed (filesystem_reading at instance found)
unfolding filesystem_reading no_value
filesystem_reading-Filed at instance ([], n) = refl
filesystem_reading-Filed at instance (fs ∷ rest, n) = refl

filesystem_result-Filed :
    (client : Client) (instance : String) (result : PrometheusQueryResult)
    → Returns Filed (filesystem_result client instance result)
unfolding filesystem_result no_value
filesystem_result-Filed client instance result =
    if_cases (λ (r : Result Raised (MetricReading (List Filesystem))). Returns Filed r)
      (not (is_ok result.status)) (λ _. refl)
      (λ _.
        Returns-bind Filed (filesystems_of client result.samples) _
          (λ found _. filesystem_reading-Filed result.observed_at instance found))

pub filesystems-Filed :
    (instance : String) (client : Client) (url : String) (max_age : Option ℕ)
    → Returns Filed (get_filesystem_usage_percent instance client url max_age)
unfolding get_filesystem_usage_percent
filesystems-Filed instance client url max_age =
    Returns-bind Filed (query_prometheus _ client url max_age) _
      (λ result _. filesystem_result-Filed client instance result)

abbrev pub MemoryValued : MemoryPressure → Type 0
MemoryValued m = All Valued m.telemetry

memory_pressure-Valued :
    (a b c d e f g h : MetricReading ℤ)
    → Kept a
    → Kept b
    → Kept c
    → Kept d
    → Kept e
    → Kept f
    → Kept g
    → Kept h
    → MemoryValued (memory_pressure_of a b c d e f g h)
unfolding memory_pressure_of as_dict
memory_pressure-Valued a b c d e f g h ka kb kc kd ke kf kg kh =
    (inr ka, (inr kb, (inr kc, (inr kd, (inr ke, (inr kf, (inr kg, (inr kh, tt))))))))

next_reading :
    (r : Result Raised (MetricReading ℤ)) (f : MetricReading ℤ → Result Raised MemoryPressure)
    → Returns Kept r
    → ((a : MetricReading ℤ) → Kept a → Returns MemoryValued (f a))
    → Returns MemoryValued (r >>= f)
next_reading r f = Returns-with Kept MemoryValued r f

pub memory-Valued :
    (instance : String) (client : Client) (url : String) (max_age : Option ℕ)
    → Returns MemoryValued (get_memory_pressure_metrics instance client url max_age)
unfolding get_memory_pressure_metrics
memory-Valued instance client url max_age =
    search (next_reading, scalar-Kept, memory_pressure-Valued) depth 20
