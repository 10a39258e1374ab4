-- ===== src/Prometheus/Shares.antt =====
-- The shares of busy workers and of used connections (uyuni_ai_agent/prometheus_client.py).
pub mod Queried
use uyuni_ai.Common.{
  subst, ℕ, zero, suc, ◌+◌, ◌*◌, ◌/◌, ◌≤◌, ◌≡◌, refl, ◌⊎◌, inl, inr, Bool, true, false, Option,
  none, some, String, arith, is_some, on_option,
}
use uyuni_ai.Common.Int.{ℤ, pos, negsuc, ◌+ℤ◌, Float}
use uyuni_ai.Common.Json.{Raised}
use uyuni_ai.Common.Result.{Result, ok, err, ◌>>=◌, Returns, Returns-bind, Returns-map}
use uyuni_ai.Telemetry.{Failure, no_workers, no_maximum}
use uyuni_ai.Evidence.Records.{EvidenceStatus, is_ok}
use uyuni_ai.Prometheus.{Client, MetricReading, usable}
use uyuni_ai.Prometheus.Query.{no_value, scalar_reading}
use uyuni_ai.Prometheus.Readings.{Unavailable, Reads, scalar_reading-Reads}
use uyuni_ai.Prometheus.Memory.{usable_value}
use uyuni_ai.Prometheus.Bounds.{IsShare, share_lem, share_bound}
use uyuni_ai.Prometheus.Ratios.{
  percent_of, share, first_failed, value_of, busy_share, connection_share,
  get_apache_busy_workers_percent, get_postgres_active_connections_percent, workers_query,
  backends_query, maximum_query,
}

-- a reading without a value, or one with it
abbrev pub Sound : MetricReading ℤ → Type 0
Sound r =
    Unavailable r ⊎ ((is_ok r.status ≡ true) × (r.error ≡ none) × ((v : ℤ) × (r.value ≡ some v)))

pub Reads→Sound :
    {client : Client} {q : String} {age : Option ℕ} (r : MetricReading ℤ)
    → Reads client q age r
    → Sound r
Reads→Sound r (inl u) = inl u
Reads→Sound r (inr (s, e, m)) = inr (s, e, (m.measured, m.value))

-- the share of the busy workers, by the counts that are known
abbrev pub BusyShare : Option ℤ → Option ℤ → MetricReading ℤ → Type 0
BusyShare (some (pos busy)) (some (pos idle)) r =
    ((busy + idle ≡ 0) × Unavailable r)
    ⊎ ((p : ℕ) × (is_ok r.status ≡ true)
        × (r.value ≡ some (pos p))
        × (p ≤ 100000)
        × IsShare p busy (busy + idle))
BusyShare (some busy) (some idle) r = Sound r
BusyShare _ _ r = Unavailable r

-- the share in a sum of two counts that are not negative
share-busy :
    (at zero_at : Option Float) (why : Failure) (name target exporter : String)
    (busy idle total : ℕ)
    → total ≡ busy + idle
    → BusyShare
        (some (pos busy))
        (some (pos idle))
        (share at (pos busy) (pos total) why zero_at name target exporter)
unfolding share no_value percent_of
share-busy at zero_at why name target exporter b i zero h = inl (omega arith, (refl, refl, refl))
share-busy at zero_at why name target exporter b i (suc w) h = inr (
  _,
  refl,
  refl,
  share_bound b w (omega arith),
  subst (IsShare (b * 100000 / suc w) b) h (share_lem b w),
)

share-Sound :
    (at zero_at : Option Float) (why : Failure) (name target exporter : String) (part whole : ℤ)
    → Sound (share at part whole why zero_at name target exporter)
unfolding share no_value
share-Sound at zero_at why name target exporter part (pos (suc w)) = inr (refl, refl, (_, refl))
share-Sound at zero_at why name target exporter part (pos zero) = inl (refl, refl, refl)
share-Sound at zero_at why name target exporter part (negsuc w) = inl (refl, refl, refl)

share-BusyShare :
    (at zero_at : Option Float) (why : Failure) (name target exporter : String) (busy idle : ℤ)
    → BusyShare
        (some busy)
        (some idle)
        (share at busy (busy +ℤ idle) why zero_at name target exporter)
share-BusyShare at zero_at why name target exporter (pos b) (pos i) =
    subst
      (λ whole.
        BusyShare (some (pos b)) (some (pos i))
          (share at (pos b) whole why zero_at name target exporter))
      {x = pos (b + i)} (ground arith)
      (share-busy at zero_at why name target exporter b i (b + i) refl)
share-BusyShare at zero_at why name target exporter (pos b) (negsuc i) =
    share-Sound at zero_at why name target exporter _ _
share-BusyShare at zero_at why name target exporter (negsuc b) (pos i) =
    share-Sound at zero_at why name target exporter _ _
share-BusyShare at zero_at why name target exporter (negsuc b) (negsuc i) =
    share-Sound at zero_at why name target exporter _ _

pub busy_share_lem :
    (instance : String) (busy idle : MetricReading ℤ)
    → Sound busy
    → Sound idle
    → BusyShare (usable_value busy) (usable_value idle) (busy_share instance busy idle)
unfolding busy_share first_failed usable_value usable no_value value_of
busy_share_lem instance busy idle (inl (s, v, e)) i = ground arith
busy_share_lem instance busy idle (inr (s, e, (v, h))) (inl u) = ground arith
busy_share_lem instance busy idle (inr (s, e, (v, h))) (inr (s', e', (v', h'))) = ground (
  arith,
  share-BusyShare busy.observed_at busy.observed_at no_workers "apache_busy_workers_percent"
      instance "apache_exporter" v v',
)

-- the share of the used connections, by the counts that are known
abbrev pub ConnectionShare : Option ℤ → Option ℤ → MetricReading ℤ → Type 0
ConnectionShare (some (pos backends)) (some (pos (suc maximum))) r =
    (p : ℕ) × (is_ok r.status ≡ true) × (r.value ≡ some (pos p)) × IsShare p backends (suc maximum)
ConnectionShare (some (negsuc _)) (some (pos (suc maximum))) r = Sound r
ConnectionShare (some backends) (some maximum) r = Unavailable r
ConnectionShare _ _ r = Unavailable r

share-ConnectionShare :
    (at zero_at : Option Float) (why : Failure) (name target exporter : String)
    (backends maximum : ℤ)
    → ConnectionShare
        (some backends)
        (some maximum)
        (share at backends maximum why zero_at name target exporter)
unfolding share no_value percent_of
share-ConnectionShare at zero_at why name target exporter (pos b) (pos (suc m)) =
    (_, refl, refl, share_lem b m)
share-ConnectionShare at zero_at why name target exporter (pos b) (pos zero) = (refl, refl, refl)
share-ConnectionShare at zero_at why name target exporter (pos b) (negsuc m) = (refl, refl, refl)
share-ConnectionShare at zero_at why name target exporter (negsuc b) (pos (suc m)) =
    share-Sound at zero_at why name target exporter (negsuc b) (pos (suc m))
share-ConnectionShare at zero_at why name target exporter (negsuc b) (pos zero) = (refl, refl, refl)
share-ConnectionShare at zero_at why name target exporter (negsuc b) (negsuc m) = (refl, refl, refl)

pub connection_share_lem :
    (instance : String) (backends maximum : MetricReading ℤ)
    → Sound backends
    → Sound maximum
    → ConnectionShare
        (usable_value backends)
        (usable_value maximum)
        (connection_share instance backends maximum)
unfolding connection_share first_failed usable_value usable no_value value_of
connection_share_lem instance backends maximum (inl (s, v, e)) i = ground arith
connection_share_lem instance backends maximum (inr (s, e, (v, h))) (inl u) = ground arith
connection_share_lem instance backends maximum (inr (s, e, (v, h))) (inr (s', e', (v', h'))) =
    ground (
      arith,
      share-ConnectionShare backends.observed_at maximum.observed_at no_maximum
          "postgres_active_connections_percent" instance "postgres_exporter" v v',
    )
