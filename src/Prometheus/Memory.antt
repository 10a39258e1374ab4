-- ===== src/Prometheus/Memory.antt =====
-- `get_memory_pressure_metrics` of uyuni_ai_agent/prometheus_client.py. A quotient is rounded down to a
-- thousandth.
use uyuni_ai.Common.{
  ℕ, suc, ◌-◌, ◌*◌, ◌/◌, min, Option, none, some, List, [], ◌∷◌, String, if◌then◌else◌,
}
use uyuni_ai.Common.Int.{ℤ, pos, negsuc, ◌+ℤ◌, min_ℤ, excess}
use uyuni_ai.Common.Json.{Raised}
use uyuni_ai.Common.Result.{Result, ok, ◌>>=◌}
use uyuni_ai.Telemetry.{Observation}
use uyuni_ai.Prometheus.{Client, MetricReading, usable}
use uyuni_ai.Prometheus.Query.{scalar_reading}
use uyuni_ai.Prometheus.Exporters.{parts, on_instance}

pub record MemoryPressure : Type 0 where
  pub memory_usage_percent : Option ℕ
  pub memory_available_bytes : Option ℤ
  pub memory_total_bytes : Option ℤ
  pub swap_total_bytes : Option ℤ
  pub swap_used_bytes : Option ℕ
  pub swap_usage_percent : Option ℕ
  pub swap_in_pages_per_second : Option ℤ
  pub swap_out_pages_per_second : Option ℤ
  pub swap_activity_pages_per_second : Option ℤ
  pub system_cpu_percent : Option ℤ
  pub iowait_cpu_percent : Option ℤ
  pub telemetry : List Observation

-- reading.value if reading.usable else None
unfoldable pub usable_value : MetricReading ℤ → Option ℤ
unfolding usable
usable_value r = if usable r then r.value else none

-- reading.as_dict()
unfoldable pub as_dict : MetricReading ℤ → Observation
as_dict r = record {
  name = r.name;
  exporter = r.exporter;
  target = r.target;
  status = r.status;
  value = r.value;
  observed_at = r.observed_at;
  error = r.error;
}

-- max(0.0, min(100.0, 100.0 - (available / total * 100.0))), of a positive total
abbrev pub memory_usage : ℤ → ℤ → Option ℕ
memory_usage (pos available) (pos (suc total)) =
    some (min 100000 (100000 - available * 100000 / suc total))
memory_usage (negsuc _) (pos (suc total)) = some 100000
memory_usage _ _ = none

-- max(0.0, swap_total - min(swap_free, swap_total))
abbrev pub swap_used : ℤ → ℤ → ℕ
swap_used total free = excess total (min_ℤ free total)

abbrev pub swap_usage : ℕ → ℤ → ℕ
swap_usage used (pos (suc total)) = min 100000 (used * 100000 / suc total)
swap_usage used _ = 0

-- both values, in a calculation
abbrev pub with_both {ℓ} : {A : Type ℓ} → Option ℤ → Option ℤ → (ℤ → ℤ → Option A) → Option A
with_both (some a) (some b) f = f a b
with_both _ _ f = none

-- the values, from the readings of the eight queries
unfoldable pub memory_pressure_of :
    MetricReading ℤ
    → MetricReading ℤ
    → MetricReading ℤ
    → MetricReading ℤ
    → MetricReading ℤ
    → MetricReading ℤ
    → MetricReading ℤ
    → MetricReading ℤ
    → MemoryPressure
memory_pressure_of available total swap_total swap_free swap_in swap_out system iowait = record {
  memory_usage_percent = with_both (usable_value available) (usable_value total) memory_usage;
  memory_available_bytes = usable_value available;
  memory_total_bytes = usable_value total;
  swap_total_bytes = usable_value swap_total;
  swap_used_bytes =
      with_both (usable_value swap_total) (usable_value swap_free) λ t f. some (swap_used t f);
  swap_usage_percent =
      with_both (usable_value swap_total) (usable_value swap_free)
        λ t f. some (swap_usage (swap_used t f) t);
  swap_in_pages_per_second = usable_value swap_in;
  swap_out_pages_per_second = usable_value swap_out;
  swap_activity_pages_per_second =
      with_both (usable_value swap_in) (usable_value swap_out) λ i o. some (i +ℤ o);
  system_cpu_percent = usable_value system;
  iowait_cpu_percent = usable_value iowait;
  telemetry =
      as_dict available
      ∷ as_dict total
      ∷ as_dict swap_total
      ∷ as_dict swap_free
      ∷ as_dict swap_in
      ∷ as_dict swap_out
      ∷ as_dict system
      ∷ as_dict iowait
      ∷ [];
}

-- one entry of `specs`
abbrev pub memory_query : String → String → String → String
memory_query before after instance = parts (before ∷ on_instance instance ∷ after ∷ [])

abbrev memory_reading :
    String → String → String → String → Client → String → Option ℕ → Result Raised (MetricReading ℤ)
memory_reading name before after instance client url max_age =
    scalar_reading (memory_query before after instance) name instance "node_exporter" client url
      max_age

unfoldable pub get_memory_pressure_metrics :
    String → Client → String → Option ℕ → Result Raised MemoryPressure
get_memory_pressure_metrics instance client url max_age = do
  available ←
      memory_reading "memory_available_bytes" "node_memory_MemAvailable_bytes{" "}" instance client
        url max_age
  total ←
      memory_reading "memory_total_bytes" "node_memory_MemTotal_bytes{" "}" instance client url
        max_age
  swap_total ←
      memory_reading "swap_total_bytes" "node_memory_SwapTotal_bytes{" "}" instance client url
        max_age
  swap_free ←
      memory_reading "swap_free_bytes" "node_memory_SwapFree_bytes{" "}" instance client url max_age
  swap_in ←
      memory_reading "swap_in_pages_per_second" "rate(node_vmstat_pswpin{" "}[2m])" instance client
        url max_age
  swap_out ←
      memory_reading "swap_out_pages_per_second" "rate(node_vmstat_pswpout{" "}[2m])" instance
        client url max_age
  system ←
      memory_reading "system_cpu_percent" "avg(irate(node_cpu_seconds_total{"
        ",mode=\"system\"}[2m])) * 100" instance client url max_age
  iowait ←
      memory_reading "iowait_cpu_percent" "avg(irate(node_cpu_seconds_total{"
        ",mode=\"iowait\"}[2m])) * 100" instance client url max_age
  ok (memory_pressure_of available total swap_total swap_free swap_in swap_out system iowait)
