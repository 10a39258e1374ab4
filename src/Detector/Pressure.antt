-- ===== src/Detector/Pressure.antt =====
-- `memory_pressure_anomaly` of uyuni_ai_agent/anomaly_detector.py. A value is a whole number of
-- thousandths; a threshold that is not configured is infinite, or the default of the code.
use package.text.Mathlib.Text.{◌==◌ as str_eq}
use uyuni_ai.Common.{
  ℕ, ◌≤◌, ◌≡◌, Bool, true, false, ◌&&◌, ◌||◌, Option, none, some, List, [], ◌∷◌, String, arith, ltb,
  leb, if◌then◌else◌, on_option,
}
use uyuni_ai.Anomaly.{Anomaly, warning, critical, memory_usage, Value, absent, number, flag}
use uyuni_ai.Detector.Context.{set}
use uyuni_ai.Detector.Thresholds.{reaches}

-- the thresholds of the check; `critical` is the usage from which it is critical
pub record PressureThresholds : Type 0 where
  pub warning : Option ℕ
  pub critical : Option ℕ
  pub activity_warning : Option ℕ
  pub activity_critical : Option ℕ
  pub swap_usage_critical : Option ℕ

-- memory_metrics.get(key): none if the key is missing or its value is None
unfoldable pub reading : String → List (String × Option ℕ) → Option ℕ
reading key [] = none
reading key ((k, v) ∷ rest) = if str_eq k key then v else reading key rest

abbrev pub or_default : ℕ → Option ℕ → ℕ
or_default d none = d
or_default d (some v) = v

pub activity : List (String × Option ℕ) → ℕ
activity metrics = or_default 0 (reading "swap_activity_pages_per_second" metrics)

pub active_swapping : List (String × Option ℕ) → PressureThresholds → Bool
active_swapping metrics t = leb (or_default 1000 t.activity_warning) (activity metrics)

pub is_critical : ℕ → List (String × Option ℕ) → PressureThresholds → Bool
is_critical usage metrics t =
    reaches usage t.critical
    || (active_swapping metrics t && leb (or_default 100000 t.activity_critical) (activity metrics)
        || active_swapping metrics t
          && leb (or_default 25000 t.swap_usage_critical)
              (or_default 0 (reading "swap_usage_percent" metrics)))

abbrev pub as_context : List (String × Option ℕ) → List (String × Value)
as_context [] = []
as_context ((k, none) ∷ rest) = (k, absent) ∷ as_context rest
as_context ((k, some v) ∷ rest) = (k, number v) ∷ as_context rest

-- the anomaly of a usage that reaches the warning threshold
pub pressure : ℕ → ℕ → List (String × Option ℕ) → PressureThresholds → String → Anomaly
pressure usage warning_at metrics t minion_id = record {
  minion_id = minion_id;
  metric_name = "memory_pressure";
  current_value = usage;
  threshold =
      if is_critical usage metrics t && reaches usage t.critical
      then or_default warning_at t.critical
      else warning_at;
  severity = if is_critical usage metrics t then critical else warning;
  description =
      memory_usage usage (if active_swapping metrics t then some (activity metrics) else none);
  service_name = none;
  resource = some "host-memory";
  context = set "active_swapping" (flag (active_swapping metrics t)) (as_context metrics);
}

unfoldable pub memory_pressure_anomaly :
    List (String × Option ℕ) → PressureThresholds → String → Option Anomaly
memory_pressure_anomaly metrics t minion_id =
    on_option (reading "memory_usage_percent" metrics) none λ usage.
      on_option t.warning none λ warning_at.
        if ltb usage warning_at then none else some (pressure usage warning_at metrics t minion_id)

-- There is an anomaly exactly if the memory usage is known and reaches a configured warning
-- threshold. Its threshold is one that the usage reaches, and without active swapping it is
-- critical exactly if the usage reaches the critical threshold: retained swap alone never raises
-- the severity.
pub pressure_judges :
    (metrics : List (String × Option ℕ)) (t : PressureThresholds) (minion_id : String)
    → on_option
        (memory_pressure_anomaly metrics t minion_id)
        (on_option (reading "memory_usage_percent" metrics) false (λ u. reaches u t.warning)
          ≡ false)
        (λ a.
          (reading "memory_usage_percent" metrics ≡ some a.current_value)
          × (reaches a.current_value t.warning ≡ true)
          × (a.threshold ≤ a.current_value)
          × (a.severity ≡ (
              if reaches a.current_value t.critical
              then critical
              else if active_swapping metrics t
                  && (leb (or_default 100000 t.activity_critical) (activity metrics)
                      || leb
                          (or_default 25000 t.swap_usage_critical)
                          (or_default 0 (reading "swap_usage_percent" metrics)))
              then critical
              else warning)))
unfolding memory_pressure_anomaly pressure is_critical
pressure_judges metrics t minion_id = ground arith
