-- ===== src/Detector/Thresholds.antt =====
-- `_check_threshold` and `filesystem_anomalies` of uyuni_ai_agent/anomaly_detector.py. A threshold
-- that is not configured is infinite.
use Prim.Native.String.{◌++◌ as concat}
use uyuni_ai.Common.{
  ℕ, ◌≤◌, ◌≡◌, Bool, false, Option, none, some, List, [], ◌∷◌, String, arith, leb, if◌then◌else◌,
  on_option,
}
use uyuni_ai.Anomaly.{Anomaly, AlertSeverity, info, warning, critical, label_at, text}
use uyuni_ai.Detector.Context.{update}

pub record Thresholds : Type 0 where
  pub warning : Option ℕ
  pub critical : Option ℕ

-- value >= thresholds.get(…, float("inf"))
abbrev pub reaches : ℕ → Option ℕ → Bool
reaches value none = false
reaches value (some t) = leb t value

-- one of the two anomalies of `_check_threshold`
abbrev pub crossing : String → String → String → ℕ → ℕ → AlertSeverity → Anomaly
crossing minion_id metric_name label value threshold severity = record {
  minion_id = minion_id;
  metric_name = metric_name;
  current_value = value;
  threshold = threshold;
  severity = severity;
  description = label_at label value;
  service_name = none;
  resource = none;
  context = [];
}

-- `crossing`, if the value reaches the limit
unfoldable pub at_limit :
    String → String → String → ℕ → Option ℕ → AlertSeverity → Option Anomaly → Option Anomaly
at_limit minion_id metric_name label value limit severity otherwise = on_option limit otherwise λ t.
    if leb t value then some (crossing minion_id metric_name label value t severity) else otherwise

unfoldable pub check_threshold : Option ℕ → Thresholds → String → String → String → Option Anomaly
check_threshold none thresholds minion_id metric_name label = none
check_threshold (some value) thresholds minion_id metric_name label =
    at_limit minion_id metric_name label value thresholds.critical critical
      (at_limit minion_id metric_name label value thresholds.warning warning none)

-- one sample of a mounted filesystem
pub record Filesystem : Type 0 where
  pub mountpoint : String
  pub device : String
  pub fstype : String
  pub usage_percent : Option ℕ

abbrev mounted : Filesystem → Anomaly → Anomaly
mounted fs a = record a {
  resource = some fs.mountpoint;
  context =
      update
        (("mountpoint", text fs.mountpoint)
          ∷ ("device", text fs.device)
          ∷ ("fstype", text fs.fstype)
          ∷ [])
        a.context;
}

unfoldable pub filesystem_anomalies : List Filesystem → Thresholds → String → List Anomaly
filesystem_anomalies [] thresholds minion_id = []
filesystem_anomalies (fs ∷ rest) thresholds minion_id =
    let others = filesystem_anomalies rest thresholds minion_id in
    on_option
      (check_threshold fs.usage_percent thresholds minion_id "disk"
        (concat "Filesystem " (concat fs.mountpoint " usage")))
      others (λ a. mounted fs a ∷ others)

-- how grave a result is: 0 if there is none
abbrev pub gravity : Option Anomaly → ℕ
gravity none = 0
gravity (some a) = elim a.severity [ info ↦ 1 | warning ↦ 2 | critical ↦ 3 ]

-- the gravity that a value has by its two limits
abbrev pub expected : ℕ → Thresholds → ℕ
expected value t = if reaches value t.critical then 3 else if reaches value t.warning then 2 else 0

gravity-check :
    (v : ℕ) (t : Thresholds) (m n l : String)
    → gravity (check_threshold (some v) t m n l) ≡ expected v t
unfolding check_threshold at_limit
gravity-check v t m n l = ground arith

-- A check never loses severity when the value grows, and its anomaly, where there is one, has the
-- value and a threshold of the configuration that the value reaches.
pub check_monotone :
    (low high : ℕ) (thresholds : Thresholds) (minion_id metric_name label : String)
    → low ≤ high
    → (gravity (check_threshold (some low) thresholds minion_id metric_name label)
        ≤ gravity (check_threshold (some high) thresholds minion_id metric_name label))
      × on_option
          (check_threshold (some high) thresholds minion_id metric_name label)
          (expected high thresholds ≡ 0)
          (λ a. (a.current_value ≡ high) × (a.threshold ≤ high))
unfolding check_threshold at_limit
check_monotone low high t m n l h = (ground arith, ground arith)
