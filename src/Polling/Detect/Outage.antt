-- ===== src/Polling/Detect/Outage.antt =====
-- What `detect_minion` of uyuni_ai_agent/main.py makes of an outage of Prometheus.
use package.text.Mathlib.Text.{◌==◌ as str_eq}
use uyuni_ai.Common.{ℕ, ◌≡◌, true, false, Option, none, some, List, ◌++◌, ◌⊎◌}
use uyuni_ai.Common.Result.{Result, ok, err}
use uyuni_ai.Anomaly.{Anomaly}
use uyuni_ai.Prometheus.Snapshot.{Metrics}
use uyuni_ai.Detector.BlindSpots.{required_telemetry}
use uyuni_ai.Detector.BlindSpots.Cover.{Covers}
use uyuni_ai.Polling.Detect.{Minion, Timing, Snapshot}
use uyuni_ai.Resilience.Manager.{DependencyManager, ExecuteError, begin}
use uyuni_ai.Polling.Detect.Blind.{IsDark}

-- an anomaly of another metric than "disk"
abbrev NotDisk : Anomaly → Type 0
NotDisk a = str_eq a.metric_name "disk" ≡ false

-- What detection makes of an outage: an incomplete snapshot in which nothing is known, and no anomaly
-- but those of the telemetry, the services and the locks.
pub record IsOutage (minion : Minion) (service locks : List Anomaly) (s : Snapshot) : Type 0 where
  pub incomplete : s.complete ≡ false
  pub dark : IsDark s.metrics
  pub found : List Anomaly
  pub covers : Covers minion.id s.metrics.telemetry required_telemetry found
  pub anomalies : s.anomalies ≡ found ++ (service ++ locks)

-- the dependency manager, if there is one, lets the query through, and it is in time
abbrev pub Permitted : Timing → Option DependencyManager → Type 0
Permitted t none = Unit
Permitted t (some manager) =
    (t.too_slow ≡ false)
    × ((started : ℕ) × ((begin "prometheus" t.now t.started manager).1 ≡ ok started))

-- the dependency manager refuses the query, or gives it up as too slow
abbrev pub Denied : Timing → Option DependencyManager → Type 0
Denied t none = ⊥
Denied t (some manager) =
    (t.too_slow ≡ true)
    ⊎ ((e : ExecuteError) × ((begin "prometheus" t.now t.started manager).1 ≡ err e))

-- the metrics of a query that returned
Queried : Timing → Option DependencyManager → Metrics → Option Metrics → Type 0
Queried t manager m got = (Permitted t manager × (got ≡ some m)) ⊎ (Denied t manager × (got ≡ none))

-- What comes of the detection in an outage: a snapshot of the outage if the query of Prometheus is
-- permitted, and no snapshot if it is denied.
abbrev pub Detected :
    Timing
    → Option DependencyManager
    → Minion
    → List Anomaly
    → List Anomaly
    → Option Snapshot
    → Type 0
Detected t manager minion service locks got =
    (Permitted t manager × ((s : Snapshot) × (got ≡ some s) × IsOutage minion service locks s))
    ⊎ (Denied t manager × (got ≡ none))
