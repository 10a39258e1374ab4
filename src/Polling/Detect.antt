-- ===== src/Polling/Detect.antt =====
-- `_prometheus_snapshot_available` and `detect_minion` of uyuni_ai_agent/main.py: the snapshot of one
-- minion. What Salt returns is an argument, as are the readings of the clock and whether the query of
-- Prometheus runs out of time. The log lines are left out.
pub mod Blind
pub mod Outage
use text.Mathlib.Text.{◌==◌ as str_eq}
use uyuni_ai.Common.{
  ℕ, Bool, true, false, not, ◌&&◌, Option, none, some, List, [], ◌∷◌, ◌++◌, String, if◌then◌else◌,
  on_option,
}
use uyuni_ai.Common.Lists.{any}
use uyuni_ai.Common.Text.{given, text_or_empty}
use uyuni_ai.Common.Json.{Raised}
use uyuni_ai.Common.Result.{Result, ok, err}
use uyuni_ai.Evidence.Records.{EvidenceStatus}
use uyuni_ai.Telemetry.{Observation}
use uyuni_ai.Anomaly.{Anomaly, LockPair, Value, texts}
use uyuni_ai.Prometheus.{Client}
use uyuni_ai.Prometheus.Snapshot.{Metrics, get_all_metrics}
use uyuni_ai.Detector.Context.{get, set, as_text}
use uyuni_ai.Detector.Locks.{LockThresholds}
use uyuni_ai.Detector.Checks.{CheckThresholds, check_all_metrics}
use uyuni_ai.Detector.Services.{
  Output, ServiceMonitoring, salt_telemetry_anomaly, check_failed_services,
  check_postgres_blocked_transactions,
}
use uyuni_ai.Resilience.Manager.{
  DependencyManager, Ending, timed_out, raised, returned, begin, finish,
}

-- an entry of config["minions"]
pub record Minion : Type 0 where
  pub id : String
  pub instance : String
  pub apache_instance : Option String
  pub postgres_instance : Option String

-- the configuration that detection reads
pub record Config : Type 0 where
  pub prometheus_url : String
  pub max_sample_age : Option ℕ
  pub thresholds : CheckThresholds
  pub service_monitoring : ServiceMonitoring
  pub postgres_lock_monitoring : Bool
  pub lock_thresholds : LockThresholds

-- what Salt returns for the two commands, none if the call raises; `pairs` reads an output
pub record Salt : Type 0 where
  pub failed_systemd_services : Option Output
  pub postgres_blocking_activity : Option Output
  pub pairs : Output → List LockPair

-- the readings of the clock by the dependency manager, and whether the operation is too slow
pub record Timing : Type 0 where
  pub now : ℕ
  pub started : ℕ
  pub failed_at : ℕ
  pub ended_at : ℕ
  pub seen_at : ℕ
  pub too_slow : Bool

pub record Snapshot : Type 0 where
  pub minion : Minion
  pub metrics : Metrics
  pub anomalies : List Anomaly
  pub complete : Bool

-- reading.get("status") != "error"
abbrev pub answered : Observation → Bool
answered o = elim o.status [ EvidenceStatus.error ↦ false | _ ↦ true ]

unfoldable pub prometheus_snapshot_available : Metrics → Bool
prometheus_snapshot_available metrics = any answered metrics.telemetry

-- how the query of Prometheus ended, for the manager
unfoldable pub ending_of : Bool → Result Raised Metrics → Ending
ending_of true result = timed_out
ending_of false (err e) = raised
ending_of false (ok metrics) = returned (prometheus_snapshot_available metrics)

-- the metrics, or none where the call raises
abbrev pub metrics_of : Bool → Result Raised Metrics → Option Metrics
metrics_of true result = none
metrics_of false (err e) = none
metrics_of false (ok metrics) = some metrics

-- dependency_manager.execute("prometheus", …), or the query alone where there is no manager
unfoldable pub query_metrics :
    Timing
    → Result Raised Metrics
    → Option DependencyManager
    → Option DependencyManager × Option Metrics
query_metrics t result none = (none, metrics_of false result)
query_metrics t result (some manager) =
    let (admitted, outcome) = begin "prometheus" t.now t.started manager in
    elim outcome [
      | err e ↦ (some admitted, none)
      | ok started ↦ (
        some (
            finish "prometheus" (ending_of t.too_slow result) started t.failed_at t.ended_at
              t.seen_at admitted),
        metrics_of t.too_slow result,
      )
    ]

-- an anomaly that says that Salt could not be asked
unfoldable pub is_salt_outage : Anomaly → Bool
is_salt_outage a =
    str_eq a.metric_name "telemetry_unavailable"
    && str_eq (as_text "" (get "source" a.context)) "salt"

-- the service anomalies, none if Salt raises
unfoldable pub detect_services : String → Config → Salt → Bool → Option (List Anomaly)
detect_services minion_id config salt true =
    on_option salt.failed_systemd_services none
      λ out. some (check_failed_services minion_id out config.service_monitoring)
detect_services minion_id config salt false = some (
    salt_telemetry_anomaly minion_id "salt_api_login"
      "Salt API authentication or connectivity is unavailable"
    ∷ [])

-- if postgres_instance and salt_available: …
unfoldable pub detect_locks : Minion → Config → Salt → Bool → Option (List Anomaly)
detect_locks minion config salt false = some []
detect_locks minion config salt true = on_option (given minion.postgres_instance) (some []) λ _.
    on_option salt.postgres_blocking_activity none λ out. some (
      check_postgres_blocked_transactions minion.id out salt.pairs config.postgres_lock_monitoring
        config.lock_thresholds)

-- [anomaly.service_name for anomaly in service_anomalies if anomaly.service_name]
unfoldable pub service_names : List Anomaly → List String
service_names [] = []
service_names (a ∷ rest) =
    on_option (given a.service_name) (service_names rest) λ name. name ∷ service_names rest

-- the context of the disk anomalies
unfoldable pub with_services : List String → List Anomaly → List Anomaly
with_services names [] = []
with_services names (a ∷ rest) =
    let others = with_services names rest in
    if str_eq a.metric_name "disk"
    then record a { context = set "related_unhealthy_services" (texts names) a.context } ∷ others
    else a ∷ others

unfoldable pub snapshot_from :
    Minion → Metrics → Bool → List Anomaly → List Anomaly → List Anomaly → Snapshot
snapshot_from minion metrics salt_available metric service locks = record {
  minion = minion;
  metrics = metrics;
  anomalies = with_services (service_names service) metric ++ (service ++ locks);
  complete =
      (salt_available && not (any is_salt_outage (metric ++ (service ++ locks))))
      && prometheus_snapshot_available metrics;
}

-- the checks over Salt, after the checks of the metrics
unfoldable pub with_salt :
    Minion → Config → Salt → Bool → Metrics → Result Raised (List Anomaly) → Option Snapshot
with_salt minion config salt salt_available metrics (err e) = none
with_salt minion config salt salt_available metrics (ok metric) =
    on_option (detect_services minion.id config salt salt_available) none λ service.
      on_option (detect_locks minion config salt salt_available) none
        λ locks. some (snapshot_from minion metrics salt_available metric service locks)

-- step 2, on the metrics of step 1
unfoldable pub detect_on : Minion → Client → Config → Salt → Bool → Metrics → Option Snapshot
detect_on minion client config salt salt_available metrics =
    with_salt minion config salt salt_available metrics (
      check_all_metrics minion.instance minion.id client config.prometheus_url config.max_sample_age
        config.thresholds minion.apache_instance minion.postgres_instance (some metrics))

unfoldable pub detect_minion :
    Minion
    → Client
    → Config
    → Salt
    → Bool
    → Timing
    → Option DependencyManager
    → Option DependencyManager × Option Snapshot
detect_minion minion client config salt salt_available timing manager =
    let (after, metrics) =
      query_metrics timing
        (get_all_metrics minion.instance client config.prometheus_url config.max_sample_age
          minion.apache_instance minion.postgres_instance)
        manager in
    (after, on_option metrics none (detect_on minion client config salt salt_available))
