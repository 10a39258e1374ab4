-- ===== src/Detector/Tests.antt =====
-- Runs of the detector (anomaly_detector.py). No character above ASCII counts as a letter here.
use uyuni_ai.Common.{
  ℕ, ◌≤◌, ◌≡◌, refl, ◌⊎◌, inl, Bool, true, false, Option, none, some, List, [], ◌∷◌, String, arith,
}
use uyuni_ai.Common.Regex.{search}
use uyuni_ai.Anomaly.{
  Anomaly, critical, label_at, database_blocked, number, pairs, LockPair, identity_key,
}
use uyuni_ai.Detector.Context.{get, as_number, as_pairs}
use uyuni_ai.Detector.Thresholds.{Thresholds}
use uyuni_ai.Detector.Pressure.{PressureThresholds}
use uyuni_ai.Detector.Correlation.{
  Edge, correlate_dependency_anomalies, candidates, selected_pair, first_partner, linked,
  configured_edge, is_apache_candidate, is_postgres_candidate, hints, web_application_hint,
}
use uyuni_ai.Common.Lists.{All}
use uyuni_ai.Detector.Locks.{LockThresholds, warning_at, postgres_blocking_anomalies}
use uyuni_ai.Detector.Locks.Report.{IsReported, Judged, postgres_blocking_anomalies-Reported}
use uyuni_ai.Detector.Correlation.Splice.{NoPair, Collapses, correlate-Answers}
use uyuni_ai.Detector.Window.{
  DependencyCorrelationWindow, correlate, candidate_keys, is_cross_minion_candidate, edge_wants,
  delays, has_key, same_key, has_chain,
}
use uyuni_ai.Detector.Window.Grace.{In}
use uyuni_ai.Detector.Window.Release.{
  has_both, may_hold, Conserves, correlate-Conserves, grace_bounds_holding,
}

abbrev ascii : ℕ → Bool
ascii c = false

abbrev limits : Thresholds
limits = record { warning = some 80000; critical = some 95000 }

abbrev pressure_limits : PressureThresholds
pressure_limits = record {
  warning = some 90000;
  critical = some 95000;
  activity_warning = none;
  activity_critical = none;
  swap_usage_critical = none;
}

abbrev memory : List (String × Option ℕ)
memory =
    ("memory_usage_percent", some 91000)
    ∷ ("swap_activity_pages_per_second", some 0)
    ∷ ("swap_usage_percent", some 80000)
    ∷ []

abbrev busy_apache : Anomaly
busy_apache = record {
  minion_id = "web1";
  metric_name = "apache_busy_workers";
  current_value = 98000;
  threshold = 95000;
  severity = critical;
  description = label_at "Apache busy workers" 98000;
  service_name = some "apache2";
  resource = some "apache:workers";
  context = ("requests_per_second", number 20000) ∷ [];
}

abbrev lock_pair : LockPair
lock_pair = record {
  database = "shop";
  blocked_pid = 10;
  blocker_pid = 11;
  blocked_seconds = 40;
  blocked_application = "backend";
}

abbrev blocked_postgres : Anomaly
blocked_postgres = record {
  minion_id = "db1";
  metric_name = "postgres_blocked_transaction";
  current_value = 40;
  threshold = 30;
  severity = critical;
  description = database_blocked "shop" 1 40;
  service_name = some "postgresql";
  resource = some "postgresql:shop";
  context = ("blocked_pairs", pairs (lock_pair ∷ [])) ∷ [];
}

abbrev edges : List (Option Edge)
edges = some (record { apache_minion = some "web1"; postgres_minion = some "db1" }) ∷ none ∷ []

correlate-Answers_example :
    (NoPair ascii edges 500000 (blocked_postgres ∷ busy_apache ∷ [])
      × (correlate_dependency_anomalies ascii (blocked_postgres ∷ busy_apache ∷ []) edges 500000
          ≡ blocked_postgres ∷ busy_apache ∷ []))
    ⊎ Collapses ascii edges 500000
        (blocked_postgres ∷ busy_apache ∷ [])
        (correlate_dependency_anomalies ascii (blocked_postgres ∷ busy_apache ∷ []) edges 500000)
correlate-Answers_example =
    correlate-Answers ascii (blocked_postgres ∷ busy_apache ∷ []) edges 500000

abbrev window : DependencyCorrelationWindow
window = record {
  grace_seconds = 90;
  apache_traffic_threshold = 500000;
  first_seen = [];
  last_held_count = 0;
}

correlate-Conserves_example :
    let (w', out) = correlate ascii (busy_apache ∷ []) edges 1000 window in
    Conserves ascii
      (busy_apache ∷ [])
      edges
      window
      w'
      out
      (has_both ascii (busy_apache ∷ []) edges window)
correlate-Conserves_example = correlate-Conserves ascii (busy_apache ∷ []) edges 1000 window

one_side : has_both ascii (busy_apache ∷ []) edges window ≡ false
unfolding correlate_dependency_anomalies candidates selected_pair first_partner linked
    configured_edge is_apache_candidate is_postgres_candidate hints web_application_hint get
    as_number as_pairs has_chain search
one_side = refl

held_at_first : may_hold ascii (busy_apache ∷ []) edges window busy_apache ≡ true
unfolding candidate_keys is_cross_minion_candidate edge_wants delays has_key same_key
    is_apache_candidate is_postgres_candidate hints web_application_hint get as_number as_pairs
    search identity_key
held_at_first = refl

grace_bounds_holding_example :
    In busy_apache
      (correlate ascii
        (busy_apache ∷ [])
        edges
        1090
        (correlate ascii (busy_apache ∷ []) edges 1000 window).0).1
grace_bounds_holding_example =
    grace_bounds_holding ascii (busy_apache ∷ []) (busy_apache ∷ []) edges edges 1000 1090 window
      busy_apache busy_apache tt one_side one_side (inl refl) held_at_first (inl refl) refl
      (omega arith)

abbrev lock_limits : LockThresholds
lock_limits = record { warning = none; critical = none }

long_enough : warning_at lock_limits ≤ 40
unfolding warning_at
long_enough = omega arith

postgres_blocking_anomalies-Reported_example :
    All
      (IsReported lock_limits (postgres_blocking_anomalies (lock_pair ∷ []) lock_limits "db1"))
      (lock_pair ∷ [])
    × All (Judged lock_limits) (postgres_blocking_anomalies (lock_pair ∷ []) lock_limits "db1")
postgres_blocking_anomalies-Reported_example =
    postgres_blocking_anomalies-Reported (lock_pair ∷ []) lock_limits "db1"
