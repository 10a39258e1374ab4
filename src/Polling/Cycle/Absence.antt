-- ===== src/Polling/Cycle/Absence.antt =====
-- A cycle in an outage of Prometheus and the open incidents: `execute_poll_cycle` and
-- `process_minion_anomalies` of uyuni_ai_agent/main.py with `reconcile` of
-- uyuni_ai_agent/incident_store.py.
use uyuni_ai.Common.{ℕ, ◌≡◌, Bool, false, some, List, [], ◌∷◌}
use uyuni_ai.Anomaly.{Anomaly}
use uyuni_ai.Detector.Window.{DependencyCorrelationWindow, correlate}
use uyuni_ai.Prometheus.{Client, Request}
use uyuni_ai.Polling.Detect.{Minion, Snapshot, detect_services, detect_locks}
use uyuni_ai.Polling.Detect.Blind.{unreachable}
use uyuni_ai.Polling.Detect.Outage.{Permitted}
use uyuni_ai.Polling.Cycle.{Inputs, gather, cycle_anomalies}

-- Prometheus answers no request, while the calls of Salt return in time and the dependency manager
-- permits the query of this minion
pub record Unanswered (e : Inputs) (minion : Minion) : Type 0 where
  pub message : Request → List ℕ
  pub client : Client
  pub service : List Anomaly
  pub locks : List Anomaly
  pub no_answer : e.client ≡ unreachable message client
  pub got_service : detect_services minion.id e.config (e.salt minion) e.logged_in ≡ some service
  pub got_locks : detect_locks minion e.config (e.salt minion) e.logged_in ≡ some locks
  pub in_time : e.expired minion ≡ false
  pub permitted : Permitted (e.timing minion) (e.manager minion)

-- the anomalies that a cycle of one minion goes on with
abbrev pub cycle_found : (ℕ → Bool) → Inputs → Minion → DependencyCorrelationWindow → List Anomaly
cycle_found u e minion window =
    (correlate u (cycle_anomalies (gather e (minion ∷ [])).0) e.edges e.correlated_at window).1

abbrev pair : Snapshot → ℕ → List Snapshot × ℕ
pair s n = (s ∷ [], n)
