-- ===== src/Polling/Cycle.antt =====
-- `execute_poll_cycle` of uyuni_ai_agent/main.py. The minions are detected and processed at the same
-- time; here one comes after another, and what the others do meanwhile is part of what surrounds each
-- (`Surroundings`, and the manager as the query of a minion finds it). The counts for the metrics are
-- left out.
pub mod Soundness
pub mod Absence
use uyuni_ai.Common.{
  ℕ, suc, Bool, true, false, Option, none, some, List, [], ◌∷◌, ◌++◌, String, if◌then◌else◌,
  on_option,
}
use uyuni_ai.Anomaly.{Anomaly}
use uyuni_ai.Prometheus.{Client}
use uyuni_ai.Detector.Correlation.{Edge}
use uyuni_ai.Detector.Window.{DependencyCorrelationWindow, correlate}
use uyuni_ai.Resilience.Manager.{DependencyManager}
use uyuni_ai.Polling.Detect.{Minion, Config, Salt, Timing, Snapshot, detect_minion}
use uyuni_ai.Polling.Minion.{World, Surroundings, process_minion_anomalies}

-- what surrounds a cycle; `expired` says that the detection of a minion misses its deadline
pub record Inputs : Type 0 where
  pub client : Client
  pub config : Config
  pub logged_in : Bool
  pub salt : Minion → Salt
  pub timing : Minion → Timing
  pub manager : Minion → Option DependencyManager
  pub expired : Minion → Bool
  pub edges : List (Option Edge)
  pub correlated_at : ℕ
  pub around : Minion → Surroundings

unfoldable pub detect_one : Inputs → Minion → Option Snapshot
detect_one e minion =
    if e.expired minion
    then none
    else (detect_minion minion e.client e.config (e.salt minion) e.logged_in (e.timing minion)
        (e.manager minion)).1

-- the snapshots that there are, and the number of those that are complete
unfoldable pub gather : Inputs → List Minion → List Snapshot × ℕ
gather e [] = ([], 0)
gather e (minion ∷ rest) =
    let (snapshots, successful) = gather e rest in
    on_option (detect_one e minion) (snapshots, successful)
      λ s. (s ∷ snapshots, if s.complete then suc successful else successful)

unfoldable pub cycle_anomalies : List Snapshot → List Anomaly
cycle_anomalies [] = []
cycle_anomalies (s ∷ rest) = s.anomalies ++ cycle_anomalies rest

unfoldable pub process_all : (List ℕ → ℕ) → Inputs → List Anomaly → List Snapshot → World → World
process_all digest e anomalies [] w = w
process_all digest e anomalies (s ∷ rest) w =
    process_all digest e anomalies rest
      (process_minion_anomalies digest (e.around s.minion) s.minion.id anomalies w)

-- the number of successful minions, the window and the world after the cycle
unfoldable pub execute_poll_cycle :
    (ℕ → Bool)
    → (List ℕ → ℕ)
    → Inputs
    → List Minion
    → DependencyCorrelationWindow
    → World
    → ℕ × DependencyCorrelationWindow × World
execute_poll_cycle u digest e minions window w =
    let (snapshots, successful) = gather e minions in
    let (window', anomalies) =
      correlate u (cycle_anomalies snapshots) e.edges e.correlated_at window in
    (successful, window', process_all digest e anomalies snapshots w)
