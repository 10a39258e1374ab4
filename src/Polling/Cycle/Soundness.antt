-- ===== src/Polling/Cycle/Soundness.antt =====
-- A cycle (`execute_poll_cycle` of uyuni_ai_agent/main.py) keeps the state of the loop sound.
use uyuni_ai.Common.{
  ℕ, suc, ◌≡◌, refl, subst, Bool, false, Option, none, some, List, [], ◌∷◌, on_option,
  on_option_cases, if_cases, if◌then◌else◌,
}
use uyuni_ai.Anomaly.{Anomaly}
use uyuni_ai.Prometheus.Snapshot.{Metrics}
use uyuni_ai.Common.Json.{Raised}
use uyuni_ai.Common.Result.{Result, ok, err}
use uyuni_ai.Polling.Detect.{
  Minion, Config, Salt, Snapshot, detect_on, with_salt, detect_services, detect_locks,
  snapshot_from, detect_minion, query_metrics,
}
use uyuni_ai.Polling.Minion.{World, process_minion_anomalies}
use uyuni_ai.Polling.Cycle.{Inputs, detect_one}

-- the detection of the minion gives a complete snapshot
abbrev pub completes : Inputs → Minion → Bool
completes e minion = on_option (detect_one e minion) false (λ s. s.complete)

AllOption : (Snapshot → Type 0) → Option Snapshot → Type 0
AllOption P none = Unit
AllOption P (some s) = P s

-- a snapshot is of the minion that was asked
-- the snapshot, if there is one, is of the minion
abbrev IsOf : Minion → Option Snapshot → Type 0
IsOf minion o = AllOption (λ s. s.minion ≡ minion) o

with_salt-IsOf :
    (minion : Minion) (config : Config) (salt : Salt) (salt_available : Bool) (metrics : Metrics)
    (r : Result Raised (List Anomaly))
    → IsOf minion (with_salt minion config salt salt_available metrics r)
unfolding with_salt snapshot_from AllOption
with_salt-IsOf minion config salt salt_available metrics (err e) = tt
with_salt-IsOf minion config salt salt_available metrics (ok found) =
    on_option_cases (IsOf minion) (detect_services minion.id config salt salt_available) (λ _. tt)
      λ service _.
        on_option_cases (IsOf minion) (detect_locks minion config salt salt_available) (λ _. tt)
          λ locks _. refl

detect_one-IsOf : (e : Inputs) (minion : Minion) → IsOf minion (detect_one e minion)
unfolding detect_one detect_minion detect_on AllOption
detect_one-IsOf e minion =
    if_cases (IsOf minion) (e.expired minion) (λ _. tt)
      λ _.
        on_option_cases (IsOf minion) (query_metrics (e.timing minion) _ (e.manager minion)).1
          (λ _. tt)
          λ metrics _. with_salt-IsOf minion e.config (e.salt minion) e.logged_in metrics _

pub snapshot_minion :
    (e : Inputs) (minion : Minion) (s : Snapshot) → detect_one e minion ≡ some s → s.minion ≡ minion
unfolding AllOption
snapshot_minion e minion s seen = subst (IsOf minion) seen (detect_one-IsOf e minion)

-- The minions one after another, each with the world that it finds and leaves: one without a snapshot
-- changes nothing, and every other one, complete or not, is processed with the anomalies of the cycle.
pub data Processed (digest : List ℕ → ℕ) (e : Inputs) (anomalies : List Anomaly)
    : List Minion → World → World → Type 0 where
  no_minion : (w : World) → Processed digest e anomalies [] w w
  unseen :
      (minion : Minion) (rest : List Minion) (w w' : World)
      → detect_one e minion ≡ none
      → Processed digest e anomalies rest w w'
      → Processed digest e anomalies (minion ∷ rest) w w'
  seen :
      (minion : Minion) (rest : List Minion) (s : Snapshot) (w w' : World)
      → detect_one e minion ≡ some s
      → Processed digest e anomalies rest
          (process_minion_anomalies digest (e.around minion) minion.id anomalies w)
          w'
      → Processed digest e anomalies (minion ∷ rest) w w'

-- one minion more in `gather`
abbrev gathered : Option Snapshot → List Snapshot × ℕ → List Snapshot × ℕ
gathered o r = on_option o (r.0, r.1) (λ s. (s ∷ r.0, if s.complete then suc r.1 else r.1))
