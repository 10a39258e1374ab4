-- ===== src/Detector/Locks.antt =====
-- `postgres_blocking_anomalies` of uyuni_ai_agent/anomaly_detector.py. The dictionary `by_database` is an
-- association list; `sorted` is an insertion sort, of texts by their code points. A wait is a whole
-- number of seconds.
pub mod Report
use package.text.Mathlib.Text.{◌==◌ as str_eq}
use Prim.Native.String.{◌++◌ as concat}
use uyuni_ai.Common.{
  ℕ, suc, max, ◌==◌, Bool, true, false, ◌||◌, ◌&&◌, Option, none, some, List, [], ◌∷◌, ◌++◌, String,
  ltb, leb, if◌then◌else◌,
}
use uyuni_ai.Common.Lists.{length}
use uyuni_ai.Common.Text.{codes, codes_lt}
use uyuni_ai.Anomaly.{
  Anomaly, AlertSeverity, warning, critical, database_blocked, Value, text, numbers, pairs,
  LockPair,
}

pub record LockThresholds : Type 0 where
  pub warning : Option ℕ
  pub critical : Option ℕ

abbrev or_default : ℕ → Option ℕ → ℕ
or_default d none = d
or_default d (some v) = v

unfoldable pub warning_at : LockThresholds → ℕ
warning_at t = max 0 (or_default 5 t.warning)

pub critical_at : LockThresholds → ℕ
critical_at t = max (warning_at t) (or_default 30 t.critical)

abbrev pub Groups : Type 0
Groups = List (String × List LockPair)

-- by_database.setdefault(database, []).append(pair)
pub add_pair : LockPair → Groups → Groups
add_pair p [] = (p.database, p ∷ []) ∷ []
add_pair p ((d, ps) ∷ groups) =
    if str_eq d p.database then (d, ps ++ (p ∷ [])) ∷ groups else (d, ps) ∷ add_pair p groups

-- the loop over the pairs
pub by_database : ℕ → List LockPair → Groups → Groups
by_database limit [] groups = groups
by_database limit (p ∷ ps) groups =
    by_database limit ps (if ltb p.blocked_seconds limit then groups else add_pair p groups)

pub insert_group : String × List LockPair → Groups → Groups
insert_group g [] = g ∷ []
insert_group g (h ∷ groups) =
    if codes_lt (codes h.0) (codes g.0) then h ∷ insert_group g groups else g ∷ h ∷ groups

-- sorted(by_database.items()); no database is there twice
pub sorted_groups : Groups → Groups
sorted_groups [] = []
sorted_groups (g ∷ groups) = insert_group g (sorted_groups groups)

-- the insertion into a sorted list with nothing twice
pub insert_pid : ℕ → List ℕ → List ℕ
insert_pid n [] = n ∷ []
insert_pid n (m ∷ ms) =
    if n == m then m ∷ ms else if ltb m n then m ∷ insert_pid n ms else n ∷ m ∷ ms

-- sorted({pair["blocked_pid"] for pair in pairs})
pub blocked_pids : List LockPair → List ℕ
blocked_pids [] = []
blocked_pids (p ∷ ps) = insert_pid p.blocked_pid (blocked_pids ps)

pub blocker_pids : List LockPair → List ℕ
blocker_pids [] = []
blocker_pids (p ∷ ps) = insert_pid p.blocker_pid (blocker_pids ps)

-- max(pair["blocked_seconds"] for pair in pairs)
pub longest_wait : List LockPair → ℕ
longest_wait [] = 0
longest_wait (p ∷ ps) = max p.blocked_seconds (longest_wait ps)

abbrev pub lock_resource : String → String
lock_resource database = concat "postgresql:" database

-- the anomaly of one database
unfoldable pub group_anomaly : LockThresholds → String → String × List LockPair → Anomaly
group_anomaly t minion_id (database, ps) = record {
  minion_id = minion_id;
  metric_name = "postgres_blocked_transaction";
  current_value = longest_wait ps;
  threshold = if leb (critical_at t) (longest_wait ps) then critical_at t else warning_at t;
  severity = if leb (critical_at t) (longest_wait ps) then critical else warning;
  description = database_blocked database (length (blocked_pids ps)) (longest_wait ps);
  service_name = some "postgresql";
  resource = some (lock_resource database);
  context =
      ("database", text database)
      ∷ ("blocked_pids", numbers (blocked_pids ps))
      ∷ ("blocker_pids", numbers (blocker_pids ps))
      ∷ ("blocked_pairs", pairs ps)
      ∷ [];
}

unfoldable pub anomalies_of : LockThresholds → String → Groups → List Anomaly
anomalies_of t minion_id [] = []
anomalies_of t minion_id (g ∷ groups) =
    group_anomaly t minion_id g ∷ anomalies_of t minion_id groups

unfoldable pub postgres_blocking_anomalies : List LockPair → LockThresholds → String → List Anomaly
postgres_blocking_anomalies ps t minion_id =
    anomalies_of t minion_id (sorted_groups (by_database (warning_at t) ps []))
