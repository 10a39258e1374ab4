-- ===== src/Incidents.antt =====
-- uyuni_ai_agent/incident_store.py: the durable lifecycle of incidents. The table of SQLite is a
-- dictionary by its primary key, and each method of `IncidentStore`, which holds the lock and one
-- transaction from its first statement to its last, is one function of it. A time is a whole number
-- of microseconds, as `datetime` rounds it. What `json.dumps` stores `json.loads` gives back, so a
-- row holds the payload itself.
pub mod Identity
pub mod Table
pub mod Reconcile
pub mod Step
pub mod Lifecycle
pub mod Resolution
pub mod Tests
use text.Mathlib.Text.{◌==◌ as str_eq}
use uyuni_ai.Common.{
  ℕ, suc, ◌+◌, ◌*◌, ◌/◌, ◌==◌, max, Bool, true, false, not, ◌&&◌, ◌||◌, Option, none, some, List,
  [], ◌∷◌, ◌++◌, String, ltb, leb, if◌then◌else◌, on_option, is_some,
}
use uyuni_ai.Common.Dict.{Dict, lookup, insert, select, contains}
use uyuni_ai.Common.Text.{lower, lower_is, text_or_empty}
use uyuni_ai.Anomaly.{Anomaly, AlertSeverity, severity_value}
use Identity.{incident_fingerprint}

-- one second in microseconds
abbrev pub second : ℕ
second = 1000000

-- `_SEVERITY_RANK.get(severity, -1)`, one higher, for it is only compared
pub severity_rank : String → ℕ
severity_rank s =
    if str_eq s "info"
    then 1
    else if str_eq s "warning"
    then 2
    else if str_eq s "critical"
    then 3
    else 0

-- the second that the text of `_rfc3339` names
pub rfc3339 : ℕ → ℕ
rfc3339 timestamp = timestamp / second

-- `IncidentStore._severity`
pub severity_text : Anomaly → String
severity_text a = lower (severity_value a.severity)

-- A row of the table but for its primary key; `active` says that `status` is 'active' and not
-- 'resolved', the one other value that the table's CHECK lets in.
pub record Row (P : Type 0) : Type 0 where
  pub minion_id : String
  pub metric_name : String
  pub service_name : String
  pub resource : String
  pub severity : String
  pub last_emitted_severity : Option String
  pub active : Bool
  pub first_seen : ℕ
  pub last_seen : ℕ
  pub last_emitted : Option ℕ
  pub consecutive_absent : ℕ
  pub starts_at : ℕ
  pub payload : Option P
  pub resolved_at : Option ℕ

pub record IncidentRecord (P : Type 0) : Type 0 where
  pub fingerprint : ℕ
  pub row : Row P

pub record FiringIncident (P : Type 0) : Type 0 where
  pub anomaly : Anomaly
  pub fingerprint : ℕ
  pub starts_at : ℕ
  pub previous_payload : Option P

pub record IncidentChanges (P : Type 0) : Type 0 where
  pub firing : List (FiringIncident P)
  pub resolved : List (IncidentRecord P)

pub record IncidentStore (P : Type 0) : Type 0 where
  pub cooldown_seconds : ℕ
  pub resolve_after_healthy_cycles : ℕ
  pub incidents : Dict (Row P)

pub init : {P : Type 0} → ℕ → ℕ → Dict (Row P) → IncidentStore P
init cooldown resolve_after incidents = record {
  cooldown_seconds = max 0 cooldown;
  resolve_after_healthy_cycles = max 1 resolve_after;
  incidents = incidents;
}

-- `_prefer_more_severe`, from the dictionary that is selected so far
unfoldable pub prefer_more_severe : (List ℕ → ℕ) → List Anomaly → Dict Anomaly → Dict Anomaly
prefer_more_severe digest [] selected = selected
prefer_more_severe digest (a ∷ as') selected = prefer_more_severe digest as' (
    on_option (lookup (incident_fingerprint digest a) selected)
      (insert (incident_fingerprint digest a) a selected)
      (λ existing.
        if ltb (severity_rank (severity_text existing)) (severity_rank (severity_text a))
        then insert (incident_fingerprint digest a) a selected
        else selected))

module _ {P : Type 0} where
  -- UPDATE … WHERE fingerprint = k AND p
  abbrev pub update : ℕ → (Row P → Bool) → (Row P → Row P) → Dict (Row P) → Dict (Row P)
  update k p f [] = []
  update k p f ((j, r) ∷ d) = (j, if j == k && p r then f r else r) ∷ update k p f d

  abbrev pub always : Row P → Bool
  always r = true

  -- the row that INSERT writes
  pub new_row : String → Anomaly → ℕ → Row P
  new_row minion_id a now = record {
    minion_id = minion_id;
    metric_name = a.metric_name;
    service_name = text_or_empty a.service_name;
    resource = text_or_empty a.resource;
    severity = severity_text a;
    last_emitted_severity = none;
    active = true;
    first_seen = now;
    last_seen = now;
    last_emitted = none;
    consecutive_absent = 0;
    starts_at = rfc3339 now;
    payload = none;
    resolved_at = none;
  }

  -- what ON CONFLICT DO UPDATE makes of the row that is there
  pub reopened : Anomaly → ℕ → Row P → Row P
  reopened a now r = record r {
    severity = severity_text a;
    last_emitted_severity = none;
    active = true;
    first_seen = now;
    last_seen = now;
    last_emitted = none;
    consecutive_absent = 0;
    starts_at = rfc3339 now;
    payload = none;
    resolved_at = none;
  }

  -- INSERT … ON CONFLICT(fingerprint) DO UPDATE
  pub upsert : ℕ → String → Anomaly → ℕ → Dict (Row P) → Dict (Row P)
  upsert k minion_id a now rows =
      on_option (lookup k rows) (insert k (new_row minion_id a now) rows)
        (λ _. update k always (reopened a now) rows)

  -- the UPDATE of a row that is seen again
  pub seen_again : Anomaly → ℕ → Row P → Row P
  seen_again a now r = record r {
    severity = severity_text a;
    last_seen = now;
    consecutive_absent = 0;
  }

  pub escalated : Anomaly → Row P → Bool
  escalated a r =
      ltb (severity_rank (text_or_empty r.last_emitted_severity)) (severity_rank (severity_text a))

  pub cooldown_elapsed : ℕ → ℕ → Row P → Bool
  cooldown_elapsed cooldown now r =
      on_option r.last_emitted true (λ emitted. leb (emitted + cooldown * second) now)

  -- the firing of one anomaly of `current`, by its row among the active ones
  pub firing_of : ℕ → ℕ → ℕ → Anomaly → Option (Row P) → List (FiringIncident P)
  firing_of cooldown now k a none =
      record { anomaly = a; fingerprint = k; starts_at = rfc3339 now; previous_payload = none } ∷ []
  firing_of cooldown now k a (some r) =
      if escalated a r || cooldown_elapsed cooldown now r
      then record {
        anomaly = a;
        fingerprint = k;
        starts_at = r.starts_at;
        previous_payload = r.payload;
      }
        ∷ []
      else []

  -- the statement for one anomaly of `current`
  pub write_of : String → ℕ → ℕ → Anomaly → Option (Row P) → Dict (Row P) → Dict (Row P)
  write_of minion_id now k a none rows = upsert k minion_id a now rows
  write_of minion_id now k a (some r) rows = update k always (seen_again a now) rows

  -- the first loop of `reconcile`; `active` was read before it
  pub reconcile_current :
      String
      → ℕ
      → ℕ
      → Dict (Row P)
      → Dict Anomaly
      → Dict (Row P)
      → Dict (Row P) × List (FiringIncident P)
  reconcile_current minion_id cooldown now active [] rows = (rows, [])
  reconcile_current minion_id cooldown now active ((k, a) ∷ current) rows =
      let rest =
        reconcile_current minion_id cooldown now active current
          (write_of minion_id now k a (lookup k active) rows) in
      (rest.0, firing_of cooldown now k a (lookup k active) ++ rest.1)

  pub absent_again : Row P → Row P
  absent_again r = record r { consecutive_absent = r.consecutive_absent + 1 }

  -- `_record(row, absent=absent)` of a row that has been absent often enough
  pub resolved_of : ℕ → ℕ → Row P → List (IncidentRecord P)
  resolved_of resolve_after k r =
      if leb resolve_after (r.consecutive_absent + 1)
      then record { fingerprint = k; row = absent_again r } ∷ []
      else []

  -- the second loop of `reconcile`
  pub reconcile_absent :
      ℕ → Dict Anomaly → Dict (Row P) → Dict (Row P) → Dict (Row P) × List (IncidentRecord P)
  reconcile_absent resolve_after current [] rows = (rows, [])
  reconcile_absent resolve_after current ((k, r) ∷ active) rows =
      let seen = contains k current in
      let rest = reconcile_absent resolve_after current active (
        if seen
        then rows
        else update k always (λ old. record old { consecutive_absent = r.consecutive_absent + 1 })
            rows) in
      (rest.0, (if seen then [] else resolved_of resolve_after k r) ++ rest.1)

  -- WHERE minion_id = ? AND status = 'active'
  unfoldable pub active_on : String → Row P → Bool
  active_on minion_id r = str_eq r.minion_id minion_id && r.active

  pub reconcile :
      (List ℕ → ℕ)
      → String
      → List Anomaly
      → ℕ
      → IncidentStore P
      → IncidentStore P × IncidentChanges P
  reconcile digest minion_id anomalies now s =
      let current = prefer_more_severe digest anomalies [] in
      let active = select (active_on minion_id) s.incidents in
      let first = reconcile_current minion_id s.cooldown_seconds now active current s.incidents in
      let second' = reconcile_absent s.resolve_after_healthy_cycles current active first.0 in
      (record s { incidents = second'.0 }, record { firing = first.1; resolved = second'.1 })

  abbrev pub starts_with : Option ℕ → Row P → Bool
  starts_with none r = true
  starts_with (some at) r = r.starts_at == at

  -- `delivered` is the severity label of the payload, or "" where it has none
  pub emitted : String → P → ℕ → Row P → Row P
  emitted delivered payload now r = record r {
    last_emitted = some now;
    last_emitted_severity =
        some (if str_eq (lower delivered) "" then r.severity else lower delivered);
    payload = some payload;
  }

  pub mark_emitted : ℕ → String → P → ℕ → Option ℕ → IncidentStore P → IncidentStore P
  mark_emitted k delivered payload now starts_at s = record s {
    incidents =
        update k (λ r. r.active && starts_with starts_at r) (emitted delivered payload now)
          s.incidents;
  }

  pub is_actionable : ℕ → ℕ → IncidentStore P → Bool
  is_actionable k starts_at s =
      on_option (lookup k s.incidents) false
        (λ r. r.starts_at == starts_at && (r.active && r.consecutive_absent == 0))

  pub mark_resolved : ℕ → ℕ → IncidentStore P → IncidentStore P
  mark_resolved k now s = record s {
    incidents =
        update k (λ r. r.active) (λ r. record r { active = false; resolved_at = some now })
          s.incidents;
  }

  -- GROUP BY status, as the numbers of active and of resolved rows
  pub count_by_status : Dict (Row P) → ℕ × ℕ
  count_by_status [] = (0, 0)
  count_by_status ((k, r) ∷ d) =
      let (active, resolved) = count_by_status d in
      if r.active then (suc active, resolved) else (active, suc resolved)
