-- ===== src/Detector/Services.antt =====
-- The checks over Salt of uyuni_ai_agent/anomaly_detector.py: failed systemd services, and the
-- transactions that wait for a lock. What a call of the Salt client returned is an argument, as are the
-- pairs that uyuni_ai_agent/postgres_inspection.py reads in the output of the lock query.
pub mod Found
use Prim.Native.String.{◌++◌ as concat}
use package.text.Mathlib.Text.{◌==◌ as str_eq, starts_with}
use uyuni_ai.Common.{
  ℕ, ◌==◌, Bool, true, false, not, ◌&&◌, ◌||◌, Option, none, some, List, [], ◌∷◌, String,
  if◌then◌else◌, on_option, on_list,
}
use uyuni_ai.Common.Lists.{any}
use uyuni_ai.Common.Text.{codes, lower}
use uyuni_ai.Common.Lines.{
  lstrip_of, strip_text, take_text, in_text, ends_with, splitlines, split_words,
}
use uyuni_ai.Common.Glob.{fnmatch}
use uyuni_ai.Evidence.Records.{EvidenceStatus}
use uyuni_ai.Telemetry.{Observation, inspection}
use uyuni_ai.Anomaly.{
  Anomaly, AlertSeverity, warning, critical, Value, text, observations, salt_unavailable,
  service_failed, LockPair,
}
use uyuni_ai.Detector.Locks.{LockThresholds, postgres_blocking_anomalies}

-- what Salt returned for a command: False, None, its output, or a value of another type, by name
pub data Output : Type 0 where
  falsehood nothing : Output
  output : String → Output
  unexpected : String → Output

pub record FailedService : Type 0 where
  pub name : String
  pub description : String
  pub sub_state : String
  pub active_state : String

-- the unit of a line, if it has failed or restarts again and again
unfoldable pub unhealthy : String → String → String → String → String → List FailedService
unhealthy unit load_state active_state sub_state description =
    if ends_with unit ".service"
      && (str_eq load_state "loaded"
          && (str_eq active_state "failed"
              || (str_eq active_state "activating" && str_eq sub_state "auto-restart")))
    then record {
      name = unit;
      description = description;
      sub_state = sub_state;
      active_state = active_state;
    }
      ∷ []
    else []

-- the words of a line; the description is the unit's name where the line has none
unfoldable pub service_of : List String → List FailedService
service_of (unit ∷ load ∷ active ∷ sub ∷ []) = unhealthy unit load active sub unit
service_of (unit ∷ load ∷ active ∷ sub ∷ description ∷ _) =
    unhealthy unit load active sub description
service_of _ = []

-- raw_line.strip().lstrip("●").strip()
abbrev pub unmarked : String → String
unmarked line = strip_text (lstrip_of (λ c. c == 0x25cf) (strip_text line))

unfoldable pub services_of : List String → List FailedService
services_of [] = []
services_of (line ∷ lines) =
    let rest = services_of lines in
    on_list (service_of (split_words 4 (unmarked line))) rest (λ s _. s ∷ rest)

unfoldable pub parse_failed_systemd_services : Output → List FailedService
parse_failed_systemd_services (output said) =
    let stripped = strip_text said in
    if str_eq stripped "" || starts_with stripped "Salt API call failed:"
    then []
    else services_of (splitlines stripped)
parse_failed_systemd_services _ = []

abbrev failure_markers : List String
failure_markers =
    "salt api call failed:" ∷ "minion did not return" ∷ "no response from any minions" ∷ []

-- `_salt_inspection_failure`: the message, or none for valid output
unfoldable pub salt_inspection_failure : Output → Option String
salt_inspection_failure falsehood = some "Salt minion returned no command result"
salt_inspection_failure nothing = some "Salt minion returned no command result"
salt_inspection_failure (unexpected type) =
    some (concat "Salt returned unexpected " (concat type " output"))
salt_inspection_failure (output said) =
    let stripped = strip_text said in
    if any (λ marker. in_text marker (lower stripped)) failure_markers
    then some (take_text 500 stripped)
    else none

-- the observation of a check that could not be made; its exporter and target stand in the context
abbrev failed_check : String → String → Observation
failed_check check failure = record {
  name = check;
  exporter = "";
  target = "";
  status = EvidenceStatus.error;
  value = none;
  observed_at = none;
  error = some (inspection (codes failure));
}

unfoldable pub salt_telemetry_anomaly : String → String → String → Anomaly
salt_telemetry_anomaly minion_id check failure = record {
  minion_id = minion_id;
  metric_name = "telemetry_unavailable";
  current_value = 1000;
  threshold = 1000;
  severity = warning;
  description = salt_unavailable minion_id;
  service_name = none;
  resource = some (concat "telemetry:salt_inspection:" minion_id);
  context =
      ("source", text "salt")
      ∷ ("exporter", text "salt_inspection")
      ∷ ("target", text minion_id)
      ∷ ("observations", observations (failed_check check failure ∷ []))
      ∷ [];
}

-- config["service_monitoring"]
pub record ServiceMonitoring : Type 0 where
  pub enabled : Bool
  pub ignored_units : List String

unfoldable pub service_anomaly : String → FailedService → Anomaly
service_anomaly minion_id s = record {
  minion_id = minion_id;
  metric_name = "service_down";
  current_value = 1000;
  threshold = 1000;
  severity = critical;
  description = service_failed s.name (str_eq s.active_state "activating");
  service_name = some s.name;
  resource = none;
  context =
      ("unit_description", text s.description)
      ∷ ("active_state", text s.active_state)
      ∷ ("sub_state", text s.sub_state)
      ∷ [];
}

-- any(fnmatch(name, pattern) for pattern in ignored)
unfoldable pub is_ignored : List String → String → Bool
is_ignored patterns name = any (λ pattern. fnmatch (codes name) (codes pattern)) patterns

unfoldable pub service_anomalies : String → List String → List FailedService → List Anomaly
service_anomalies minion_id ignored [] = []
service_anomalies minion_id ignored (s ∷ rest) =
    let others = service_anomalies minion_id ignored rest in
    if is_ignored ignored s.name then others else service_anomaly minion_id s ∷ others

unfoldable pub check_failed_services : String → Output → ServiceMonitoring → List Anomaly
check_failed_services minion_id out config =
    if not config.enabled
    then []
    else on_option (salt_inspection_failure out)
        (service_anomalies minion_id config.ignored_units (parse_failed_systemd_services out))
        (λ failure. salt_telemetry_anomaly minion_id "systemd_service_discovery" failure ∷ [])

-- `pairs` is what `parse_postgres_lock_pairs` reads in an output
unfoldable pub check_postgres_blocked_transactions :
    String → Output → (Output → List LockPair) → Bool → LockThresholds → List Anomaly
check_postgres_blocked_transactions minion_id out pairs enabled thresholds =
    if not enabled
    then []
    else on_option (salt_inspection_failure out)
        (postgres_blocking_anomalies (pairs out) thresholds minion_id)
        (λ failure. salt_telemetry_anomaly minion_id "postgres_lock_discovery" failure ∷ [])
