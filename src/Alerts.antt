-- ===== src/Alerts.antt =====
-- uyuni_ai_agent/alert_manager.py: the payloads of Alertmanager and their delivery. The constant labels
-- are left out; an optional label that is left out is the empty text or `none`. The annotations are
-- the analysis that they are printed from, and a time is a whole number of seconds.
pub mod Delivery
pub mod Tests
use package.text.Mathlib.Text.{◌==◌ as str_eq}
use uyuni_ai.Common.{
  ℕ, zero, suc, ◌+◌, ◌-◌, ◌^◌, ◌==◌, Bool, true, false, not, ◌&&◌, ◌||◌, Option, none, some, List,
  [], ◌∷◌, String, ltb, leb, if◌then◌else◌, on_option,
}
use uyuni_ai.Evidence.Grounding.{RootCauseAnalysis}

pub record Labels : Type 0 where
  pub severity : String
  pub minion : String
  pub metric : String
  pub incident_id : Option ℕ
  pub service : String
  pub resource : String

pub record AlertPayload : Type 0 where
  pub labels : Labels
  pub annotations : RootCauseAnalysis
  pub starts_at : ℕ
  pub ends_at : Option ℕ

pub build_alert_payload :
    RootCauseAnalysis
    → String
    → String
    → String
    → String
    → String
    → Option ℕ
    → Option ℕ
    → ℕ
    → AlertPayload
build_alert_payload analysis severity minion_id metric_name service_name resource incident_id
      starts_at now =
    record {
      labels = record {
        severity = severity;
        minion = minion_id;
        metric = metric_name;
        incident_id = incident_id;
        service = service_name;
        resource = resource;
      };
      annotations = analysis;
      starts_at = on_option starts_at now (λ t. t);
      ends_at = none;
    }

pub build_resolved_payload : AlertPayload → Option ℕ → ℕ → AlertPayload
build_resolved_payload payload ends_at now = record payload {
  ends_at = some (on_option ends_at now (λ t. t));
}

abbrev same_id : Option ℕ → Option ℕ → Bool
same_id none none = true
same_id none (some _) = false
same_id (some _) none = false
same_id (some a) (some b) = a == b

-- payload.get("labels") == previous.get("labels")
pub same_labels : Labels → Labels → Bool
same_labels a b =
    str_eq a.severity b.severity
    && (str_eq a.minion b.minion
        && (str_eq a.metric b.metric
            && (same_id a.incident_id b.incident_id
                && (str_eq a.service b.service && str_eq a.resource b.resource))))

-- what comes of one POST: an HTTP error, or a status code
pub data Response : Type 0 where
  connection_failed : Response
  answered : ℕ → Response

-- the text that `send_alert_payload` returns, but for its details
pub data SendResult : Type 0 where
  success : SendResult
  error : ℕ → SendResult
  unreachable : SendResult
  no_attempt : SendResult

pub alert_delivery_succeeded : SendResult → Bool
alert_delivery_succeeded success = true
alert_delivery_succeeded (error _) = false
alert_delivery_succeeded unreachable = false
alert_delivery_succeeded no_attempt = false

abbrev pub max_retries : ℕ
max_retries = 3

-- what a delivery did: its result, the number of POSTs, and the pauses, in half seconds
pub record Delivered : Type 0 where
  pub result : SendResult
  pub posts : ℕ
  pub pauses : List ℕ

abbrev pub finished : SendResult → Delivered
finished r = record { result = r; posts = 1; pauses = [] }

-- the pause after an attempt that is to be repeated
abbrev pub paused : ℕ → Delivered → Delivered
paused attempt d =
    if ltb attempt max_retries
    then record { result = d.result; posts = suc d.posts; pauses = 2 ^ (attempt - 1) ∷ d.pauses }
    else record { result = d.result; posts = suc d.posts; pauses = d.pauses }

-- the loop of `send_alert_payload` from one attempt on, with the number of attempts that are left
pub send_from : ℕ → ℕ → SendResult → (ℕ → Response) → Delivered
send_from zero attempt last responses = record { result = last; posts = 0; pauses = [] }
send_from (suc left) attempt last responses = elim (responses attempt) [
  | connection_failed ↦ paused attempt (send_from left (suc attempt) unreachable responses)
  | answered code ↦
      let again = paused attempt (send_from left (suc attempt) (error code) responses) in
      if code == 200
      then finished success
      else if leb 400 code && ltb code 500
      then finished (error code)
      else again
]

-- `responses n` is what comes of the n-th POST
pub send_alert_payload : (ℕ → Response) → Delivered
send_alert_payload responses = send_from max_retries 1 no_attempt responses
