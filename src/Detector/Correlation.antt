-- ===== src/Detector/Correlation.antt =====
-- `correlate_dependency_anomalies` of uyuni_ai_agent/anomaly_detector.py. A rate is in thousandths. The
-- indexes of the candidates are kept with the anomalies that they stand for, and an entry of the
-- configured edges that is no dictionary is `none`.
pub mod Pairs
pub mod Splice
use package.text.Mathlib.Text.{◌==◌ as str_eq}
use Prim.Native.String.{◌++◌ as concat}
use uyuni_ai.Common.{
  ℕ, suc, min, ◌==◌, Bool, true, false, not, ◌&&◌, ◌||◌, Option, none, some, List, [], ◌∷◌, String,
  ltb, if◌then◌else◌, on_option,
}
use uyuni_ai.Common.Text.{codes}
use uyuni_ai.Common.Regex.{Regex, word, choice, search}
use uyuni_ai.Anomaly.{
  Anomaly, AlertSeverity, info, warning, critical, Description, Value, number, text, texts,
  LockPair,
}
use uyuni_ai.Detector.Context.{get, update, as_number, as_text, as_pairs}

pub record Edge : Type 0 where
  pub apache_minion : Option String
  pub postgres_minion : Option String

-- `_WEB_APPLICATION_HINT`
unfoldable pub web_application_hint : Regex
web_application_hint = choice (word "apache") (
    word "httpd"
    ∷ word "web"
    ∷ word "backend"
    ∷ word "frontend"
    ∷ word "api"
    ∷ word "php"
    ∷ word "cgi"
    ∷ word "wsgi"
    ∷ word "gunicorn"
    ∷ [])

-- 500.0
abbrev pub default_apache_traffic_threshold : ℕ
default_apache_traffic_threshold = 500000

unfoldable pub is_apache_candidate : ℕ → Anomaly → Bool
is_apache_candidate limit a =
    str_eq a.metric_name "apache_busy_workers"
    && on_option (as_number (get "requests_per_second" a.context)) false (λ r. ltb r limit)

-- `u` says which characters above ASCII are of a word
unfoldable pub hints : (ℕ → Bool) → List LockPair → Bool
hints u [] = false
hints u (p ∷ ps) = search u web_application_hint (codes p.blocked_application) || hints u ps

unfoldable pub is_postgres_candidate : (ℕ → Bool) → Anomaly → Bool
is_postgres_candidate u a =
    str_eq a.metric_name "postgres_blocked_transaction"
    && hints u (as_pairs (get "blocked_pairs" a.context))

-- the anomalies that pass a test, each with its index
unfoldable pub candidates : (Anomaly → Bool) → ℕ → List Anomaly → List (ℕ × Anomaly)
candidates p i [] = []
candidates p i (a ∷ rest) =
    let others = candidates p (suc i) rest in if p a then (i, a) ∷ others else others

abbrev pub is_minion : Option String → String → Bool
is_minion none m = false
is_minion (some s) m = str_eq s m

unfoldable pub configured_edge : List (Option Edge) → Anomaly → Anomaly → Bool
configured_edge [] apache postgres = false
configured_edge (none ∷ es) apache postgres = configured_edge es apache postgres
configured_edge (some e ∷ es) apache postgres =
    is_minion e.apache_minion apache.minion_id && is_minion e.postgres_minion postgres.minion_id
    || configured_edge es apache postgres

-- same_minion or configured_edge
unfoldable pub linked : List (Option Edge) → Anomaly → Anomaly → Bool
linked edges apache postgres =
    str_eq apache.minion_id postgres.minion_id || configured_edge edges apache postgres

-- the inner loop
unfoldable pub first_partner :
    List (Option Edge) → Anomaly → List (ℕ × Anomaly) → Option (ℕ × Anomaly)
first_partner edges apache [] = none
first_partner edges apache ((i, p) ∷ rest) =
    if linked edges apache p then some (i, p) else first_partner edges apache rest

-- the outer loop
unfoldable pub selected_pair :
    List (Option Edge)
    → List (ℕ × Anomaly)
    → List (ℕ × Anomaly)
    → Option ((ℕ × Anomaly) × (ℕ × Anomaly))
selected_pair edges [] postgres = none
selected_pair edges ((i, a) ∷ rest) postgres =
    on_option (first_partner edges a postgres) (selected_pair edges rest postgres)
      (λ p. some ((i, a), p))

abbrev pub is_severe : AlertSeverity → Bool
is_severe critical = true
is_severe warning = false
is_severe info = false

abbrev pub chain_resource : String → Anomaly → Anomaly → String
chain_resource database apache postgres =
    if str_eq apache.minion_id postgres.minion_id
    then concat "dependency-chain:postgresql:" (concat database "->apache")
    else concat "dependency-chain:" (
        concat postgres.minion_id (
          concat ":postgresql:"
            (concat database (concat "->" (concat apache.minion_id ":apache")))))

abbrev or_zero : Option ℕ → ℕ
or_zero none = 0
or_zero (some n) = n

-- the incident that stands for both
pub correlated : Anomaly → Anomaly → Anomaly
correlated apache postgres = record {
  minion_id = apache.minion_id;
  metric_name = "postgres_apache_chain";
  current_value = postgres.current_value;
  threshold = postgres.threshold;
  severity = if is_severe apache.severity || is_severe postgres.severity then critical else warning;
  description =
      Description.correlated (as_text "unknown" (get "database" postgres.context))
        postgres.minion_id apache.current_value apache.minion_id;
  service_name = some "postgresql->apache2";
  resource =
      some (chain_resource (as_text "unknown" (get "database" postgres.context)) apache postgres);
  context =
      update
        (("apache_minion_id", text apache.minion_id)
          ∷ ("postgres_minion_id", text postgres.minion_id)
          ∷ ("correlated_minion_ids", texts (postgres.minion_id ∷ apache.minion_id ∷ []))
          ∷ ("apache_busy_workers_percent", number apache.current_value)
          ∷ (
            "apache_requests_per_second",
            number (or_zero (as_number (get "requests_per_second" apache.context))),
          )
          ∷ ("correlated_metric_names", texts (apache.metric_name ∷ postgres.metric_name ∷ []))
          ∷ [])
        postgres.context;
}

-- the last loop, from the index `i` on
pub splice : ℕ → ℕ → ℕ → Anomaly → List Anomaly → List Anomaly
splice i apache_index postgres_index chain [] = []
splice i apache_index postgres_index chain (a ∷ rest) =
    let others = splice (suc i) apache_index postgres_index chain rest in
    let kept = if i == apache_index || i == postgres_index then others else a ∷ others in
    if i == min apache_index postgres_index then chain ∷ kept else kept

unfoldable pub correlate_dependency_anomalies :
    (ℕ → Bool) → List Anomaly → List (Option Edge) → ℕ → List Anomaly
correlate_dependency_anomalies u anomalies edges limit =
    on_option
      (selected_pair edges (candidates (is_apache_candidate limit) 0 anomalies)
        (candidates (is_postgres_candidate u) 0 anomalies))
      anomalies
      (λ ((i, apache), (j, postgres)). splice 0 i j (correlated apache postgres) anomalies)
