-- ===== src/Detector/Window.antt =====
-- `DependencyCorrelationWindow` of uyuni_ai_agent/anomaly_detector.py. A time is a whole number of clock
-- ticks, and `correlate` takes what its call of the clock returned; `now - first_seen < grace` is
-- written with the subtraction moved to the other side.
pub mod Entries
pub mod Grace
pub mod Release
use package.text.Mathlib.Text.{◌==◌ as str_eq}
use uyuni_ai.Common.{
  ℕ, suc, max, ◌+◌, ◌==◌, Bool, true, false, not, ◌&&◌, ◌||◌, Option, none, some, List, [], ◌∷◌,
  ◌++◌, map, String, ltb, if◌then◌else◌, on_option,
}
use uyuni_ai.Common.Lists.{filter, any}
use uyuni_ai.Anomaly.{Anomaly, IdentityKey, identity_key}
use uyuni_ai.Detector.Correlation.{
  Edge, is_apache_candidate, is_postgres_candidate, correlate_dependency_anomalies,
}

-- the dictionary `_first_seen`
abbrev pub Seen : Type 0
Seen = List (IdentityKey × ℕ)

pub record DependencyCorrelationWindow : Type 0 where
  pub grace_seconds : ℕ
  pub apache_traffic_threshold : ℕ
  pub first_seen : Seen
  pub last_held_count : ℕ

pub init : ℕ → ℕ → DependencyCorrelationWindow
init grace threshold = record {
  grace_seconds = max 0 grace;
  apache_traffic_threshold = max 0 threshold;
  first_seen = [];
  last_held_count = 0;
}

unfoldable pub same_key : IdentityKey → IdentityKey → Bool
same_key a b =
    str_eq a.minion_id b.minion_id
    && (str_eq a.metric_name b.metric_name
        && (str_eq a.service_name b.service_name && str_eq a.resource b.resource))

-- key in keys
unfoldable pub has_key : IdentityKey → List IdentityKey → Bool
has_key key [] = false
has_key key (k ∷ ks) = same_key k key || has_key key ks

-- self._first_seen.get(key)
unfoldable pub seen_at : IdentityKey → Seen → Option ℕ
seen_at key [] = none
seen_at key ((k, t) ∷ rest) = if same_key k key then some t else seen_at key rest

abbrev names_minion : String → Option String → Bool
names_minion m none = false
names_minion m (some s) = str_eq s m

-- not postgres_minion or not apache_minion
abbrev pub is_blank : Option String → Bool
is_blank none = true
is_blank (some s) = str_eq s ""

module _ (u : ℕ → Bool) where
  unfoldable pub edge_wants : ℕ → Anomaly → Edge → Bool
  edge_wants threshold a e =
      not (is_blank e.postgres_minion || is_blank e.apache_minion)
      && (names_minion a.minion_id e.postgres_minion && is_postgres_candidate u a
          || names_minion a.minion_id e.apache_minion && is_apache_candidate threshold a)

  unfoldable pub is_cross_minion_candidate : ℕ → Anomaly → List (Option Edge) → Bool
  is_cross_minion_candidate threshold a [] = false
  is_cross_minion_candidate threshold a (none ∷ es) = is_cross_minion_candidate threshold a es
  is_cross_minion_candidate threshold a (some e ∷ es) =
      edge_wants threshold a e || is_cross_minion_candidate threshold a es

  unfoldable pub candidate_keys : ℕ → List (Option Edge) → List Anomaly → List IdentityKey
  candidate_keys threshold edges anomalies =
      map identity_key (filter (λ a. is_cross_minion_candidate threshold a edges) anomalies)

-- the entries of the keys that are candidates still
unfoldable pub forget_stale : List IdentityKey → Seen → Seen
forget_stale keys [] = []
forget_stale keys ((k, t) ∷ rest) =
    let others = forget_stale keys rest in if has_key k keys then (k, t) ∷ others else others

-- self._first_seen.setdefault(key, now): the value, and the dictionary after it
unfoldable pub set_default : IdentityKey → ℕ → Seen → ℕ × Seen
set_default key now seen =
    on_option (seen_at key seen) (now, seen ++ ((key, now) ∷ [])) (λ t. (t, seen))

-- whether the last loop of `correlate` asks how long it has known the anomaly
unfoldable pub delays : ℕ → List IdentityKey → Anomaly → Bool
delays grace keys a = not (not (has_key (identity_key a) keys) || grace == 0)

-- the last loop of `correlate`: the dictionary, the number held, and the result
unfoldable pub release : ℕ → ℕ → List IdentityKey → List Anomaly → Seen → Seen × ℕ × List Anomaly
release grace now keys [] seen = (seen, 0, [])
release grace now keys (a ∷ rest) seen =
    let (first, seen') = set_default (identity_key a) now seen in
    let passed = release grace now keys rest seen in
    let judged = release grace now keys rest seen' in
    if delays grace keys a
    then (if ltb now (first + grace)
        then (judged.0, suc judged.1, judged.2)
        else (judged.0, judged.1, a ∷ judged.2))
    else (passed.0, passed.1, a ∷ passed.2)

abbrev pub is_chain : Anomaly → Bool
is_chain a = str_eq a.metric_name "postgres_apache_chain"

unfoldable pub has_chain : List Anomaly → Bool
has_chain [] = false
has_chain (a ∷ rest) = is_chain a || has_chain rest

module _ (u : ℕ → Bool) where
  unfoldable pub hold :
      List Anomaly
      → List (Option Edge)
      → ℕ
      → DependencyCorrelationWindow
      → DependencyCorrelationWindow × List Anomaly
  hold anomalies edges now w =
      let keys = candidate_keys u w.apache_traffic_threshold edges anomalies in
      let (seen, held, result) =
        release w.grace_seconds now keys anomalies (forget_stale keys w.first_seen) in
      (record w { first_seen = seen; last_held_count = held }, result)

  unfoldable pub correlate :
      List Anomaly
      → List (Option Edge)
      → ℕ
      → DependencyCorrelationWindow
      → DependencyCorrelationWindow × List Anomaly
  correlate anomalies edges now w =
      let correlated =
        correlate_dependency_anomalies u anomalies edges w.apache_traffic_threshold in
      if has_chain correlated
      then (record w { first_seen = []; last_held_count = 0 }, correlated)
      else hold anomalies edges now w
