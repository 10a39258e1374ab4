-- ===== src/Prometheus/Measured.antt =====
-- What stands behind the answer of an instant query (`query_prometheus` of
-- uyuni_ai_agent/prometheus_client.py).
use uyuni_ai.Common.{
  ℕ, ◌≡◌, refl, ◌⊎◌, inl, inr, true, false, not, Option, none, some, String, arith, List,
  Bool-cases, if_cases, is_some, ◌==◌,
}
use uyuni_ai.Common.Int.{Float}
use uyuni_ai.Common.Json.{
  Json, null, bool, num, str, array, object, Items, no_items, item, Fields, Raised, member,
}
use uyuni_ai.Common.Result.{Result, ok, err, Returns, Returns-bind, Returns-map}
use uyuni_ai.Evidence.Records.{is_ok}
use uyuni_ai.Prometheus.{instant, Response, Client, PrometheusQueryResult}
use uyuni_ai.Prometheus.Query.{
  query_prometheus, answer, parse_response, parse_json, parse_payload, parse_samples, judge_age,
  succeeded, result_of, is_expired, latest_sample_timestamp,
}

-- a series that an answer carries, and its newest timestamp
pub record IsFresh (client : Client) (now : ℕ) (max_age : Option ℕ) (result : PrometheusQueryResult)
    (carried : Option Json) : Type 0 where
  pub sample : Json
  pub rest : Items
  pub series : carried ≡ some (array (item sample rest))
  pub samples : result.samples ≡ item sample rest
  pub newest :
      Path
        (Result Raised (Option Float))
        (latest_sample_timestamp client (item sample rest))
        (ok result.observed_at)
  pub fresh : is_expired now max_age result.observed_at ≡ false

-- no samples to use, and why
abbrev pub Fails : PrometheusQueryResult → Type 0
Fails r = (is_ok r.status ≡ false) × (is_some r.error ≡ true)

-- a query that answered
pub record IsAnswered (client : Client) (query : String) (max_age : Option ℕ)
    (result : PrometheusQueryResult) : Type 0 where
  pub response : Response
  pub payload : Fields
  pub answered : Path (Result (List ℕ) Response) (client.get (instant query)) (ok response)
  pub accepted : response.status_code ≡ 200
  pub parsed : Path (Result (List ℕ) Json) response.json (ok (object payload))
  pub success : succeeded (member "status" payload) ≡ true
  pub fresh :
      IsFresh client (client.now (instant query)) max_age result (result_of (member "data" payload))
  pub is_usable : is_ok result.status ≡ true
  pub no_error : result.error ≡ none

abbrev Judged : Client → ℕ → Option ℕ → Option Json → PrometheusQueryResult → Type 0
Judged client now max_age carried r =
    Fails r ⊎ (IsFresh client now max_age r carried × (is_ok r.status ≡ true) × (r.error ≡ none))

judge_age-Judged :
    (client : Client) (now : ℕ) (max_age : Option ℕ) (q s : String) (v : Json) (rest : Items)
    (at : Option Float)
    → Path (Result Raised (Option Float)) (latest_sample_timestamp client (item v rest)) (ok at)
    → Judged client now max_age
        (some (array (item v rest)))
        (judge_age max_age now q s (item v rest) at)
unfolding judge_age is_expired
judge_age-Judged client now none q s v rest at h = inr (
  record { sample = v; rest = rest; series = refl; samples = refl; newest = h; fresh = refl },
  refl,
  refl,
)
judge_age-Judged client now (some age) q s v rest at h =
    elim (Bool-cases (is_expired now (some age) at)) [
      | inl e ↦ inl (ground arith, ground arith)
      | inr e ↦ inr (
        record { sample = v; rest = rest; series = refl; samples = refl; newest = h; fresh = e },
        ground arith,
        ground arith,
      )
    ]

parse_samples-Judged :
    (client : Client) (now : ℕ) (max_age : Option ℕ) (q s : String) (o : Option Json)
    → Returns (Judged client now max_age o) (parse_samples client now max_age q s o)
unfolding parse_samples
parse_samples-Judged client now max_age q s (some (array (item v rest))) =
    Returns-bind _ (latest_sample_timestamp client (item v rest)) _
      (judge_age-Judged client now max_age q s v rest)
parse_samples-Judged client now max_age q s (some (array no_items)) = inl (refl, refl)
parse_samples-Judged client now max_age q s (some null) = inl (refl, refl)
parse_samples-Judged client now max_age q s (some (bool _)) = inl (refl, refl)
parse_samples-Judged client now max_age q s (some (num _)) = inl (refl, refl)
parse_samples-Judged client now max_age q s (some (str _)) = inl (refl, refl)
parse_samples-Judged client now max_age q s (some (object _)) = inl (refl, refl)
parse_samples-Judged client now max_age q s none = inl (refl, refl)

abbrev pub Queried : Client → String → Option ℕ → PrometheusQueryResult → Type 0
Queried client q max_age r = Fails r ⊎ IsAnswered client q max_age r

parse_payload-Queried :
    (client : Client) (max_age : Option ℕ) (q s : String) (response : Response) (payload : Json)
    → Path (Result (List ℕ) Response) (client.get (instant q)) (ok response)
    → response.status_code ≡ 200
    → Path (Result (List ℕ) Json) response.json (ok payload)
    → Returns
        (Queried client q max_age)
        (parse_payload client (client.now (instant q)) max_age q s payload)
unfolding parse_payload
parse_payload-Queried client max_age q s response (object payload) got code parsed =
    if_cases (λ (r : Result Raised PrometheusQueryResult). Returns (Queried client q max_age) r)
      (not (succeeded (member "status" payload))) (λ _. inl (refl, refl))
      (λ success.
        Returns-map
          (Judged client (client.now (instant q)) max_age (result_of (member "data" payload)))
          (Queried client q max_age) _ (λ r j. with_answer r (ground arith) j)
          (parse_samples-Judged client _ max_age q s (result_of (member "data" payload))))
  where
    with_answer :
        (r : PrometheusQueryResult)
        → succeeded (member "status" payload) ≡ true
        → Judged client (client.now (instant q)) max_age (result_of (member "data" payload)) r
        → Queried client q max_age r
    with_answer r success (inl f) = inl f
    with_answer r success (inr (fresh, usable, clean)) = inr (record {
      response = response;
      payload = payload;
      answered = got;
      accepted = code;
      parsed = parsed;
      success = success;
      fresh = fresh;
      is_usable = usable;
      no_error = clean;
    })
parse_payload-Queried client max_age q s response null got code parsed = tt
parse_payload-Queried client max_age q s response (bool _) got code parsed = tt
parse_payload-Queried client max_age q s response (num _) got code parsed = tt
parse_payload-Queried client max_age q s response (str _) got code parsed = tt
parse_payload-Queried client max_age q s response (array _) got code parsed = tt

parse_json-Queried :
    (client : Client) (max_age : Option ℕ) (q s : String) (response : Response)
    (json : Result (List ℕ) Json)
    → Path (Result (List ℕ) Response) (client.get (instant q)) (ok response)
    → response.status_code ≡ 200
    → Path (Result (List ℕ) Json) response.json json
    → Returns
        (Queried client q max_age)
        (parse_json client (client.now (instant q)) max_age q s json)
parse_json-Queried client max_age q s response (err e) got code parsed = inl (refl, refl)
parse_json-Queried client max_age q s response (ok payload) got code parsed =
    parse_payload-Queried client max_age q s response payload got code parsed

answer-Queried :
    (client : Client) (max_age : Option ℕ) (q s : String) (got : Result (List ℕ) Response)
    → Path (Result (List ℕ) Response) (client.get (instant q)) got
    → Returns (Queried client q max_age) (answer client (client.now (instant q)) max_age q s got)
unfolding answer parse_response
answer-Queried client max_age q s (err e) h = inl (refl, refl)
answer-Queried client max_age q s (ok response) h =
    if_cases (λ (r : Result Raised PrometheusQueryResult). Returns (Queried client q max_age) r)
      (not (response.status_code == 200)) (λ _. inl (refl, refl))
      (λ code. parse_json-Queried client max_age q s response response.json h (ground arith) refl)

-- A query that returns either fails with a reason, or it is answered.
pub query-Queried :
    (client : Client) (url q : String) (max_age : Option ℕ)
    → Returns (Queried client q max_age) (query_prometheus q client url max_age)
unfolding query_prometheus
query-Queried client url q max_age = answer-Queried client max_age q _ (client.get (instant q)) refl
