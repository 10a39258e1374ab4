-- ===== src/Prometheus/Query.antt =====
-- `_parse_response`, the queries and `_reading_from_first_sample` of
-- uyuni_ai_agent/prometheus_client.py. An exception that the code does not catch is an `err`.
use Prim.Native.String.{◌++◌ as concat}
use package.text.Mathlib.Text.{◌==◌ as str_eq}
use uyuni_ai.Common.{
  ℕ, ◌+◌, ◌-◌, ◌*◌, ◌^◌, leb, ◌==◌, Bool, true, false, not, Option, none, some, List, [], ◌∷◌,
  String, if◌then◌else◌, on_option,
}
use uyuni_ai.Common.Int.{
  ℤ, pos, pos_part, neg_part, Float, finite, infinity, negative_infinity, nan, gtb, ltb_ℤ, ◌+ℤ◌,
}
use uyuni_ai.Common.Json.{
  Json, bool, num, str, array, object, Items, no_items, item, Raised, type_error, value_error,
  overflow_error, member, subscript, last_item, entry, get_of, attribute_error,
}
use uyuni_ai.Common.Result.{Result, ok, err, ◌>>=◌}
use uyuni_ai.Telemetry.{
  Failure, http_status, invalid_json, query_failed, no_result_list, no_series, older_than,
  connection_failed, invalid_sample, not_finite,
}
use uyuni_ai.Evidence.Records.{EvidenceStatus, is_ok}
use uyuni_ai.Prometheus.{
  instant, range, Response, Client, PrometheusQueryResult, MetricReading, bounded_error, rendered,
}

-- float(value); an integer that rounds to 2 ** 1024 or more is an OverflowError
unfoldable pub float_of : Client → Json → Result Raised Float
float_of client (num (finite z)) =
    if leb ((2 ^ 54 - 1) * 2 ^ 970 * 1000) (pos_part z + neg_part z)
    then err overflow_error
    else ok (finite z)
float_of client (num x) = ok x
float_of client (bool true) = ok (finite (pos 1000))
float_of client (bool false) = ok (finite (pos 0))
float_of client (str s) = on_option (client.float_of_text s) (err value_error) ok
float_of client _ = err type_error

-- the float, or none where `float` raises a TypeError or a ValueError
abbrev pub float_or_none : Result Raised Float → Result Raised (Option Float)
float_or_none (ok x) = ok (some x)
float_or_none (err overflow_error) = err overflow_error
float_or_none (err _) = ok none

-- raw_value[0] of a non-empty list, else none
abbrev pub first_of : Option Json → Option Json
first_of (some (array (item v rest))) = some v
first_of _ = none

-- raw_values[-1][0] of a non-empty list of values, or raw_value[0]
unfoldable pub raw_timestamp : Option Json → Option Json → Result Raised (Option Json)
raw_timestamp (some (array (item v rest))) value = do
  stamp ← subscript 0 (last_item v rest)
  ok (some stamp)
raw_timestamp _ value = ok (first_of value)

-- the timestamp of one sample, none if the loop continues without one
unfoldable pub timestamp_of : Client → Json → Result Raised (Option Float)
timestamp_of client sample = do
  values ← get_of "values" sample
  value ← get_of "value" sample
  raw ← raw_timestamp values value
  on_option raw (ok none) (λ v. float_or_none (float_of client v))

unfoldable pub timestamps : Client → Items → Result Raised (List Float)
timestamps client no_items = ok []
timestamps client (item sample rest) = do
  stamp ← timestamp_of client sample
  others ← timestamps client rest
  ok (on_option stamp others (λ t. t ∷ others))

-- max(x, *xs)
unfoldable pub max_from : Float → List Float → Float
max_from x [] = x
max_from x (y ∷ ys) = if gtb y x then max_from y ys else max_from x ys

unfoldable pub latest : List Float → Option Float
latest [] = none
latest (x ∷ xs) = some (max_from x xs)

unfoldable pub latest_sample_timestamp : Client → Items → Result Raised (Option Float)
latest_sample_timestamp client samples = do stamps ← timestamps client samples; ok (latest stamps)

-- now - observed_at > max_age
unfoldable pub is_older : ℕ → ℕ → Float → Bool
is_older now max_age (finite t) = ltb_ℤ (t +ℤ pos max_age) (pos now)
is_older now max_age negative_infinity = true
is_older now max_age infinity = false
is_older now max_age nan = false

-- max_sample_age_seconds is not None and observed_at is not None and …
unfoldable pub is_expired : ℕ → Option ℕ → Option Float → Bool
is_expired now (some max_age) (some t) = is_older now max_age t
is_expired now _ _ = false

-- an answer without samples
abbrev pub failed : EvidenceStatus → Failure → String → String → PrometheusQueryResult
failed status error query source = record {
  status = status;
  query = query;
  source = source;
  samples = no_items;
  observed_at = none;
  error = some error;
}

-- the samples, or that they are too old
unfoldable pub judge_age :
    Option ℕ → ℕ → String → String → Items → Option Float → PrometheusQueryResult
judge_age none now query source samples at = record {
  status = EvidenceStatus.ok;
  query = query;
  source = source;
  samples = samples;
  observed_at = at;
  error = none;
}
judge_age (some max_age) now query source samples at =
    let old = is_expired now (some max_age) at in
    record {
      status = if old then EvidenceStatus.stale else EvidenceStatus.ok;
      query = query;
      source = source;
      samples = samples;
      observed_at = at;
      error = if old then some (older_than max_age) else none;
    }

-- `samples` and what follows it
unfoldable pub parse_samples :
    Client → ℕ → Option ℕ → String → String → Option Json → Result Raised PrometheusQueryResult
parse_samples client now max_age query source (some (array no_items)) =
    ok (failed EvidenceStatus.missing no_series query source)
parse_samples client now max_age query source (some (array (item v rest))) = do
  at ← latest_sample_timestamp client (item v rest)
  ok (judge_age max_age now query source (item v rest) at)
parse_samples client now max_age query source _ =
    ok (failed EvidenceStatus.error no_result_list query source)

-- data.get("result") if isinstance(data, dict) else None
unfoldable pub result_of : Option Json → Option Json
result_of (some (object members)) = member "result" members
result_of _ = none

-- payload.get("status", "success") == "success"
unfoldable pub succeeded : Option Json → Bool
succeeded none = true
succeeded (some (str s)) = str_eq s "success"
succeeded (some _) = false

-- payload.get("error", "query failed")
abbrev pub error_of : Option Json → Json
error_of none = str "query failed"
error_of (some v) = v

unfoldable pub parse_payload :
    Client → ℕ → Option ℕ → String → String → Json → Result Raised PrometheusQueryResult
parse_payload client now max_age query source (object payload) =
    if not (succeeded (member "status" payload))
    then ok (
        failed EvidenceStatus.error
          (query_failed (bounded_error (rendered client (error_of (member "error" payload))))) query
          source)
    else parse_samples client now max_age query source (result_of (member "data" payload))
parse_payload client now max_age query source _ = err attribute_error

abbrev pub parse_json :
    Client
    → ℕ
    → Option ℕ
    → String
    → String
    → Result (List ℕ) Json
    → Result Raised PrometheusQueryResult
parse_json client now max_age query source (err message) =
    ok (failed EvidenceStatus.error (invalid_json (bounded_error message)) query source)
parse_json client now max_age query source (ok payload) =
    parse_payload client now max_age query source payload

unfoldable pub parse_response :
    Client → ℕ → Option ℕ → String → String → Response → Result Raised PrometheusQueryResult
parse_response client now max_age query source response =
    if not (response.status_code == 200)
    then ok (
        failed EvidenceStatus.error (http_status response.status_code (bounded_error response.text))
          query source)
    else parse_json client now max_age query source response.json

-- a request: its answer, or the exception as an error
unfoldable pub answer :
    Client
    → ℕ
    → Option ℕ
    → String
    → String
    → Result (List ℕ) Response
    → Result Raised PrometheusQueryResult
answer client now max_age query source (err message) =
    ok (failed EvidenceStatus.error (connection_failed (bounded_error message)) query source)
answer client now max_age query source (ok response) =
    parse_response client now max_age query source response

unfoldable pub query_prometheus :
    String → Client → String → Option ℕ → Result Raised PrometheusQueryResult
query_prometheus prom_ql client prometheus_url max_age =
    answer client (client.now (instant prom_ql)) max_age prom_ql
      (concat prometheus_url "/api/v1/query") (client.get (instant prom_ql))

unfoldable pub query_prometheus_range :
    String → String → String → Client → String → String → Result Raised PrometheusQueryResult
query_prometheus_range prom_ql start end client prometheus_url step =
    answer client (client.now (range prom_ql start end step)) none prom_ql
      (concat prometheus_url "/api/v1/query_range") (client.get (range prom_ql start end step))

-- a reading without a value
unfoldable pub no_value :
    {V : Type 0}
    → EvidenceStatus
    → Option Float
    → Option Failure
    → String
    → String
    → String
    → MetricReading V
no_value status at error name target exporter = record {
  name = name;
  target = target;
  exporter = exporter;
  status = status;
  value = none;
  observed_at = at;
  error = error;
}

-- result.samples[0]
unfoldable pub first_sample : Items → Result Raised Json
first_sample samples = subscript 0 (array samples)

-- float(sample["value"][1])
unfoldable pub sample_value : Client → Json → Result Raised Float
sample_value client sample = do
  pair ← entry "value" sample
  number ← subscript 1 pair
  float_of client number

unfoldable pub reading_of_float :
    Option Float → String → String → String → Result Raised Float → Result Raised (MetricReading ℤ)
reading_of_float at name target exporter (err overflow_error) = err overflow_error
reading_of_float at name target exporter (err e) =
    ok (no_value EvidenceStatus.error at (some (invalid_sample e)) name target exporter)
reading_of_float at name target exporter (ok (finite v)) = ok (record {
  name = name;
  target = target;
  exporter = exporter;
  status = EvidenceStatus.ok;
  value = some v;
  observed_at = at;
  error = none;
})
reading_of_float at name target exporter (ok x) =
    ok (no_value EvidenceStatus.error at (some (not_finite x)) name target exporter)

unfoldable pub reading_from_first_sample :
    Client → PrometheusQueryResult → String → String → String → Result Raised (MetricReading ℤ)
reading_from_first_sample client result name target exporter =
    if not (is_ok result.status)
    then ok (no_value result.status result.observed_at result.error name target exporter)
    else reading_of_float result.observed_at name target exporter
        (first_sample result.samples >>= sample_value client)

unfoldable pub scalar_reading :
    String → String → String → String → Client → String → Option ℕ → Result Raised (MetricReading ℤ)
scalar_reading query name target exporter client prometheus_url max_age = do
  result ← query_prometheus query client prometheus_url max_age
  reading_from_first_sample client result name target exporter
