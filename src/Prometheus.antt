-- ===== src/Prometheus.antt =====
-- uyuni_ai_agent/prometheus_client.py: the queries and what their answers are worth. What lies outside
-- is one argument, the client: its answer to each request, the time when it has answered, and Python's
-- `float` and `str` of values that this model does not spell out. The queries of one snapshot all
-- differ, so one answer for each is no restriction. Of a sample age in an error the fraction stays.
pub mod Query
pub mod Exporters
pub mod Memory
pub mod Filesystems
pub mod Ratios
pub mod Snapshot
pub mod Measured
pub mod Readings
pub mod Bounds
pub mod Shares
pub mod Listing
pub mod Tests
use Prim.Native.String.{◌++◌ as concat}
use package.text.Mathlib.Text.{◌==◌ as str_eq}
use uyuni_ai.Common.{
  ℕ, ◌+◌, ◌==◌, Bool, true, false, not, ◌&&◌, Option, none, some, List, [], ◌∷◌, String,
  if◌then◌else◌, on_option, is_some,
}
use uyuni_ai.Common.Lists.{take, filter}
use uyuni_ai.Common.Strip.{strip}
use uyuni_ai.Common.Text.{codes}
use uyuni_ai.Common.Int.{ℤ, pos, Float, finite, infinity, negative_infinity, nan, gtb, ltb_ℤ, ◌+ℤ◌}
use uyuni_ai.Common.Json.{
  Json, null, bool, num, str, array, object, Items, no_items, item, Fields, Raised, type_error,
  value_error, member, subscript, last_item, entry, get_of,
}
use uyuni_ai.Common.Result.{Result, ok, err, ◌>>=◌}
use uyuni_ai.Telemetry.{Failure, Observation}
use uyuni_ai.Evidence.Records.{EvidenceStatus, is_ok}

-- an instant query, or a range query with its start, end and step
pub data Request : Type 0 where
  instant : String → Request
  range : String → String → String → String → Request

-- an HTTP response; `json` is what `response.json()` returns, or the message of the exception
pub record Response : Type 0 where
  pub status_code : ℕ
  pub text : List ℕ
  pub json : Result (List ℕ) Json

-- `get` gives a response, or the message of the exception that it raises; `now` is `time.time()`
pub record Client : Type 0 where
  pub get : Request → Result (List ℕ) Response
  pub now : Request → ℕ
  pub float_of_text : String → Option Float
  pub str_of : Json → List ℕ

pub record PrometheusQueryResult : Type 0 where
  pub status : EvidenceStatus
  pub query : String
  pub source : String
  pub samples : Items
  pub observed_at : Option Float
  pub error : Option Failure

pub record MetricReading (V : Type 0) : Type 0 where
  pub name : String
  pub target : String
  pub exporter : String
  pub status : EvidenceStatus
  pub value : Option V
  pub observed_at : Option Float
  pub error : Option Failure

unfoldable pub usable : {V : Type 0} → MetricReading V → Bool
usable r = is_ok r.status && is_some r.value

-- `_bounded_error` of a value whose `str` is given
unfoldable pub bounded_error : List ℕ → List ℕ
unfolding strip
bounded_error rendered = take 500 (filter (λ c. not (c == 0)) (strip rendered))

-- str(value)
pub rendered : Client → Json → List ℕ
rendered client (str s) = codes s
rendered client v = client.str_of v
