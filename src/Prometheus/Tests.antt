-- ===== src/Prometheus/Tests.antt =====
-- Runs of the Prometheus client (prometheus_client.py), on a server that gives one sample for each query.
use uyuni_ai.Common.{ℕ, refl, none, some, [], String}
use uyuni_ai.Common.Int.{ℤ, pos, finite}
use uyuni_ai.Common.Json.{Json, num, str, array, object, no_items, item, no_fields, field, Raised}
use uyuni_ai.Common.Result.{Result, ok, Returns}
use uyuni_ai.Common.Strip.{strip}
use uyuni_ai.Evidence.Records.{EvidenceStatus}
use uyuni_ai.Telemetry.{older_than, http_status}
use uyuni_ai.Prometheus.{Client, MetricReading, bounded_error}
use uyuni_ai.Prometheus.Query.{
  query_prometheus, answer, parse_response, parse_payload, parse_samples, succeeded, result_of,
  latest_sample_timestamp, timestamps, timestamp_of, raw_timestamp, latest, max_from, judge_age,
  is_expired, is_older, float_of, scalar_reading, reading_from_first_sample, reading_of_float,
  no_value, first_sample, sample_value,
}
use uyuni_ai.Prometheus.Readings.{Reads, scalar_reading-Reads}
use uyuni_ai.Prometheus.Filesystems.{get_filesystem_usage_percent}
use uyuni_ai.Prometheus.Listing.{ListsAnswer, get_filesystem-Lists}

-- a series on "/" with the value "42.5" at second 100
abbrev series : Json
series = object (
    field "metric" (object (field "mountpoint" (str "/") no_fields)) (
      field "value" (array (item (num (finite (pos 100000))) (item (str "42.5") no_items)))
        no_fields))

abbrev payload : Json
payload = object (
    field "status" (str "success")
      (field "data" (object (field "result" (array (item series no_items)) no_fields)) no_fields))

-- the server, with the status and the time of its answers
abbrev pub server : ℕ → ℕ → Client
server status now = record {
  get = λ q. ok (record { status_code = status; text = []; json = ok payload });
  now = λ q. now;
  float_of_text = λ s. some (finite (pos 42500));
  str_of = λ v. [];
}

abbrev url : String
url = "http://prometheus:9090"

-- a sample that is 200 seconds old is fresh, one of 301 seconds is stale, and a 503 is an error
fresh_value :
    Path
      (Result Raised (MetricReading ℤ))
      (scalar_reading "up" "node_up" "web1:9100" "node_exporter"
        (server 200 300000)
        url
        (some 300000))
      (ok (record {
        name = "node_up";
        target = "web1:9100";
        exporter = "node_exporter";
        status = EvidenceStatus.ok;
        value = some (pos 42500);
        observed_at = some (finite (pos 100000));
        error = none;
      }))
unfolding scalar_reading query_prometheus answer parse_response parse_payload parse_samples
    succeeded result_of latest_sample_timestamp timestamps timestamp_of raw_timestamp latest
    max_from judge_age is_expired is_older float_of reading_from_first_sample reading_of_float
    first_sample sample_value
fresh_value = refl

stale_value :
    Path
      (Result Raised (MetricReading ℤ))
      (scalar_reading "up" "node_up" "web1:9100" "node_exporter"
        (server 200 401000)
        url
        (some 300000))
      (ok (record {
        name = "node_up";
        target = "web1:9100";
        exporter = "node_exporter";
        status = EvidenceStatus.stale;
        value = none;
        observed_at = some (finite (pos 100000));
        error = some (older_than 300000);
      }))
unfolding scalar_reading query_prometheus answer parse_response parse_payload parse_samples
    succeeded result_of latest_sample_timestamp timestamps timestamp_of raw_timestamp latest
    max_from judge_age is_expired is_older float_of reading_from_first_sample no_value
stale_value = refl

refused_value :
    Path
      (Result Raised (MetricReading ℤ))
      (scalar_reading "up" "node_up" "web1:9100" "node_exporter"
        (server 503 300000)
        url
        (some 300000))
      (ok (record {
        name = "node_up";
        target = "web1:9100";
        exporter = "node_exporter";
        status = EvidenceStatus.error;
        value = none;
        observed_at = none;
        error = some (http_status 503 []);
      }))
unfolding scalar_reading query_prometheus answer parse_response reading_from_first_sample no_value
    bounded_error strip
refused_value = refl

scalar_reading-Reads_example : Returns (Reads (server 200 300000) "up" (some 300000)) (
    scalar_reading "up" "node_up" "web1:9100" "node_exporter" (server 200 300000) url (some 300000))
scalar_reading-Reads_example =
    scalar_reading-Reads (server 200 300000) "up" "node_up" "web1:9100" "node_exporter" url
      (some 300000)

get_filesystem-Lists_example :
    Returns
      (ListsAnswer "web1:9100" (server 200 300000) url (some 300000))
      (get_filesystem_usage_percent "web1:9100" (server 200 300000) url (some 300000))
get_filesystem-Lists_example =
    get_filesystem-Lists "web1:9100" (server 200 300000) url (some 300000)
