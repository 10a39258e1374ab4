-- ===== src/Prometheus/Filesystems.antt =====
-- `get_filesystem_usage_percent` of uyuni_ai_agent/prometheus_client.py. A label is a text, as Prometheus
-- sends it; a value of another type counts as a label that is missing.
pub mod Order
use Prim.Native.String.{◌++◌ as concat}
use package.text.Mathlib.Text.{◌==◌ as str_eq}
use uyuni_ai.Common.{
  ℕ, suc, ◌+◌, Bool, true, false, not, Option, none, some, List, [], ◌∷◌, String, leb,
  if◌then◌else◌, on_option, on_list,
}
use uyuni_ai.Common.Int.{pos, Float, finite}
use uyuni_ai.Common.Json.{
  Json, str, object, Items, no_items, item, Fields, no_fields, Raised, attribute_error,
  overflow_error, member, get_of,
}
use uyuni_ai.Common.Result.{Result, ok, err, ◌>>=◌}
use uyuni_ai.Common.Text.{codes, codes_lt, given}
use uyuni_ai.Telemetry.{no_filesystem}
use uyuni_ai.Evidence.Records.{EvidenceStatus, is_ok}
use uyuni_ai.Detector.Thresholds.{Filesystem}
use uyuni_ai.Prometheus.{Client, PrometheusQueryResult, MetricReading}
use uyuni_ai.Prometheus.Query.{query_prometheus, no_value, sample_value}
use uyuni_ai.Prometheus.Exporters.{parts, on_instance}

-- the value of a label
abbrev pub label : String → Fields → Option String
label key metric = on_option (member key metric) none (λ v. elim v [ str s ↦ some s | _ ↦ none ])

-- metric.get(key, "unknown")
abbrev pub label_or_unknown : String → Fields → String
label_or_unknown key metric = on_option (label key metric) "unknown" (λ s. s)

-- a usage in percent that is possible
unfoldable pub plausible : Float → Option ℕ
plausible (finite (pos usage)) = if leb usage 100000 then some usage else none
plausible _ = none

-- the labels of a sample: sample.get("metric", {})
abbrev pub labels_of : Option Json → Result Raised Fields
labels_of none = ok no_fields
labels_of (some (object metric)) = ok metric
labels_of (some _) = err attribute_error

-- one sample with a float; none if it is invalid
unfoldable pub filesystem_of : Float → Fields → Option Filesystem
filesystem_of usage metric = on_option (given (label "mountpoint" metric)) none λ mountpoint.
    on_option (plausible usage) none λ percent. some (record {
      mountpoint = mountpoint;
      device = label_or_unknown "device" metric;
      fstype = label_or_unknown "fstype" metric;
      usage_percent = some percent;
    })

-- one round of the loop; the labels are only read after the float
unfoldable pub read_filesystem :
    Option Json → Result Raised Float → Result Raised (Option Filesystem)
read_filesystem metric (err overflow_error) = err overflow_error
read_filesystem metric (err e) = ok none
read_filesystem metric (ok usage) = do labels ← labels_of metric; ok (filesystem_of usage labels)

-- the filesystems, and the number of invalid samples
unfoldable pub filesystems_of : Client → Items → Result Raised (List Filesystem × ℕ)
filesystems_of client no_items = ok ([], 0)
filesystems_of client (item sample rest) = do
  metric ← get_of "metric" sample
  found ← read_filesystem metric (sample_value client sample)
  others ← filesystems_of client rest
  ok (on_option found (others.0, suc others.1) (λ fs. (fs ∷ others.0, others.1)))

unfoldable pub insert_filesystem : Filesystem → List Filesystem → List Filesystem
insert_filesystem fs [] = fs ∷ []
insert_filesystem fs (g ∷ rest) =
    if codes_lt (codes g.mountpoint) (codes fs.mountpoint)
    then g ∷ insert_filesystem fs rest
    else fs ∷ g ∷ rest

-- sorted(filesystems, key=lambda item: item["mountpoint"])
unfoldable pub sorted_filesystems : List Filesystem → List Filesystem
sorted_filesystems [] = []
sorted_filesystems (fs ∷ rest) = insert_filesystem fs (sorted_filesystems rest)

-- the reading, from what the loop has found
unfoldable pub filesystem_reading :
    Option Float → String → List Filesystem × ℕ → MetricReading (List Filesystem)
filesystem_reading at instance (found, invalid) =
    on_list found
      (no_value EvidenceStatus.error at (some (no_filesystem invalid)) "filesystems" instance
        "node_exporter")
      (λ fs rest. record {
        name = "filesystems";
        target = instance;
        exporter = "node_exporter";
        status = EvidenceStatus.ok;
        value = some (sorted_filesystems (fs ∷ rest));
        observed_at = at;
        error = none;
      })

unfoldable pub filesystem_result :
    Client → String → PrometheusQueryResult → Result Raised (MetricReading (List Filesystem))
filesystem_result client instance result =
    if not (is_ok result.status)
    then ok (
        no_value result.status result.observed_at result.error "filesystems" instance
          "node_exporter")
    else (filesystems_of client result.samples >>= λ found.
        ok (filesystem_reading result.observed_at instance found))

abbrev pub excluded_fstypes : String
excluded_fstypes =
    "autofs|binfmt_misc|bpf|cgroup2?|configfs|debugfs|devpts|devtmpfs|fusectl|hugetlbfs|mqueue|overlay|proc|pstore|ramfs|securityfs|squashfs|sysfs|tracefs|tmpfs"

abbrev pub filesystem_query : String → String
filesystem_query instance = parts (
    "(100 - (node_filesystem_avail_bytes{"
    ∷ selector
    ∷ "} / node_filesystem_size_bytes{"
    ∷ selector
    ∷ "} * 100)) and on(instance,device,mountpoint) (node_filesystem_readonly{"
    ∷ on_instance instance
    ∷ "} == 0)"
    ∷ [])
  where
    selector : String
    selector = parts (on_instance instance ∷ ",fstype!~\"" ∷ excluded_fstypes ∷ "\"" ∷ [])

unfoldable pub get_filesystem_usage_percent :
    String → Client → String → Option ℕ → Result Raised (MetricReading (List Filesystem))
get_filesystem_usage_percent instance client url max_age = do
  result ← query_prometheus (filesystem_query instance) client url max_age
  filesystem_result client instance result
