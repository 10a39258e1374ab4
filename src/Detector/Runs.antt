-- ===== src/Detector/Runs.antt =====
-- Runs of the checks of a snapshot (anomaly_detector.py).
use uyuni_ai.Common.{◌≡◌, refl, true, none, some, List, [], ◌∷◌}
use uyuni_ai.Common.Int.{pos}
use uyuni_ai.Common.Json.{Raised}
use uyuni_ai.Common.Result.{Result, ok, Returns}
use uyuni_ai.Common.Glob.{fnmatch}
use uyuni_ai.Evidence.Records.{EvidenceStatus}
use uyuni_ai.Telemetry.{Observation, no_series, not_collected}
use uyuni_ai.Anomaly.{Anomaly}
use uyuni_ai.Prometheus.Tests.{server}
use uyuni_ai.Prometheus.Snapshot.{get_all_metrics}
use uyuni_ai.Detector.BlindSpots.{
  required_telemetry, telemetry_anomalies, anomalies_from, exporter_anomaly, of_exporter,
  failures_of, observed, is_up, required_failures, telemetry_anomaly,
}
use uyuni_ai.Detector.BlindSpots.Total.{Answers, snapshot-Answers}
use uyuni_ai.Detector.Services.{
  output, parse_failed_systemd_services, services_of, service_of, unhealthy, is_ignored,
}

snapshot-Answers_example : Returns (Answers "web1") (
    get_all_metrics "web1:9100"
      (server 200 300000)
      "http://prometheus:9090"
      (some 300000)
      (some "web1:9117")
      none)
snapshot-Answers_example =
    snapshot-Answers "web1:9100" "web1" (server 200 300000) "http://prometheus:9090" (some 300000)
      (some "web1:9117") none

-- a target that is up, with a query that gave no series
abbrev up : Observation
up = record {
  name = "apache_exporter_up";
  exporter = "apache_exporter";
  target = "web1:9117";
  status = EvidenceStatus.ok;
  value = some (pos 1000);
  observed_at = none;
  error = none;
}

abbrev no_requests : Observation
no_requests = record {
  name = "apache_requests_per_sec";
  exporter = "apache_exporter";
  target = "web1:9117";
  status = EvidenceStatus.missing;
  value = none;
  observed_at = none;
  error = some no_series;
}

abbrev never_queried : Observation
never_queried = record {
  name = "apache_busy_workers_percent";
  exporter = "";
  target = "";
  status = EvidenceStatus.missing;
  value = none;
  observed_at = none;
  error = some not_collected;
}

-- one exporter is reported, with the query that failed and the one that was never made
two_failures :
    Path (Result Raised (List Anomaly)) (telemetry_anomalies (up ∷ no_requests ∷ []) "web1") (
      ok (
        telemetry_anomaly "web1" "apache_exporter" "web1:9117" (never_queried ∷ no_requests ∷ [])
        ∷ []))
unfolding telemetry_anomalies anomalies_from exporter_anomaly of_exporter failures_of observed is_up
    required_failures required_telemetry
two_failures = refl

-- of two units, one has failed, and the other is only mentioned
one_failed :
    parse_failed_systemd_services (
      output
        "● nginx.service loaded failed failed The web server\n  cron.service loaded active running Cron")
    ≡ record {
      name = "nginx.service";
      description = "The web server";
      sub_state = "failed";
      active_state = "failed";
    }
      ∷ []
unfolding parse_failed_systemd_services services_of service_of unhealthy
one_failed = refl

one_ignored : is_ignored ("user@*.service" ∷ []) "user@1000.service" ≡ true
unfolding is_ignored fnmatch
one_ignored = refl
