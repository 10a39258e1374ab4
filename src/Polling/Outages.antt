-- ===== src/Polling/Outages.antt =====
-- Runs of detection and of cycles while Prometheus answers nothing (main.py).
use uyuni_ai.Common.{ℕ, true, false, none, some, List, [], ◌∷◌}
use uyuni_ai.Common.Text.{codes}
use uyuni_ai.Prometheus.{Request}
use uyuni_ai.Prometheus.Tests.{server}
use uyuni_ai.Detector.Thresholds.{Thresholds}
use uyuni_ai.Detector.Checks.{CheckThresholds}
use uyuni_ai.Detector.Services.{output}
use uyuni_ai.Incidents.{Row, IncidentStore}
use uyuni_ai.Detector.BlindSpots.{observed}
use uyuni_ai.Polling.Detect.{Minion, Config, Salt, Timing, Snapshot}
use uyuni_ai.Detector.Window.{DependencyCorrelationWindow}
use uyuni_ai.Polling.Tests.{world, quiet}
use uyuni_ai.Polling.Cycle.{Inputs}
use uyuni_ai.Polling.Detect.Blind.{unreachable}
use uyuni_ai.Polling.Minion.{World}
use uyuni_ai.Alerts.{AlertPayload}
use uyuni_ai.Resilience.Breaker.{closed}
use uyuni_ai.Resilience.Manager.{DependencyManager}

abbrev web : Minion
web = record {
  id = "web1";
  instance = "web1:9100";
  apache_instance = none;
  postgres_instance = none;
}

abbrev percent : Thresholds
percent = record { warning = some 80000; critical = some 95000 }

abbrev limits : CheckThresholds
limits = record {
  memory = record {
    warning = some 90000;
    critical = some 95000;
    activity_warning = none;
    activity_critical = none;
    swap_usage_critical = none;
  };
  cpu = percent;
  disk = percent;
  busy_workers_percent = percent;
  requests_per_sec = record { warning = none; critical = none };
  active_connections_percent = percent;
  deadlocks_per_min = record { warning = none; critical = none };
}

abbrev config : Config
config = record {
  prometheus_url = "http://prometheus:9090";
  max_sample_age = some 300000;
  thresholds = limits;
  service_monitoring = record { enabled = false; ignored_units = [] };
  postgres_lock_monitoring = true;
  lock_thresholds = record { warning = none; critical = none };
}

abbrev salt : Salt
salt = record {
  failed_systemd_services = some (output "");
  postgres_blocking_activity = some (output "");
  pairs = λ out. [];
}

abbrev timing : Timing
timing = record {
  now = 0;
  started = 0;
  failed_at = 10;
  ended_at = 10;
  seen_at = 10;
  too_slow = false;
}

abbrev refused : Request → List ℕ
refused q = codes "connection refused"

-- a manager whose circuit is closed
abbrev manager : DependencyManager
manager = record {
  observer = false;
  breakers =
      (
        "prometheus",
        record {
          failure_threshold = 3;
          recovery_timeout = 30;
          state = closed;
          consecutive_failures = 0;
          opened_at = none;
          probe_in_flight = false;
        },
      )
      ∷ [];
  observed = [];
}

-- an incident of the CPU that was seen in the last cycle
abbrev cpu_row : Row AlertPayload
cpu_row = record {
  minion_id = "web1";
  metric_name = "cpu";
  service_name = "";
  resource = "host-cpu";
  severity = "critical";
  last_emitted_severity = some "critical";
  active = true;
  first_seen = 90;
  last_seen = 120;
  last_emitted = some 90;
  consecutive_absent = 1;
  starts_at = 90;
  payload = none;
  resolved_at = none;
}

abbrev cpu_store : IncidentStore AlertPayload
cpu_store = record {
  cooldown_seconds = 900;
  resolve_after_healthy_cycles = 2;
  incidents = (42, cpu_row) ∷ [];
}

-- everything that surrounds a cycle with one minion
abbrev inputs : Inputs
inputs = record {
  client = unreachable refused (server 200 0);
  config = config;
  logged_in = true;
  salt = λ m. salt;
  timing = λ m. timing;
  manager = λ m. none;
  expired = λ m. false;
  edges = [];
  correlated_at = 200;
  around = λ m. quiet;
}

abbrev window : DependencyCorrelationWindow
window = record {
  grace_seconds = 30;
  apache_traffic_threshold = 100;
  first_seen = [];
  last_held_count = 0;
}

abbrev cpu_world : World
cpu_world = record world { store = cpu_store }
