-- ===== src/Lib.antt =====
-- Uyuni AI agent: a model of its core and the theorems about it.
--
-- The agent polls the metrics of the minions of a Uyuni server, which it queries from
-- Prometheus (uyuni_ai_agent/prometheus_client.py). What crosses a threshold, or cannot be
-- measured, becomes an anomaly (uyuni_ai_agent/anomaly_detector.py); the incident store keeps
-- the lifecycle of each one across polls and restarts and says which incidents fire and which
-- are resolved (uyuni_ai_agent/incident_store.py); a firing incident is put into a bounded
-- priority queue, whose workers investigate it (uyuni_ai_agent/investigation_queue.py); the
-- analysis of an investigation passes quality gates before it counts as confirmed
-- (uyuni_ai_agent/evidence.py); a firing alert is posted, and then acknowledged in the store
-- (uyuni_ai_agent/main.py and alert_manager.py); and every call of a remote service goes
-- through a circuit breaker (uyuni_ai_agent/resilience.py).
--
-- Anomaly: `Anomaly`, `AlertSeverity` and `identity_key` of uyuni_ai_agent/anomaly_detector.py.
--
-- Telemetry and Prometheus: uyuni_ai_agent/prometheus_client.py. A query's observation is
-- Telemetry, as the detector reads it too. Prometheus/Query parses a response
-- (`_parse_response`) and makes the queries, with what an answer is worth; the queries of one
-- number are in Prometheus/Exporters, those of memory in Prometheus/Memory, of filesystems in
-- Prometheus/Filesystems and of shares in Prometheus/Ratios; the snapshot of a minion,
-- `get_all_metrics`, is Prometheus/Snapshot. One argument, the client, stands for the HTTP
-- client, the clock and the float of a text. Common/Json is the data of a JSON text.
--
-- Detector: the rest of uyuni_ai_agent/anomaly_detector.py: `_check_threshold` and
-- `filesystem_anomalies` (Detector/Thresholds), `memory_pressure_anomaly` (Detector/Pressure),
-- `telemetry_anomalies` (Detector/BlindSpots), `check_all_metrics` (Detector/Checks), the checks
-- over Salt (Detector/Services) with `postgres_blocking_anomalies` (Detector/Locks),
-- `correlate_dependency_anomalies` (Detector/Correlation) and `DependencyCorrelationWindow`
-- (Detector/Window). The dictionary `context` is an association list (Detector/Context).
--
-- Incidents: uyuni_ai_agent/incident_store.py. The table is a dictionary by its primary key;
-- the methods `reconcile`, `mark_emitted`, `is_actionable`, `mark_resolved` and
-- `count_by_status` are functions of the same names. SHA-256 is a parameter, from bytes to the
-- number of the digest. Incidents/Step reduces `reconcile` to one incident: `next_row`,
-- `next_firing`, `next_resolution`.
--
-- Queue: uyuni_ai_agent/investigation_queue.py. A method that holds the condition from its
-- first line to its last is one function from the queue to the queue after it and its answer.
-- `_worker` is cut into `next`, `settle` and `release`, and Queue/Workers lets the event loop
-- interleave these with the calls of the polling loop, as the constructors of a step relation.
--
-- Evidence: uyuni_ai_agent/evidence.py and the analysis of uyuni_ai_agent/models.py. The ledger
-- is Evidence/Records, `_sanitize_remediation` with its patterns is Evidence/Remediation, and
-- `ground_analysis` is Evidence/Grounding. The patterns are regular expressions of Common/Regex;
-- which characters above ASCII are letters is a parameter.
--
-- Resilience: uyuni_ai_agent/resilience.py, with one module for each class. `execute` is cut at
-- the operation that it awaits.
--
-- Alerts: uyuni_ai_agent/alert_manager.py, the payloads and `send_alert_payload`; what comes of
-- each POST is an argument.
--
-- Polling: `_process_firing_investigation` (Polling/Firing), `process_minion_anomalies`
-- (Polling/Minion), `detect_minion` (Polling/Detect) and `execute_poll_cycle` (Polling/Cycle) of
-- uyuni_ai_agent/main.py, over the store, the queue, the alerts and the detector. What other
-- tasks do to these while one of them waits is an argument.
--
-- Commands: uyuni_ai_agent/validation.py and systemd.py, and the command of `service_logs` of
-- uyuni_ai_agent/salt_api.py. Common/Shell has `shlex.quote`, and as an independent reference
-- how a POSIX shell splits a command into words.
--
-- SaltApi: the allowlist, the login and `_call` of `SaltAPIClient`, and `extract_minion_result`
-- (uyuni_ai_agent/salt_api.py). What the server and other tasks do is an argument.
--
-- Numbers. A clock's reading is a natural number of ticks, in the store of microseconds. A
-- float of a measurement is an integer of thousandths, or the infinities and nan, as
-- Prometheus may send them (Common/Int); a quotient is rounded down. Other floats are natural
-- numbers of a small unit: thousandths of a percentage, a rate or a confidence; the products
-- of the backoff are exact in millionths. A threshold is not negative, so that a negative
-- value passes it by. Where the code subtracts two times and compares, the subtraction is on
-- the other side of the comparison. A fingerprint is the number of its digits.
-- An integer that is converted to a float is an OverflowError from 2 ** 1024 - 2 ** 970 on.
--
-- Termination. Every function is structurally recursive, but for the matching of a regular
-- expression under a star, which counts the characters that are left; a star of the patterns
-- never matches the empty text, so that their number is enough. The tokens of a glob pattern are
-- read on a fuel of as many steps as it has characters, and each step takes at least one.
-- The digits of a number are printed on a fuel of the number itself, and each step divides it by
-- ten.
--
-- Not modelled: the shell of the polling loop (sessions with Salt, deadlines, the start and
-- the shutdown of the process), the rest of the client of Salt, the client of the language
-- model, the tools that send commands and the parsers of their output, the inventory, metrics,
-- logs and settings.
pub mod Common
pub mod Alerts
pub mod Anomaly
pub mod Commands
pub mod Detector
pub mod Evidence
pub mod Incidents
pub mod Polling
pub mod Prometheus
pub mod Queue
pub mod Resilience
pub mod SaltApi
pub mod Telemetry
