-- ===== src/Alerts/Tests.antt =====
-- A delivery of an alert (alert_manager.py).
use uyuni_ai.Common.{ℕ, ◌-◌, ◌≡◌, [], ◌∷◌, ◌==◌, if◌then◌else◌}
use uyuni_ai.Common.Lists.{take}
use uyuni_ai.Alerts.{Response, connection_failed, answered, send_alert_payload}
use uyuni_ai.Alerts.Delivery.{last_attempt, verdict, send_decides}

-- no connection at first, then a server error, then success
abbrev flaky : ℕ → Response
flaky n = if n == 1 then connection_failed else if n == 2 then answered 503 else answered 200

send_decides_example :
    let d = send_alert_payload flaky in
    (d.posts ≡ last_attempt flaky)
    × (d.result ≡ verdict (flaky (last_attempt flaky)))
    × (d.pauses ≡ take (last_attempt flaky - 1) (1 ∷ 2 ∷ []))
send_decides_example = send_decides flaky
