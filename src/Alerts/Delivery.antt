-- ===== src/Alerts/Delivery.antt =====
-- The retries of `send_alert_payload` (alert_manager.py).
use uyuni_ai.Common.{
  ℕ, ◌-◌, ◌==◌, ◌≡◌, Bool, false, ◌&&◌, ◌||◌, [], ◌∷◌, arith, ltb, leb, if◌then◌else◌,
}
use uyuni_ai.Common.Lists.{take}
use uyuni_ai.Alerts.{
  Response, connection_failed, answered, SendResult, success, error, unreachable, send_from,
  send_alert_payload,
}

-- after this response there is no further attempt: it is a 200 or a refusal, 400 to 499
abbrev pub is_final : Response → Bool
is_final connection_failed = false
is_final (answered code) = code == 200 || (leb 400 code && ltb code 500)

-- what the last response alone says
abbrev pub verdict : Response → SendResult
verdict connection_failed = unreachable
verdict (answered code) = if code == 200 then success else error code

-- the number of the attempt that decides
abbrev pub last_attempt : (ℕ → Response) → ℕ
last_attempt responses =
    if is_final (responses 1) then 1 else if is_final (responses 2) then 2 else 3

-- A delivery ends with its first final response, or else with the third; it reports what that response
-- says, has sent the payload exactly that often, and has paused between the attempts for half a
-- second and then for one.
pub send_decides :
    (responses : ℕ → Response)
    → let d = send_alert_payload responses in
      (d.posts ≡ last_attempt responses)
      × (d.result ≡ verdict (responses (last_attempt responses)))
      × (d.pauses ≡ take (last_attempt responses - 1) (1 ∷ 2 ∷ []))
unfolding send_alert_payload send_from
send_decides responses = ground arith
