-- ===== src/SaltApi/Tests.antt =====
-- Calls of the Salt API (salt_api.py): a session that has expired, and a target that is a glob.
use uyuni_ai.Common.{ℕ, ◌≡◌, refl, Bool, true, false, Option, none, some, [], ◌∷◌, ◌==◌}
use uyuni_ai.Common.Json.{Json, null, str, array, object, no_items, item, no_fields, field}
use uyuni_ai.Common.Result.{ok, err}
use uyuni_ai.Commands.{value_error, validate_configured_minion}
use uyuni_ai.SaltApi.{
  refused_target, SaltClient, Post, login_post, call_post, Reply, Session, Run, call, send_call,
  ensure_login, login, and_then, sent, retry, unless_expired, last_result, extract_minion_result,
  result_in, on_checked, replace_allowed_minions, normalized_ids,
}
use uyuni_ai.SaltApi.Reach.{Reaches, call-Reaches}

abbrev client : SaltClient
client = record { allowed_minions = "web1" ∷ []; started = true; logged_in = true }

abbrev body : Json
body = object (
    field "return" (array (item (object (field "web1" (str "done") no_fields)) no_items)) no_fields)

abbrev works : Session
works = record { already = false; accepted = true }

abbrev expired : Option Reply
expired = some (record { status_code = 401; json = none })

abbrev answered : Option Reply
answered = some (record { status_code = 200; json = some body })

abbrev is_200 : ℕ → Bool
is_200 n = n == 200

abbrev uptime : Post
uptime = call_post "web1" "cmd.run" (some (str "uptime"))

-- after a 401 the client logs in and asks once more
after_401 :
    Path
      (Run Json)
      (call is_200 (str "web1") "cmd.run" (some (str "uptime")) works expired works answered client)
      (client, uptime ∷ login_post ∷ uptime ∷ [], ok (str "done"))
unfolding call on_checked validate_configured_minion send_call and_then ensure_login login sent
    unless_expired retry last_result extract_minion_result result_in
after_401 = refl

glob_refused :
    Path
      (Run Json)
      (call is_200 (str "*") "cmd.run" none works answered works answered client)
      (client, [], err (refused_target value_error))
unfolding call on_checked validate_configured_minion
glob_refused = refl

trimmed : replace_allowed_minions (str " web1 " ∷ str "  " ∷ null ∷ []) client ≡ client
unfolding replace_allowed_minions normalized_ids
trimmed = refl

call-Reaches_example :
    Reaches is_200
      (str "web1")
      client
      "cmd.run"
      (some (str "uptime"))
      expired
      answered
      (call is_200 (str "web1") "cmd.run" (some (str "uptime")) works expired works answered client)
call-Reaches_example =
    call-Reaches is_200 (str "web1") client "cmd.run" (some (str "uptime")) works expired works
      answered
