-- ===== src/Commands.antt =====
-- The commands that the agent may send to a minion with arguments of a language model: all of
-- uyuni_ai_agent/validation.py and uyuni_ai_agent/systemd.py, and the command of
-- `SaltAPIClient.service_logs` (uyuni_ai_agent/salt_api.py). A text of a command is its code points.
-- `int` of a text is an argument, as is `ipaddress.ip_address`.
pub mod Words
pub mod Reports
pub mod Tests
use text.Mathlib.Text.{◌==◌ as str_eq}
use uyuni_ai.Common.{
  ℕ, ◌+◌, ◌/◌, ◌%◌, Bool, true, false, not, ◌&&◌, ◌||◌, Option, none, some, List, [], ◌∷◌, ◌++◌,
  String, on_option, if◌then◌else◌, ◌==◌, ltb, leb,
}
use uyuni_ai.Common.Lists.{length, reverse, all, any, is_nonempty, mem}
use uyuni_ai.Common.Text.{codes}
use uyuni_ai.Common.Strip.{strip}
use uyuni_ai.Common.Int.{ℤ, pos, negsuc, Float, finite, infinity, negative_infinity, nan}
use uyuni_ai.Common.Json.{Json, null, bool, num, str, array, object}
use uyuni_ai.Common.Result.{Result, ok, err, ◌>>=◌}
use uyuni_ai.Common.Shell.{is_alnum, quote, decimal}

-- `int` of an infinity is an OverflowError, which `bounded_int` does not catch
pub data Refusal : Type 0 where
  value_error overflow_error : Refusal

-- the last test of `bounded_int`
pub in_range : ℕ → ℕ → ℤ → Result Refusal ℕ
in_range minimum maximum (pos n) = if leb minimum n && leb n maximum then ok n else err value_error
in_range minimum maximum (negsuc n) = err value_error

-- a number of thousandths that is whole
pub whole_in_range : ℕ → ℕ → ℤ → Result Refusal ℕ
whole_in_range minimum maximum (pos n) =
    if n % 1000 == 0 then in_range minimum maximum (pos (n / 1000)) else err value_error
whole_in_range minimum maximum (negsuc n) = err value_error

-- of a value that came as JSON; the minimum is not negative
pub bounded_int : (String → Option ℤ) → Json → ℕ → ℕ → Result Refusal ℕ
bounded_int int_of (num (finite z)) minimum maximum = whole_in_range minimum maximum z
bounded_int int_of (num nan) minimum maximum = err value_error
bounded_int int_of (num infinity) minimum maximum = err overflow_error
bounded_int int_of (num negative_infinity) minimum maximum = err overflow_error
bounded_int int_of (str s) minimum maximum =
    on_option (int_of s) (err value_error) (in_range minimum maximum)
bounded_int int_of _ minimum maximum = err value_error

-- s.rstrip("."), of a text in reverse
pub drop_dots : List ℕ → List ℕ
drop_dots [] = []
drop_dots (c ∷ cs) = let rest = drop_dots cs in if c == b'.' then rest else c ∷ cs

-- s.split("."), as the first label and the others
pub labels_of : List ℕ → List ℕ × List (List ℕ)
labels_of [] = ([], [])
labels_of (c ∷ cs) =
    let (label, others) = labels_of cs in
    if c == b'.' then ([], label ∷ others) else (c ∷ label, others)

-- the last character of a text that begins with c
pub last_char : ℕ → List ℕ → ℕ
last_char c [] = c
last_char c (d ∷ ds) = last_char d ds

-- `_HOST_LABEL`: at most 63 letters, digits and hyphens, with no hyphen at either end
pub is_host_label : List ℕ → Bool
is_host_label [] = false
is_host_label (c ∷ cs) =
    is_alnum c
    && (is_alnum (last_char c cs)
        && (all (λ d. is_alnum d || d == b'-') cs && leb (length (c ∷ cs)) 63))

pub are_host_labels : List ℕ × List (List ℕ) → Bool
are_host_labels (label, others) = all is_host_label (label ∷ others)

pub checked_target : (List ℕ → Bool) → List ℕ → Result Refusal (List ℕ)
checked_target is_ip target =
    if not (is_nonempty target) || ltb 253 (length target)
    then err value_error
    else if is_ip target
    then ok target
    else if are_host_labels (labels_of target)
    then ok target
    else err value_error

pub validate_network_target : (List ℕ → Bool) → Json → Result Refusal (List ℕ)
validate_network_target is_ip (str s) =
    checked_target is_ip (reverse (drop_dots (reverse (strip (codes s)))))
validate_network_target is_ip _ = err value_error

pub ping_text : List ℕ → ℕ → List ℕ
ping_text target count = codes "ping -c " ++ (decimal count ++ (codes " -- " ++ quote target))

pub build_ping_command :
    (List ℕ → Bool) → (String → Option ℤ) → Json → Json → Result Refusal (List ℕ)
build_ping_command is_ip int_of target count = validate_network_target is_ip target >>= λ t.
    bounded_int int_of count 1 5 >>= λ n. ok (ping_text t n)

pub process_list_text : String → ℕ → List ℕ
process_list_text sort_field top_n =
    codes "ps aux --sort=-" ++ (codes sort_field ++ (codes " | head -n " ++ decimal (top_n + 1)))

pub build_process_list_command : (String → Option ℤ) → String → Json → Result Refusal (List ℕ)
build_process_list_command int_of sort_field top_n =
    if not (str_eq sort_field "%cpu" || str_eq sort_field "%mem")
    then err value_error
    else bounded_int int_of top_n 1 50 >>= λ n. ok (process_list_text sort_field n)

-- `[A-Za-z0-9_.@:-]`
pub is_unit_char : ℕ → Bool
is_unit_char c = is_alnum c || mem c (codes "_.@:-")

-- s.endswith(suffix), of texts in reverse
pub starts_with : List ℕ → List ℕ → Bool
starts_with [] s = true
starts_with (c ∷ cs) [] = false
starts_with (c ∷ cs) (d ∷ ds) = c == d && starts_with cs ds

pub is_service_name : List ℕ → Bool
is_service_name s = starts_with (reverse (codes ".service")) (reverse s)

pub normalized : List ℕ → List ℕ
normalized service = if is_service_name service then service else service ++ codes ".service"

-- `_SYSTEMD_SERVICE_RE`: at least one character before the suffix
pub is_full_name : List ℕ → Bool
is_full_name s = all is_unit_char s && (is_service_name s && ltb 8 (length s))

pub validate_service_text : List ℕ → Result Refusal (List ℕ)
validate_service_text service =
    if not (is_nonempty service && all is_unit_char service)
    then err value_error
    else if is_full_name (normalized service)
    then ok (normalized service)
    else err value_error

pub validate_systemd_service : Json → Result Refusal (List ℕ)
validate_systemd_service (str s) = validate_service_text (codes s)
validate_systemd_service _ = err value_error

pub service_logs_text : List ℕ → ℕ → List ℕ
service_logs_text service lines =
    codes "journalctl -u " ++ (service ++ (codes " -n " ++ (decimal lines ++ codes " --no-pager")))

-- the command of `SaltAPIClient.service_logs`
pub service_logs_command : (String → Option ℤ) → Json → Json → Result Refusal (List ℕ)
service_logs_command int_of service lines = validate_systemd_service service >>= λ s.
    bounded_int int_of lines 1 200 >>= λ n. ok (service_logs_text s n)

unfoldable pub validate_configured_minion : Json → List String → Result Refusal String
validate_configured_minion (str s) allowed =
    if any (str_eq s) allowed then ok s else err value_error
validate_configured_minion _ allowed = err value_error
