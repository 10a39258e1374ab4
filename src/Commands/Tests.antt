-- ===== src/Commands/Tests.antt =====
-- Commands for a ping, for the logs of a service and for a list of processes (validation.py, systemd.py
-- and salt_api.py). No text is an IP address or a number here.
use uyuni_ai.Common.{ℕ, Bool, false, refl, Option, none, some, List, [], ◌∷◌, String}
use uyuni_ai.Common.Text.{codes}
use uyuni_ai.Common.Int.{ℤ, pos, finite, infinity}
use uyuni_ai.Common.Json.{Json, str, num}
use uyuni_ai.Common.Result.{Result, ok, err}
use uyuni_ai.Common.Shell.{decimal_on, word, Part, shell_words, quote}
use uyuni_ai.Common.Strip.{strip}
use uyuni_ai.Commands.{
  Refusal, value_error, overflow_error, bounded_int, whole_in_range, in_range, drop_dots, labels_of,
  last_char, is_host_label, are_host_labels, checked_target, validate_network_target, ping_text,
  build_ping_command, process_list_text, build_process_list_command, is_unit_char, starts_with,
  is_service_name, normalized, is_full_name, validate_service_text, validate_systemd_service,
  service_logs_text, service_logs_command, validate_configured_minion,
}
use uyuni_ai.Commands.Words.{IsPing, build_ping_command-IsPing}
use uyuni_ai.Commands.Reports.{IsLogs, service_logs_command-IsLogs}

abbrev no_ip : List ℕ → Bool
no_ip t = false

abbrev no_number : String → Option ℤ
no_number s = none

abbrev three : Json
three = num (finite (pos 3000))

-- the dot that ends a name is cut off
ping_db1 :
    Path
      (Result Refusal (List ℕ))
      (build_ping_command no_ip no_number (str " db1.example. ") three)
      (ok (codes "ping -c 3 -- db1.example"))
unfolding build_ping_command validate_network_target checked_target are_host_labels is_host_label
    last_char labels_of drop_dots strip bounded_int whole_in_range in_range ping_text decimal_on
ping_db1 = refl

-- an operator in a target, and a count that is no finite number
ping_refused :
    Path
      (Result Refusal (List ℕ))
      (build_ping_command no_ip no_number (str "db1;reboot") three)
      (err value_error)
unfolding build_ping_command validate_network_target checked_target are_host_labels is_host_label
    last_char labels_of drop_dots strip
ping_refused = refl

endless_count :
    Path (Result Refusal ℕ) (bounded_int no_number (num infinity) 1 5) (err overflow_error)
unfolding bounded_int
endless_count = refl

-- what a shell reads in a quoted text, and where a quote is left open
shell_quoted :
    Path
      (Option (List Part))
      (shell_words (quote (codes "it's; $x")))
      (some (word (codes "it's; $x") ∷ []))
unfolding shell_words
shell_quoted = refl

shell_open : Path (Option (List Part)) (shell_words (codes "echo 'x")) none
unfolding shell_words
shell_open = refl

processes :
    Path
      (Result Refusal (List ℕ))
      (build_process_list_command no_number "%cpu" (num (finite (pos 10000))))
      (ok (codes "ps aux --sort=-%cpu | head -n 11"))
unfolding build_process_list_command bounded_int whole_in_range in_range process_list_text
    decimal_on
processes = refl

minion_glob :
    Path
      (Result Refusal String)
      (validate_configured_minion (str "*") ("web1" ∷ []))
      (err value_error)
unfolding validate_configured_minion
minion_glob = refl

-- the common name of a service gets its suffix
logs_apache :
    Path
      (Result Refusal (List ℕ))
      (service_logs_command no_number (str "apache2") (num (finite (pos 50000))))
      (ok (codes "journalctl -u apache2.service -n 50 --no-pager"))
unfolding service_logs_command validate_systemd_service validate_service_text is_full_name
    normalized is_service_name starts_with is_unit_char bounded_int whole_in_range in_range
    service_logs_text decimal_on
logs_apache = refl

build_ping_command-IsPing_example :
    IsPing no_ip
      (validate_network_target no_ip (str "db1.example"))
      (bounded_int no_number three 1 5)
      (build_ping_command no_ip no_number (str "db1.example") three)
build_ping_command-IsPing_example =
    build_ping_command-IsPing no_ip no_number (str "db1.example") three

service_logs_command-IsLogs_example :
    IsLogs
      (validate_systemd_service (str "apache2"))
      (bounded_int no_number (num (finite (pos 50000))) 1 200)
      (service_logs_command no_number (str "apache2") (num (finite (pos 50000))))
service_logs_command-IsLogs_example =
    service_logs_command-IsLogs no_number (str "apache2") (num (finite (pos 50000)))
