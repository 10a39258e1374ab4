-- ===== src/Detector/Services/Found.antt =====
-- The anomalies that the checks over Salt can give (uyuni_ai_agent/anomaly_detector.py).
use package.text.Mathlib.Text.{◌==◌ as str_eq, starts_with}
use uyuni_ai.Common.{
  ◌≡◌, refl, ◌⊎◌, inl, inr, true, not, ◌&&◌, ◌||◌, List, [], ◌∷◌, map, on_option, subst, String,
  arith, if◌then◌else◌, if_cases, on_list_cases, Bool-cases,
}
use uyuni_ai.Common.Lists.{All, filter}
use uyuni_ai.Common.Lines.{strip_text, splitlines, ends_with, split_words}
use uyuni_ai.Detector.Services.{
  Output, falsehood, nothing, output, unexpected, unmarked, FailedService, ServiceMonitoring,
  unhealthy, service_of, services_of, parse_failed_systemd_services, salt_inspection_failure,
  salt_telemetry_anomaly, service_anomaly, is_ignored, service_anomalies, check_failed_services,
}

-- a loaded service that has failed or restarts again and again
abbrev pub IsUnhealthy : FailedService → Type 0
IsUnhealthy s =
    (ends_with s.name ".service" ≡ true)
    × ((str_eq s.active_state "failed" ≡ true)
        ⊎ ((str_eq s.active_state "activating" ≡ true)
            × (str_eq s.sub_state "auto-restart" ≡ true)))

unhealthy-All :
    (unit load active sub description : String)
    → All IsUnhealthy (unhealthy unit load active sub description)
unfolding unhealthy
unhealthy-All unit load active sub description =
    if_cases (λ (xs : List FailedService). All IsUnhealthy xs)
      (ends_with unit ".service"
        && (str_eq load "loaded"
            && (str_eq active "failed"
                || (str_eq active "activating" && str_eq sub "auto-restart"))))
      (λ h. ((ground arith, by_state h), tt)) (λ _. tt)
  where
    by_state :
        (ends_with unit ".service"
            && (str_eq load "loaded"
                && (str_eq active "failed"
                    || (str_eq active "activating" && str_eq sub "auto-restart"))))
          ≡ true
        → (str_eq active "failed" ≡ true)
          ⊎ ((str_eq active "activating" ≡ true) × (str_eq sub "auto-restart" ≡ true))
    by_state h = elim (Bool-cases (str_eq active "failed")) [
      | inl e ↦ inl e
      | inr e ↦ inr (ground arith, ground arith)
    ]

service_of-All : (words : List String) → All IsUnhealthy (service_of words)
unfolding service_of
service_of-All (unit ∷ load ∷ active ∷ sub ∷ []) = unhealthy-All unit load active sub unit
service_of-All (unit ∷ load ∷ active ∷ sub ∷ description ∷ _) =
    unhealthy-All unit load active sub description
service_of-All _ = tt

services_of-All : (lines : List String) → All IsUnhealthy (services_of lines)
unfolding services_of
services_of-All [] = tt
services_of-All (line ∷ lines) =
    on_list_cases (λ (xs : List FailedService). All IsUnhealthy xs)
      (service_of (split_words 4 (unmarked line))) (λ _. services_of-All lines)
      (λ s rest h. (
        first_of s rest
            (subst (All IsUnhealthy) h (service_of-All (split_words 4 (unmarked line)))),
        services_of-All lines,
      ))
  where
    first_of :
        (s : FailedService) (rest : List FailedService) → All IsUnhealthy (s ∷ rest) → IsUnhealthy s
    first_of s rest (u, _) = u

pub parse-All : (out : Output) → All IsUnhealthy (parse_failed_systemd_services out)
unfolding parse_failed_systemd_services
parse-All falsehood = tt
parse-All nothing = tt
parse-All (unexpected _) = tt
parse-All (output said) =
    if_cases (λ (xs : List FailedService). All IsUnhealthy xs)
      (str_eq (strip_text said) "" || starts_with (strip_text said) "Salt API call failed:")
      (λ _. tt) (λ _. services_of-All (splitlines (strip_text said)))

service_anomalies-map :
    (minion_id : String) (ignored : List String) (found : List FailedService)
    → service_anomalies minion_id ignored found
      ≡ map (service_anomaly minion_id) (filter (λ s. not (is_ignored ignored s.name)) found)
unfolding service_anomalies
service_anomalies-map minion_id ignored [] = refl
service_anomalies-map minion_id ignored (s ∷ rest) =
    ground (arith, service_anomalies-map minion_id ignored rest)

-- The check of the services gives nothing if it is switched off. If what Salt returned is a failure,
-- it gives one warning that the telemetry is not available, and no service counts as down. Else it
-- gives one critical anomaly for each unit of the output that is not ignored, in their order, and each
-- unit is a loaded service that has failed or restarts again and again.
pub check_failed_services-Judged :
    (minion_id : String) (out : Output) (config : ServiceMonitoring)
    → (check_failed_services minion_id out config ≡ (
        if not config.enabled
        then []
        else on_option
            (salt_inspection_failure out)
            (map (service_anomaly minion_id) (
              filter
                (λ s. not (is_ignored config.ignored_units s.name))
                (parse_failed_systemd_services out)))
            (λ failure. salt_telemetry_anomaly minion_id "systemd_service_discovery" failure ∷ [])))
      × All IsUnhealthy (parse_failed_systemd_services out)
unfolding check_failed_services
check_failed_services-Judged minion_id out config = (
  rw (service_anomalies-map minion_id config.ignored_units (parse_failed_systemd_services out))
      refl,
  parse-All out,
)
