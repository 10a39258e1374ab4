-- ===== src/Detector/BlindSpots/Cover.antt =====
-- Which exporters `telemetry_anomalies` reports (uyuni_ai_agent/anomaly_detector.py).
use Prim.Native.String.{◌++◌ as concat}
use uyuni_ai.Common.{
  ◌≡◌, refl, ◌⊎◌, inl, inr, Option, none, some, List, [], ◌∷◌, String, arith, on_option, on_list,
}
use uyuni_ai.Common.Result.{Returns, Returns-with}
use uyuni_ai.Telemetry.{Observation}
use uyuni_ai.Anomaly.{Anomaly}
use uyuni_ai.Detector.BlindSpots.{
  Required, required_telemetry, observed, failures_of, telemetry_anomaly, of_exporter,
  exporter_anomaly, anomalies_from, telemetry_anomalies,
}
use uyuni_ai.Detector.BlindSpots.Judged.{IsHealthy, IsBlind, Judged, failures-Judged}

-- an exporter that has no observation, or whose required queries are all ok
abbrev pub Quiet : Required → List Observation → Type 0
Quiet required own = (own ≡ []) ⊎ IsHealthy required own

-- an exporter that is not healthy, and the anomaly that reports its failures
abbrev pub Reports : String → Required → List Observation → Anomaly → Type 0
Reports minion_id required own a =
    (first : Observation) × (others : List Observation) × (failures : List Observation) × (own
      ≡ first ∷ others)
    × (a ≡ telemetry_anomaly minion_id required.exporter first.target failures)
    × IsBlind required own failures

-- The anomalies are those of the exporters that are not quiet, one for each and in their order.
abbrev pub Covers : String → List Observation → List Required → List Anomaly → Type 0
Covers minion_id known [] found = found ≡ []
Covers minion_id known (required ∷ more) found =
    (Quiet required (of_exporter required.exporter known) × Covers minion_id known more found)
    ⊎ ((a : Anomaly) × (rest : List Anomaly) × (found ≡ a ∷ rest)
        × Reports minion_id required (of_exporter required.exporter known) a
        × Covers minion_id known more rest)

-- the anomaly of one exporter, if it has one
abbrev Found : String → Required → List Observation → Option Anomaly → Type 0
Found minion_id required own none = Quiet required own
Found minion_id required own (some a) = Reports minion_id required own a

report-Found :
    (minion_id : String) (required : Required) (first : Observation)
    (others failures : List Observation)
    → Judged required (first ∷ others) failures
    → Found minion_id required (first ∷ others) (
        on_list failures none
          λ f fs. some (telemetry_anomaly minion_id required.exporter first.target (f ∷ fs)))
report-Found minion_id required first others [] (inl (h, e)) = inr h
report-Found minion_id required first others [] (inr b) = absurd (omega (arith, b.some_failure))
report-Found minion_id required first others (f ∷ fs) (inl (h, e)) = cc
report-Found minion_id required first others (f ∷ fs) (inr b) =
    (first, others, f ∷ fs, refl, refl, b)

exporter-Found :
    (minion_id : String) (required : Required) (own : List Observation)
    → Returns (Found minion_id required own) (exporter_anomaly minion_id required own)
unfolding exporter_anomaly
exporter-Found minion_id required [] = inl refl
exporter-Found minion_id required (first ∷ others) =
    Returns-with (Judged required (first ∷ others)) (Found minion_id required (first ∷ others))
      (failures_of required.exporter required.names (first ∷ others)
        (observed (concat required.exporter "_up") (first ∷ others)))
      _ (failures-Judged required (first ∷ others) _ refl)
      (λ failures j. report-Found minion_id required first others failures j)

add-Covers :
    (minion_id : String) (known : List Observation) (required : Required) (more : List Required)
    (o : Option Anomaly) (rest : List Anomaly)
    → Found minion_id required (of_exporter required.exporter known) o
    → Covers minion_id known more rest
    → Covers minion_id known (required ∷ more) (on_option o rest (λ a. a ∷ rest))
add-Covers minion_id known required more none rest f c = inl (f, c)
add-Covers minion_id known required more (some a) rest f c = inr (a, rest, refl, f, c)

anomalies-Covers :
    (minion_id : String) (known : List Observation) (more : List Required)
    → Returns (Covers minion_id known more) (anomalies_from minion_id known more)
unfolding anomalies_from
anomalies-Covers minion_id known [] = refl
anomalies-Covers minion_id known (required ∷ more) =
    Returns-with (Found minion_id required (of_exporter required.exporter known)) _
      (exporter_anomaly minion_id required (of_exporter required.exporter known)) _
      (exporter-Found minion_id required (of_exporter required.exporter known))
      (λ found f.
        Returns-with (Covers minion_id known more) (Covers minion_id known (required ∷ more))
          (anomalies_from minion_id known more) _ (anomalies-Covers minion_id known more)
          (λ rest c. add-Covers minion_id known required more found rest f c))

-- If the check of the telemetry returns, it leaves no blind spot and invents none: it reports exactly
-- the exporters of the snapshot that are not healthy, one warning for each, in the order node,
-- Apache, PostgreSQL. An exporter is healthy if the query of its target's health is ok and says 1,
-- and each of its required queries is ok. A report names at least one failure, and none of its
-- failures has the status ok.
pub telemetry-Covers :
    (minion_id : String) (known : List Observation)
    → Returns (Covers minion_id known required_telemetry) (telemetry_anomalies known minion_id)
unfolding telemetry_anomalies
telemetry-Covers minion_id known = anomalies-Covers minion_id known required_telemetry
