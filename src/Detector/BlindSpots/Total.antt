-- ===== src/Detector/BlindSpots/Total.antt =====
-- The check of a snapshot's telemetry never raises (`telemetry_anomalies` of
-- uyuni_ai_agent/anomaly_detector.py, on what `get_all_metrics` of
-- uyuni_ai_agent/prometheus_client.py returns).
use Prim.Native.String.{◌++◌ as concat}
use package.text.Mathlib.Text.{◌==◌ as str_eq}
use package.text.Mathlib.TextEquality.{eq_iff}
use uyuni_ai.Common.{
  ℕ, ◌≡◌, ◌≢◌, refl, sym, ap, ◌∙◌, subst, inl, inr, Bool, true, not, Option, none, some, List, [],
  ◌∷◌, String, arith, if_cases, is_some,
}
use uyuni_ai.Common.Lists.{All, filter}
use uyuni_ai.Common.Int.{ℤ, pos, negsuc}
use uyuni_ai.Common.Json.{Raised}
use uyuni_ai.Common.Result.{Result, ok, ◌>>=◌, Returns, Returns-map}
use uyuni_ai.Evidence.Records.{is_ok}
use uyuni_ai.Telemetry.{Observation}
use uyuni_ai.Anomaly.{Anomaly}
use uyuni_ai.Prometheus.{Client}
use uyuni_ai.Prometheus.Snapshot.{Metrics, get_all_metrics}
use uyuni_ai.Prometheus.Snapshot.Valued.{Valued}
use uyuni_ai.Prometheus.Snapshot.Observations.{MetricsValued, snapshot-Valued}
use uyuni_ai.Detector.BlindSpots.{
  Required, required_telemetry, observed, is_up, failures_of, of_exporter, exporter_anomaly,
  anomalies_from, telemetry_anomalies,
}
use uyuni_ai.Detector.BlindSpots.Cover.{Covers, telemetry-Covers}

-- a call that returns
abbrev pub Total {ℓ} : {E A : Type ℓ} → Result E A → Type ℓ
Total {A} r = (a : A) × Path (Result _ A) r (ok a)

Total-bind {ℓ} :
    {E A B : Type ℓ} (r : Result E A) (f : A → Result E B)
    → Total r
    → ((a : A) → Total (f a))
    → Total (r >>= f)
Total-bind r f (a, h) k = let (b, h') = k a in (b, ap (λ r. r >>= f) h ∙ h')

filter-All :
    (P : Observation → Type 0) (p : Observation → Bool) (xs : List Observation)
    → All P xs
    → All P (filter p xs)
filter-All P p [] u = tt
filter-All P p (x ∷ xs) (q, u) =
    if_cases (λ ys. All P ys) (p x) (λ _. (q, filter-All P p xs u)) (λ _. filter-All P p xs u)

some_inj : {A : Type 0} {a b : A} → some a ≡ some b → a ≡ b
some_inj h = cc

observed-Valued :
    (name : String) (known : List Observation) (o : Observation)
    → All Valued known
    → observed name known ≡ some o
    → Valued o × (o.name ≡ name)
unfolding observed
observed-Valued name [] o u h = cc
observed-Valued name (x ∷ xs) o (v, u) h =
    if_cases (λ (r : Option Observation). r ≡ some o → Valued o × (o.name ≡ name))
      (str_eq x.name name)
      (λ e k.
        subst (λ (z : Observation). Valued z × (z.name ≡ name)) (some_inj k)
          (v, (eq_iff x.name name).0 e))
      (λ _ k. observed-Valued name xs o u k) h

is_up-Total : (v : Option ℤ) → is_some v ≡ true → Total (is_up v)
unfolding is_up
is_up-Total none h = cc
is_up-Total (some (pos n)) h = (_, refl)
is_up-Total (some (negsuc n)) h = (_, refl)

-- a name that is not of a listing
abbrev Numeric : String → Type 0
Numeric name = name ≢ "filesystems"

failures-Total :
    (exporter : String) (names : List String) (known : List Observation) (o : Option Observation)
    → Numeric (concat exporter "_up")
    → All Valued known
    → observed (concat exporter "_up") known ≡ o
    → Total (failures_of exporter names known o)
unfolding failures_of
failures-Total exporter names known none n u h = (_, refl)
failures-Total exporter names known (some up) n u h =
    if_cases (λ (r : Result Raised (List Observation)). Total r) (not (is_ok up.status))
      (λ _. (_, refl))
      (λ fine.
        Total-bind (is_up up.value) _
          (is_up-Total up.value (has_value (ground arith) (observed-Valued _ known up u h)))
          (λ up_now. (_, refl)))
  where
    has_value :
        is_ok up.status ≡ true
        → Valued up × (up.name ≡ concat exporter "_up")
        → is_some up.value ≡ true
    has_value fine (inl e, e') = absurd (n (sym e' ∙ e))
    has_value fine (inr (inl bad), e') = ground arith
    has_value fine (inr (inr some_value), e') = some_value

exporter-Total :
    (minion_id : String) (required : Required) (own : List Observation)
    → Numeric (concat required.exporter "_up")
    → All Valued own
    → Total (exporter_anomaly minion_id required own)
unfolding exporter_anomaly
exporter-Total minion_id required [] n u = (_, refl)
exporter-Total minion_id required (first ∷ others) n u =
    Total-bind
      (failures_of required.exporter required.names (first ∷ others)
        (observed (concat required.exporter "_up") (first ∷ others)))
      _ (failures-Total required.exporter required.names (first ∷ others) _ n u refl)
      (λ failures. (_, refl))

anomalies-Total :
    (minion_id : String) (known : List Observation) (more : List Required)
    → All (λ (r : Required). Numeric (concat r.exporter "_up")) more
    → All Valued known
    → Total (anomalies_from minion_id known more)
unfolding anomalies_from of_exporter
anomalies-Total minion_id known [] n u = (_, refl)
anomalies-Total minion_id known (required ∷ more) (n, ns) u =
    Total-bind (exporter_anomaly minion_id required (of_exporter required.exporter known)) _
      (exporter-Total minion_id required _ n
        (filter-All Valued (λ o. str_eq o.exporter required.exporter) known u))
      (λ found.
        Total-bind (anomalies_from minion_id known more) _
          (anomalies-Total minion_id known more ns u) (λ rest. (_, refl)))

-- the anomalies of a telemetry, and what they cover
abbrev pub Answers : String → Metrics → Type 0
Answers minion_id m =
    (found : List Anomaly) × Path (Result Raised (List Anomaly))
      (telemetry_anomalies m.telemetry minion_id) (ok found)
    × Covers minion_id m.telemetry required_telemetry found

required-Numeric : All (λ (r : Required). Numeric (concat r.exporter "_up")) required_telemetry
unfolding required_telemetry
required-Numeric = (λ e. cc, (λ e. cc, (λ e. cc, tt)))

pub metrics-Answers : (minion_id : String) (m : Metrics) → MetricsValued m → Answers minion_id m
unfolding telemetry_anomalies
metrics-Answers minion_id m v =
    let (found, h) = anomalies-Total minion_id m.telemetry required_telemetry required-Numeric v in
    (
      found,
      h,
      subst (Returns (Covers minion_id m.telemetry required_telemetry)) h
          (telemetry-Covers minion_id m.telemetry),
    )

-- On every snapshot that the queries return, the check of the telemetry returns too, and reports
-- exactly the exporters with observations that are not healthy: a query that failed is never taken
-- for a value, and no answer of Prometheus, however formed, makes the check itself fail.
pub snapshot-Answers :
    (instance minion_id : String) (client : Client) (url : String) (max_age : Option ℕ)
    (apache_instance postgres_instance : Option String)
    → Returns
        (Answers minion_id)
        (get_all_metrics instance client url max_age apache_instance postgres_instance)
snapshot-Answers instance minion_id client url max_age apache_instance postgres_instance =
    Returns-map MetricsValued (Answers minion_id) _ (metrics-Answers minion_id)
      (snapshot-Valued instance client url max_age apache_instance postgres_instance)
