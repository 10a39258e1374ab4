-- ===== src/Prometheus/Readings.antt =====
-- What stands behind a reading of one number (`_scalar_reading` of
-- uyuni_ai_agent/prometheus_client.py).
use uyuni_ai.Common.{
  ℕ, ◌≡◌, refl, sym, subst, ◌⊎◌, inl, inr, true, false, not, Option, none, some, String, arith,
  if_cases, is_some, ap,
}
use uyuni_ai.Common.Int.{ℤ, Float, finite, infinity, negative_infinity, nan}
use uyuni_ai.Common.Json.{
  Raised, attribute_error, key_error, index_error, type_error, value_error, overflow_error,
}
use uyuni_ai.Common.Result.{Result, ok, err, ◌>>=◌, Returns, Returns-bind}
use uyuni_ai.Evidence.Records.{is_ok}
use uyuni_ai.Prometheus.{Client, PrometheusQueryResult, MetricReading}
use uyuni_ai.Prometheus.Measured.{IsAnswered, Queried, query-Queried}
use uyuni_ai.Prometheus.Query.{
  query_prometheus, scalar_reading, reading_from_first_sample, reading_of_float, no_value,
  first_sample, sample_value,
}

-- the finite value of the first sample, and the answer that it stands in
pub record IsMeasured (client : Client) (query : String) (max_age : Option ℕ)
    (reading : MetricReading ℤ) : Type 0 where
  pub result : PrometheusQueryResult
  pub measured : ℤ
  pub answered : IsAnswered client query max_age result
  pub first :
      Path (Result Raised Float) (sample_value client answered.fresh.sample) (ok (finite measured))
  pub value : reading.value ≡ some measured
  pub same_time : reading.observed_at ≡ result.observed_at

-- a reading without a value, and why there is none
abbrev pub Unavailable : {V : Type 0} → MetricReading V → Type 0
Unavailable r = (is_ok r.status ≡ false) × (r.value ≡ none) × (is_some r.error ≡ true)

abbrev pub Reads : Client → String → Option ℕ → MetricReading ℤ → Type 0
Reads client q max_age r =
    Unavailable r ⊎ ((is_ok r.status ≡ true) × (r.error ≡ none) × IsMeasured client q max_age r)

reading_of_float-Reads :
    (client : Client) (q : String) (max_age : Option ℕ) (result : PrometheusQueryResult)
    (name target exporter : String) (x : Result Raised Float)
    → (a : IsAnswered client q max_age result)
    → Path (Result Raised Float) (sample_value client a.fresh.sample) x
    → Returns (Reads client q max_age) (reading_of_float result.observed_at name target exporter x)
unfolding reading_of_float no_value
reading_of_float-Reads client q max_age result name target exporter (ok (finite v)) a h = inr (
  refl,
  refl,
  record { result = result; measured = v; answered = a; first = h; value = refl; same_time = refl },
)
reading_of_float-Reads client q max_age result name target exporter (ok infinity) a h =
    inl (refl, refl, refl)
reading_of_float-Reads client q max_age result name target exporter (ok negative_infinity) a h =
    inl (refl, refl, refl)
reading_of_float-Reads client q max_age result name target exporter (ok nan) a h =
    inl (refl, refl, refl)
reading_of_float-Reads client q max_age result name target exporter (err overflow_error) a h = tt
reading_of_float-Reads client q max_age result name target exporter (err attribute_error) a h =
    inl (refl, refl, refl)
reading_of_float-Reads client q max_age result name target exporter (err key_error) a h =
    inl (refl, refl, refl)
reading_of_float-Reads client q max_age result name target exporter (err index_error) a h =
    inl (refl, refl, refl)
reading_of_float-Reads client q max_age result name target exporter (err type_error) a h =
    inl (refl, refl, refl)
reading_of_float-Reads client q max_age result name target exporter (err value_error) a h =
    inl (refl, refl, refl)

reading-Reads :
    (client : Client) (q : String) (max_age : Option ℕ) (result : PrometheusQueryResult)
    (name target exporter : String)
    → Queried client q max_age result
    → Returns
        (Reads client q max_age)
        (reading_from_first_sample client result name target exporter)
unfolding reading_from_first_sample no_value first_sample
reading-Reads client q max_age result name target exporter (inl (bad, why)) =
    if_cases (λ (r : Result Raised (MetricReading ℤ)). Returns (Reads client q max_age) r)
      (not (is_ok result.status)) (λ _. inl (bad, refl, why)) (λ e. absurd (ground arith))
reading-Reads client q max_age result name target exporter (inr a) =
    if_cases (λ (r : Result Raised (MetricReading ℤ)). Returns (Reads client q max_age) r)
      (not (is_ok result.status)) (λ e. absurd (ground (arith, a.is_usable)))
      (λ _.
        reading_of_float-Reads client q max_age result name target exporter _ a
          (sym (ap (λ s. first_sample s >>= sample_value client) a.fresh.samples)))

-- A query of one number that returns gives a reading of one of two kinds. Without a value it has a
-- status that is not ok, and an error that says why. With a value its status is ok, and the value is
-- the finite number of the first series of an answer with status 200, whose JSON reports success
-- and whose newest sample is not older than the configured age.
pub scalar_reading-Reads :
    (client : Client) (q name target exporter url : String) (max_age : Option ℕ)
    → Returns (Reads client q max_age) (scalar_reading q name target exporter client url max_age)
unfolding scalar_reading
scalar_reading-Reads client q name target exporter url max_age =
    Returns-bind _ (query_prometheus q client url max_age) _ (λ result h.
      reading-Reads client q max_age result name target exporter
        (subst (Returns (Queried client q max_age)) h (query-Queried client url q max_age)))
