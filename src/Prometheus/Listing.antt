-- ===== src/Prometheus/Listing.antt =====
-- What a reading of the filesystems lists (`get_filesystem_usage_percent` of
-- uyuni_ai_agent/prometheus_client.py).
use package.text.Mathlib.Text.{◌==◌ as str_eq}
use uyuni_ai.Common.{
  ℕ, suc, ◌≤◌, ◌≡◌, refl, ap, sym, ◌∙◌, subst, ◌⊎◌, inl, inr, true, false, not, Option, none, some,
  List, [], ◌∷◌, String, arith, if_cases, on_option, on_option_cases,
}
use uyuni_ai.Common.Lists.{length}
use uyuni_ai.Common.Int.{pos, negsuc, Float, finite, infinity, negative_infinity, nan}
use uyuni_ai.Common.Json.{
  Json, null, bool, num, str, array, object, Items, no_items, item, Fields, Raised, attribute_error,
  key_error, index_error, type_error, value_error, overflow_error, get_of,
}
use uyuni_ai.Common.Result.{
  Result, ok, err, ok_inj, Returns, Returns-bind, Returns-with, Returns-map,
}
use uyuni_ai.Common.Text.{given}
use uyuni_ai.Evidence.Records.{is_ok}
use uyuni_ai.Detector.Thresholds.{Filesystem}
use uyuni_ai.Prometheus.{Client, PrometheusQueryResult, MetricReading}
use uyuni_ai.Prometheus.Measured.{Queried, query-Queried}
use uyuni_ai.Prometheus.Readings.{Unavailable}
use uyuni_ai.Prometheus.Query.{query_prometheus, no_value, sample_value}
use uyuni_ai.Prometheus.Filesystems.Order.{
  Ascending, sorted-Ascending, Rearranged, sorted-Rearranged,
}
use uyuni_ai.Prometheus.Filesystems.{
  plausible, filesystem_of, read_filesystem, filesystems_of, label_or_unknown, filesystem_query,
  sorted_filesystems, filesystem_reading, filesystem_result, get_filesystem_usage_percent, label,
}

-- the filesystem that a sample stands for: its labels, with a mount point that is not empty, and a
-- usage from 0 to 100 %
abbrev pub Entry : Client → Json → Filesystem → Type 0
Entry client sample fs =
    (metric : Fields) × (usage : ℕ) × (get_of "metric" sample ≡ ok (some (object metric)))
    × (given (label "mountpoint" metric) ≡ some fs.mountpoint)
    × (fs.device ≡ label_or_unknown "device" metric)
    × (fs.fstype ≡ label_or_unknown "fstype" metric)
    × (sample_value client sample ≡ ok (finite (pos usage)))
    × (usage ≤ 100000)
    × (fs.usage_percent ≡ some usage)

-- what comes of one sample: its filesystem, or nothing if it stands for none
abbrev OneSample : Client → Json → Option Filesystem → Type 0
OneSample client sample none = (fs : Filesystem) → Entry client sample fs → ⊥
OneSample client sample (some fs) = Entry client sample fs

-- the filesystems that the samples stand for, in their order
pub data Found (client : Client) : Items → List Filesystem → Type 0 where
  no_sample : Found client no_items []
  valid :
      (sample : Json) (fs : Filesystem) (rest : Items) (found : List Filesystem)
      → Entry client sample fs
      → Found client rest found
      → Found client (item sample rest) (fs ∷ found)
  invalid :
      (sample : Json) (rest : Items) (found : List Filesystem)
      → ((fs : Filesystem) → Entry client sample fs → ⊥)
      → Found client rest found
      → Found client (item sample rest) found

given-nonempty : (o : Option String) (s : String) → given o ≡ some s → str_eq s "" ≡ false
given-nonempty none s h = cc
given-nonempty (some t) s h = ground arith

plausible-is :
    (x : Float) (usage : ℕ) → plausible x ≡ some usage → (x ≡ finite (pos usage)) × (usage ≤ 100000)
unfolding plausible
plausible-is (finite (pos n)) usage h = (ap (λ k. finite (pos k)) (ground arith), ground arith)
plausible-is (finite (negsuc n)) usage h = cc
plausible-is infinity usage h = cc
plausible-is negative_infinity usage h = cc
plausible-is nan usage h = cc

plausible-bounded : (usage : ℕ) → usage ≤ 100000 → plausible (finite (pos usage)) ≡ some usage
unfolding plausible
plausible-bounded usage h = ground arith

same_labels :
    {m m' : Fields}
    → Path (Result Raised (Option Json)) (ok (some (object m))) (ok (some (object m')))
    → m ≡ m'
same_labels h = cc

no_some : {A : Type 0} {a : A} → none ≡ some a → ⊥
no_some h = cc

err_not_ok : {A : Type 0} {e : Raised} {a : A} → Path (Result Raised A) (err e) (ok a) → ⊥
err_not_ok h = cc

no_labels : {m : Fields} → Path (Result Raised (Option Json)) (ok none) (ok (some (object m))) → ⊥
no_labels h = cc

filesystem_of-OneSample :
    (client : Client) (sample : Json) (usage : Float) (metric : Fields)
    → Path (Result Raised (Option Json)) (get_of "metric" sample) (ok (some (object metric)))
    → Path (Result Raised Float) (sample_value client sample) (ok usage)
    → OneSample client sample (filesystem_of usage metric)
unfolding filesystem_of
filesystem_of-OneSample client sample usage metric m v =
    on_option_cases (OneSample client sample) (given (label "mountpoint" metric))
      (λ g fs (metric', u, m', l, d, f, v', b, e).
        no_some (sym g ∙ ap (λ k. given (label "mountpoint" k)) (same_labels (sym m ∙ m')) ∙ l))
      (λ mountpoint g.
        on_option_cases (OneSample client sample) (plausible usage)
          (λ h fs (metric', u, m', l, d, f, v', b, e).
            no_some (sym h ∙ ap plausible (ok_inj (sym v ∙ v')) ∙ plausible-bounded u b))
          (λ percent h. (
            metric,
            percent,
            m,
            g,
            refl,
            refl,
            v ∙ ap ok (plausible-is usage percent h).0,
            (plausible-is usage percent h).1,
            refl,
          )))

not_valid :
    (client : Client) (sample : Json) {e : Raised}
    → Path (Result Raised Float) (sample_value client sample) (err e)
    → (fs : Filesystem) → Entry client sample fs
    → ⊥
not_valid client sample v fs (metric', u, m', l, d, f, v', b, e') = err_not_ok (sym v ∙ v')

read-OneSample :
    (client : Client) (sample : Json) (metric : Option Json) (x : Result Raised Float)
    → Path (Result Raised (Option Json)) (get_of "metric" sample) (ok metric)
    → Path (Result Raised Float) (sample_value client sample) x
    → Returns (OneSample client sample) (read_filesystem metric x)
unfolding read_filesystem filesystem_of
read-OneSample client sample metric (err overflow_error) m v = tt
read-OneSample client sample metric (err attribute_error) m v = not_valid client sample v
read-OneSample client sample metric (err key_error) m v = not_valid client sample v
read-OneSample client sample metric (err index_error) m v = not_valid client sample v
read-OneSample client sample metric (err type_error) m v = not_valid client sample v
read-OneSample client sample metric (err value_error) m v = not_valid client sample v
read-OneSample client sample none (ok usage) m v =
    λ fs (metric', u, m', l, d, f, v', b, e'). no_labels (sym m ∙ m')
read-OneSample client sample (some (object labels)) (ok usage) m v =
    filesystem_of-OneSample client sample usage labels m v
read-OneSample client sample (some null) (ok usage) m v = tt
read-OneSample client sample (some (bool b)) (ok usage) m v = tt
read-OneSample client sample (some (num n)) (ok usage) m v = tt
read-OneSample client sample (some (str t)) (ok usage) m v = tt
read-OneSample client sample (some (array xs)) (ok usage) m v = tt

abbrev Finds : Client → Items → List Filesystem × ℕ → Type 0
Finds client samples found = Found client samples found.0

add-Finds :
    (client : Client) (sample : Json) (rest : Items) (o : Option Filesystem)
    (others : List Filesystem × ℕ)
    → OneSample client sample o
    → Finds client rest others
    → Finds client
        (item sample rest)
        (on_option o (others.0, suc others.1) (λ fs. (fs ∷ others.0, others.1)))
add-Finds client sample rest none others one f = invalid sample rest others.0 one f
add-Finds client sample rest (some fs) others one f = valid sample fs rest others.0 one f

filesystems-Finds :
    (client : Client) (samples : Items)
    → Returns (Finds client samples) (filesystems_of client samples)
unfolding filesystems_of
filesystems-Finds client no_items = no_sample
filesystems-Finds client (item sample rest) =
    Returns-bind (Finds client (item sample rest)) (get_of "metric" sample) _ λ metric m.
      Returns-with (OneSample client sample) (Finds client (item sample rest)) _ _
        (read-OneSample client sample metric (sample_value client sample) m refl)
        (λ found one.
          Returns-with (Finds client rest) (Finds client (item sample rest)) _ _
            (filesystems-Finds client rest)
            (λ others f. add-Finds client sample rest found others one f))

-- a usable reading of the filesystems that the samples stand for
pub record IsListing (client : Client) (samples : Items) (reading : MetricReading (List Filesystem))
    : Type 0 where
  pub found : List Filesystem
  pub listed : List Filesystem
  pub stand_for : Found client samples found
  pub usable : is_ok reading.status ≡ true
  pub value : reading.value ≡ some listed
  pub rearranged : Rearranged found listed
  pub ascending : Ascending listed
  pub nonempty : 1 ≤ length found

-- a reading of filesystems without a value, or a listing of an answer's samples
abbrev pub Lists : Client → Items → MetricReading (List Filesystem) → Type 0
Lists client samples r = Unavailable r ⊎ IsListing client samples r

reading-Lists :
    (client : Client) (at : Option Float) (instance : String) (samples : Items)
    (found : List Filesystem × ℕ)
    → Finds client samples found
    → Lists client samples (filesystem_reading at instance found)
unfolding filesystem_reading no_value
reading-Lists client at instance samples ([], wrong) f = inl (refl, refl, refl)
reading-Lists client at instance samples (fs ∷ rest, wrong) f = inr (record {
  found = fs ∷ rest;
  listed = sorted_filesystems (fs ∷ rest);
  stand_for = f;
  usable = refl;
  value = refl;
  rearranged = sorted-Rearranged (fs ∷ rest);
  ascending = sorted-Ascending (fs ∷ rest);
  nonempty = omega arith;
})

result-Lists :
    (client : Client) (instance q : String) (max_age : Option ℕ) (result : PrometheusQueryResult)
    → Queried client q max_age result
    → Returns (Lists client result.samples) (filesystem_result client instance result)
unfolding filesystem_result no_value
result-Lists client instance q max_age result (inl (bad, why)) =
    if_cases
      (λ (r : Result Raised (MetricReading (List Filesystem))).
        Returns (Lists client result.samples) r)
      (not (is_ok result.status)) (λ _. inl (bad, refl, why)) (λ e. absurd (ground arith))
result-Lists client instance q max_age result (inr a) =
    if_cases
      (λ (r : Result Raised (MetricReading (List Filesystem))).
        Returns (Lists client result.samples) r)
      (not (is_ok result.status)) (λ e. absurd (ground (arith, a.is_usable)))
      (λ _.
        Returns-with (Finds client result.samples) (Lists client result.samples)
          (filesystems_of client result.samples) _ (filesystems-Finds client result.samples)
          (λ found f. reading-Lists client result.observed_at instance result.samples found f))

-- a reading of what the query of the filesystems returned
abbrev pub ListsAnswer :
    String → Client → String → Option ℕ → MetricReading (List Filesystem) → Type 0
ListsAnswer instance client url max_age r =
    (result : PrometheusQueryResult) × Path (Result Raised PrometheusQueryResult)
      (query_prometheus (filesystem_query instance) client url max_age) (ok result)
    × Lists client result.samples r

-- The reading of the filesystems either has no value, with a status and an error that say so, or it
-- lists exactly the filesystems that the samples of the answer to its query stand for, at least one,
-- each once for its sample, in the order of their mount points. A sample stands for a filesystem if
-- it has a mount point that is not empty and a usage from 0 to 100 %.
pub get_filesystem-Lists :
    (instance : String) (client : Client) (url : String) (max_age : Option ℕ)
    → Returns
        (ListsAnswer instance client url max_age)
        (get_filesystem_usage_percent instance client url max_age)
unfolding get_filesystem_usage_percent
get_filesystem-Lists instance client url max_age =
    let q = filesystem_query instance in
    Returns-bind (ListsAnswer instance client url max_age) (query_prometheus q client url max_age) _
      λ result asked.
        let answer : Queried client q max_age result =
          subst (Returns (Queried client q max_age)) asked (query-Queried client url q max_age) in
        Returns-map (Lists client result.samples) (ListsAnswer instance client url max_age) _
          (λ r l. (result, asked, l)) (result-Lists client instance q max_age result answer)
