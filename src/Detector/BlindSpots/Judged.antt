-- ===== src/Detector/BlindSpots/Judged.antt =====
-- What the failures of one exporter say (`telemetry_anomalies` of
-- uyuni_ai_agent/anomaly_detector.py).
use Prim.Native.String.{◌++◌ as concat}
use uyuni_ai.Common.{
  ◌≤◌, ==→eq, ◌≡◌, refl, sym, ap, ◌∙◌, subst, ◌⊎◌, inl, inr, Bool, true, false, not, Option, none,
  some, List, [], ◌∷◌, String, arith, if◌then◌else◌, if_cases, on_option_cases,
}
use uyuni_ai.Common.Lists.{All, length}
use uyuni_ai.Common.Int.{ℤ, pos, negsuc}
use uyuni_ai.Common.Json.{Raised}
use uyuni_ai.Common.Result.{Result, ok, ok_inj, Returns, Returns-bind}
use uyuni_ai.Evidence.Records.{EvidenceStatus, is_ok}
use uyuni_ai.Telemetry.{Observation, target_down}
use uyuni_ai.Detector.BlindSpots.{Required, observed, required_failures, is_up, failures_of}

-- a query whose observation is ok
abbrev pub Seen : List Observation → String → Type 0
Seen known name = (o : Observation) × (observed name known ≡ some o) × (is_ok o.status ≡ true)

-- the target is up, and its required queries are ok
pub record IsHealthy (required : Required) (known : List Observation) : Type 0 where
  pub up : Observation
  pub up_seen : observed (concat required.exporter "_up") known ≡ some up
  pub up_ok : is_ok up.status ≡ true
  pub up_value : up.value ≡ some (pos 1000)
  pub names_seen : All (Seen known) required.names

-- the failures of an exporter that is not healthy
pub record IsBlind (required : Required) (known failures : List Observation) : Type 0 where
  pub some_failure : 1 ≤ length failures
  pub all_failed : All (λ o. is_ok o.status ≡ false) failures
  pub unhealthy : ¬ IsHealthy required known

abbrev pub Judged : Required → List Observation → List Observation → Type 0
Judged required known failures =
    (IsHealthy required known × (failures ≡ [])) ⊎ IsBlind required known failures

some_inj : {A : Type 0} {a b : A} → some a ≡ some b → a ≡ b
some_inj h = cc

-- the failures of the names: none, if all are seen
abbrev NamesJudged : List String → List Observation → List Observation → Type 0
NamesJudged names known failures =
    (All (Seen known) names × (failures ≡ []))
    ⊎ ((1 ≤ length failures)
        × All (λ o. is_ok o.status ≡ false) failures
        × (¬ All (Seen known) names))

required_failures-Judged :
    (names : List String) (known : List Observation)
    → NamesJudged names known (required_failures names known)
unfolding required_failures
required_failures-Judged [] known = inl (tt, refl)
required_failures-Judged (name ∷ names) known =
    on_option_cases (λ (fs : List Observation). NamesJudged (name ∷ names) known fs)
      (observed name known)
      (λ absent. inr (
        omega arith,
        (refl, rest_failed (required_failures-Judged names known)),
        λ (s, _). missing s absent,
      ))
      (λ o found.
        if_cases (λ (fs : List Observation). NamesJudged (name ∷ names) known fs) (is_ok o.status)
          (λ fine. seen o found fine (required_failures-Judged names known))
          (λ bad. inr (
            omega arith,
            (bad, rest_failed (required_failures-Judged names known)),
            λ (s, _). failed s o found bad,
          )))
  where
    rest_failed :
        {fs : List Observation} → NamesJudged names known fs → All (λ o. is_ok o.status ≡ false) fs
    rest_failed (inl (_, e)) = subst (All (λ o. is_ok o.status ≡ false)) (sym e) tt
    rest_failed (inr (_, a, _)) = a

    missing : Seen known name → observed name known ≡ none → ⊥
    missing (o, h, _) absent = cc

    failed :
        Seen known name
        → (o : Observation) → observed name known ≡ some o
        → is_ok o.status ≡ false
        → ⊥
    failed (o', h, s) o found bad = ground (arith, some_inj (sym h ∙ found))

    seen :
        (o : Observation)
        → observed name known ≡ some o
        → is_ok o.status ≡ true
        → {fs : List Observation} → NamesJudged names known fs
        → NamesJudged (name ∷ names) known fs
    seen o found fine (inl (a, e)) = inl (((o, found, fine), a), e)
    seen o found fine (inr (n, a, u)) = inr (n, a, λ (_, b). u b)

one_failure :
    (required : Required) (known : List Observation) (o : Observation)
    → is_ok o.status ≡ false
    → (¬ IsHealthy required known)
    → IsBlind required known (o ∷ [])
one_failure required known o bad u = record {
  some_failure = omega arith;
  all_failed = (bad, tt);
  unhealthy = u;
}

is_up-one : (v : Option ℤ) → Path (Result Raised Bool) (is_up v) (ok true) → v ≡ some (pos 1000)
unfolding is_up
is_up-one none h = cc
is_up-one (some (pos n)) h = ap (λ k. some (pos k)) (==→eq n 1000 (ok_inj h))
is_up-one (some (negsuc n)) h = cc

-- what a healthy exporter says of the target's health, if it is observed
up_of :
    (required : Required) (known : List Observation) (up : Observation)
    → observed (concat required.exporter "_up") known ≡ some up
    → IsHealthy required known
    → (is_ok up.status ≡ true) × (up.value ≡ some (pos 1000))
up_of required known up seen h =
    let e : h.up ≡ up = some_inj (sym h.up_seen ∙ seen) in
    (
      ap (λ (o : Observation). is_ok o.status) (sym e) ∙ h.up_ok,
      ap (λ (o : Observation). o.value) (sym e) ∙ h.up_value,
    )

is_up_down : (v : Option ℤ) → v ≡ some (pos 1000) → ¬ Path (Result Raised Bool) (is_up v) (ok false)
unfolding is_up
is_up_down v e h = cc

value-Judged :
    (required : Required) (known : List Observation) (up : Observation) (up_now : Bool)
    → observed (concat required.exporter "_up") known ≡ some up
    → is_ok up.status ≡ true
    → Path (Result Raised Bool) (is_up up.value) (ok up_now)
    → Judged required known (
        if up_now
        then required_failures required.names known
        else record up { status = EvidenceStatus.error; error = some target_down } ∷ [])
value-Judged required known up true seen fine now =
    from_names (required_failures-Judged required.names known)
  where
    from_names :
        NamesJudged required.names known (required_failures required.names known)
        → Judged required known (required_failures required.names known)
    from_names (inl (a, e)) = inl (
      record {
        up = up;
        up_seen = seen;
        up_ok = fine;
        up_value = is_up-one up.value now;
        names_seen = a;
      },
      e,
    )
    from_names (inr (n, a, u)) =
        inr (record { some_failure = n; all_failed = a; unhealthy = λ h. u h.names_seen })
value-Judged required known up false seen fine now = inr (
    one_failure required known _ refl
      λ h. is_up_down up.value (up_of required known up seen h).1 now)

pub failures-Judged :
    (required : Required) (known : List Observation) (o : Option Observation)
    → observed (concat required.exporter "_up") known ≡ o
    → Returns (Judged required known) (failures_of required.exporter required.names known o)
unfolding failures_of
failures-Judged required known none h = inr (one_failure required known _ refl λ w. cc)
failures-Judged required known (some up) h =
    if_cases (λ (r : Result Raised (List Observation)). Returns (Judged required known) r)
      (not (is_ok up.status))
      (λ bad. inr (
        one_failure required known up (ground arith)
          λ w. ground (arith, (up_of required known up h w).0)))
      (λ fine.
        Returns-bind (Judged required known) (is_up up.value) _
          (λ up_now now. value-Judged required known up up_now h (ground arith) now))
