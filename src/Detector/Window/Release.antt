-- ===== src/Detector/Window/Release.antt =====
-- What `DependencyCorrelationWindow.correlate` (anomaly_detector.py) promises over several calls.
use uyuni_ai.Common.{
  ℕ, ◌+◌, ◌≤◌, ◌≡◌, refl, ◌⊎◌, inl, inr, Bool, true, false, Option, List, [], arith, Bool-cases,
}
use uyuni_ai.Common.Lists.{length}
use uyuni_ai.Anomaly.{Anomaly, IdentityKey, identity_key}
use uyuni_ai.Detector.Correlation.{Edge, correlate_dependency_anomalies}
use uyuni_ai.Detector.Window.{
  DependencyCorrelationWindow, has_key, candidate_keys, forget_stale, delays, release, has_chain,
  hold, correlate,
}
use uyuni_ai.Detector.Window.Entries.{Before, forget_stale_keeps, forget_stale-Before}
use uyuni_ai.Detector.Window.Grace.{In, Free, release_records, release_passes, length-release}

module _ (u : ℕ → Bool) where
  -- whether the current snapshots contain both sides
  abbrev pub has_both : List Anomaly → List (Option Edge) → DependencyCorrelationWindow → Bool
  has_both anomalies edges w =
      has_chain (correlate_dependency_anomalies u anomalies edges w.apache_traffic_threshold)

  -- whether `correlate` may hold the anomaly back
  abbrev pub may_hold :
      List Anomaly → List (Option Edge) → DependencyCorrelationWindow → Anomaly → Bool
  may_hold anomalies edges w a =
      delays w.grace_seconds (candidate_keys u w.apache_traffic_threshold edges anomalies) a

  -- what a call has done, by whether it found both sides
  abbrev pub Conserves :
      List Anomaly
      → List (Option Edge)
      → DependencyCorrelationWindow
      → DependencyCorrelationWindow
      → List Anomaly
      → Bool
      → Type 0
  Conserves anomalies edges w w' out true =
      (out ≡ correlate_dependency_anomalies u anomalies edges w.apache_traffic_threshold)
      × (w'.first_seen ≡ [])
      × (w'.last_held_count ≡ 0)
  Conserves anomalies edges w w' out false =
      (length out + w'.last_held_count ≡ length anomalies)
      × ((a : Anomaly) → In a anomalies → (may_hold anomalies edges w a ≡ true) ⊎ In a out)

  -- If a call finds a correlated incident, it returns what the correlation made, forgets all
  -- candidates and holds nothing. If not, the anomalies that it returns and those that it holds are
  -- together as many as it was given, and every anomaly that is no candidate on a configured edge is
  -- among those returned.
  pub correlate-Conserves :
      (anomalies : List Anomaly) (edges : List (Option Edge)) (now : ℕ)
      (w : DependencyCorrelationWindow)
      → let (w', out) = correlate u anomalies edges now w in
        Conserves anomalies edges w w' out (has_both anomalies edges w)
  unfolding correlate hold
  correlate-Conserves anomalies edges now w = elim (Bool-cases (has_both anomalies edges w)) [
    | inl h ↦ rw h (refl, refl, refl)
    | inr h ↦
        let keys = candidate_keys u w.apache_traffic_threshold edges anomalies in
        let seen = forget_stale keys w.first_seen in
        rw h (
          length-release w.grace_seconds now keys anomalies seen,
          λ a i. elim (Bool-cases (delays w.grace_seconds keys a)) [
            | inl d ↦ inl d
            | inr d ↦ inr (release_passes w.grace_seconds now keys a anomalies seen (inl d) i)
          ],
        )
  ]

  known :
      (grace : ℕ) (keys : List IdentityKey) (a : Anomaly)
      → delays grace keys a ≡ true
      → has_key (identity_key a) keys ≡ true
  unfolding delays
  known grace keys a h = ground (arith, h)

  -- An anomaly that one call may have held back is returned by every later call that finds no
  -- correlated incident and is given an anomaly of the same identity, once the grace period has
  -- passed between the two and no call came in between.
  pub grace_bounds_holding :
      (first again : List Anomaly) (edges edges' : List (Option Edge)) (now later : ℕ)
      (w : DependencyCorrelationWindow) (a b : Anomaly)
      → Before now w.first_seen
      → has_both first edges w ≡ false
      → has_both again edges' w ≡ false
      → In a first
      → may_hold first edges w a ≡ true
      → In b again
      → identity_key b ≡ identity_key a
      → now + w.grace_seconds ≤ later
      → In b (correlate u again edges' later (correlate u first edges now w).0).1
  unfolding correlate hold
  grace_bounds_holding first again edges edges' now later w a b before h h' i d j same t =
      let keys = candidate_keys u w.apache_traffic_threshold edges first in
      let keys' = candidate_keys u w.apache_traffic_threshold edges' again in
      let seen = forget_stale keys w.first_seen in
      let (at, recorded, le) =
        release_records w.grace_seconds now keys a first seen
          (forget_stale-Before now keys w.first_seen before) i d in
      let seen' = (release w.grace_seconds now keys first seen).0 in
      let free : Free w.grace_seconds later keys' b (forget_stale keys' seen') =
        elim (Bool-cases (delays w.grace_seconds keys' b)) [
          | inl y ↦ inr (
            at,
            forget_stale_keeps (identity_key b) at keys' seen' (known w.grace_seconds keys' b y)
                (rw same recorded),
            omega (arith, le, t),
          )
          | inr n ↦ inl n
        ] in
      rw (h, h')
        (release_passes w.grace_seconds later keys' b again (forget_stale keys' seen') free j)
