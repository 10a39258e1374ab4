-- ===== src/Detector/Window/Entries.antt =====
-- The dictionary `_first_seen` of `DependencyCorrelationWindow` (anomaly_detector.py).
use package.text.Mathlib.TextEquality.{eq_iff}
use uyuni_ai.Common.{
  ℕ, ◌≤◌, ◌≡◌, refl, sym, subst, inl, inr, true, none, some, List, [], ◌∷◌, ◌++◌, arith, Bool-cases,
  Option-cases, if_cases,
}
use uyuni_ai.Anomaly.{IdentityKey}
use uyuni_ai.Detector.Window.{Seen, same_key, has_key, seen_at, forget_stale, set_default}

-- no entry is of a later time
abbrev pub Before : ℕ → Seen → Type 0
Before now [] = Unit
Before now ((_, t) ∷ rest) = (t ≤ now) × Before now rest

same_key_refl : (k : IdentityKey) → same_key k k ≡ true
unfolding same_key
same_key_refl k = ground (
  arith,
  eq_iff k.minion_id k.minion_id,
  eq_iff k.metric_name k.metric_name,
  eq_iff k.service_name k.service_name,
  eq_iff k.resource k.resource,
)

same_key→eq : (j k : IdentityKey) → same_key j k ≡ true → j ≡ k
unfolding same_key
same_key→eq j k h =
    let a : j.minion_id ≡ k.minion_id = (eq_iff j.minion_id k.minion_id).0 (ground (arith, h)) in
    let b : j.metric_name ≡ k.metric_name =
      (eq_iff j.metric_name k.metric_name).0 (ground (arith, h)) in
    let c : j.service_name ≡ k.service_name =
      (eq_iff j.service_name k.service_name).0 (ground (arith, h)) in
    let d : j.resource ≡ k.resource = (eq_iff j.resource k.resource).0 (ground (arith, h)) in cc

seen_at-append :
    (k : IdentityKey) (t : ℕ) (s ys : Seen) → seen_at k s ≡ some t → seen_at k (s ++ ys) ≡ some t
unfolding seen_at
seen_at-append k t [] ys e = cc
seen_at-append k t ((j, x) ∷ s) ys e = ground (arith, seen_at-append k t s ys)

pub set_default_keeps :
    (j k : IdentityKey) (now t : ℕ) (s : Seen)
    → seen_at k s ≡ some t
    → seen_at k (set_default j now s).1 ≡ some t
unfolding set_default
set_default_keeps j k now t s e = elim (Option-cases (seen_at j s)) [
  | inl n ↦ rw n (seen_at-append k t s ((j, now) ∷ []) e)
  | inr (x, f) ↦ rw f e
]

seen_at_new :
    (k : IdentityKey) (now : ℕ) (s : Seen)
    → seen_at k s ≡ none
    → seen_at k (s ++ ((k, now) ∷ [])) ≡ some now
unfolding seen_at
seen_at_new k now [] e = rw (same_key_refl k) refl
seen_at_new k now ((j, x) ∷ s) e = ground (arith, seen_at_new k now s)

seen_at-Before :
    (k : IdentityKey) (now t : ℕ) (s : Seen) → Before now s → seen_at k s ≡ some t → t ≤ now
unfolding seen_at
seen_at-Before k now t [] b e = cc
seen_at-Before k now t ((j, x) ∷ s) b e = ground (arith, b.0, seen_at-Before k now t s b.1)

pub set_default_records :
    (k : IdentityKey) (now : ℕ) (s : Seen)
    → Before now s
    → (t : ℕ) × (seen_at k (set_default k now s).1 ≡ some t) × (t ≤ now)
unfolding set_default
set_default_records k now s b = elim (Option-cases (seen_at k s)) [
  | inl n ↦ (now, rw n (seen_at_new k now s n), omega arith)
  | inr (x, f) ↦ (x, rw f f, seen_at-Before k now x s b f)
]

Before-append :
    (now : ℕ) (k : IdentityKey) (s : Seen) → Before now s → Before now (s ++ ((k, now) ∷ []))
Before-append now k [] b = (omega arith, tt)
Before-append now k (x ∷ s) b = (b.0, Before-append now k s b.1)

pub set_default-Before :
    (now : ℕ) (k : IdentityKey) (s : Seen) → Before now s → Before now (set_default k now s).1
unfolding set_default
set_default-Before now k s b = elim (Option-cases (seen_at k s)) [
  | inl n ↦ rw n (Before-append now k s b)
  | inr (x, f) ↦ rw f b
]

pub forget_stale-Before :
    (now : ℕ) (keys : List IdentityKey) (s : Seen) → Before now s → Before now (forget_stale keys s)
unfolding forget_stale
forget_stale-Before now keys [] b = tt
forget_stale-Before now keys ((k, t) ∷ s) b =
    if_cases (Before now) (has_key k keys) (λ _. (b.0, forget_stale-Before now keys s b.1))
      (λ _. forget_stale-Before now keys s b.1)

pub forget_stale_keeps :
    (k : IdentityKey) (t : ℕ) (keys : List IdentityKey) (s : Seen)
    → has_key k keys ≡ true
    → seen_at k s ≡ some t
    → seen_at k (forget_stale keys s) ≡ some t
unfolding forget_stale seen_at
forget_stale_keeps k t keys [] h e = cc
forget_stale_keeps k t keys ((j, x) ∷ s) h e = elim (Bool-cases (same_key j k)) [
  | inl same ↦
      let kept : has_key j keys ≡ true =
        subst (λ i. has_key i keys ≡ true) (sym (same_key→eq j k same)) h in
      ground arith
  | inr other ↦ ground (arith, forget_stale_keeps k t keys s h)
]
