-- ===== src/Detector/Window/Grace.antt =====
-- How long `DependencyCorrelationWindow` (anomaly_detector.py) holds an anomaly back.
use uyuni_ai.Common.{
  ℕ, ◌+◌, ◌≤◌, ◌≡◌, refl, sym, subst, ◌⊎◌, inl, inr, true, false, some, List, [], ◌∷◌, arith, ltb,
  if◌then◌else◌, Bool-cases, if_cases,
}
use uyuni_ai.Common.Lists.{length}
use uyuni_ai.Anomaly.{Anomaly, IdentityKey, identity_key}
use uyuni_ai.Detector.Window.{Seen, seen_at, set_default, delays, release}
use uyuni_ai.Detector.Window.Entries.{
  Before, set_default_keeps, set_default_records, set_default-Before,
}

-- the anomaly is one of the list
abbrev pub In : Anomaly → List Anomaly → Type 0
In a [] = ⊥
In a (x ∷ xs) = (a ≡ x) ⊎ In a xs

release_keeps :
    (grace now t : ℕ) (keys : List IdentityKey) (k : IdentityKey) (xs : List Anomaly) (s : Seen)
    → seen_at k s ≡ some t
    → seen_at k (release grace now keys xs s).0 ≡ some t
unfolding release
release_keeps grace now t keys k [] s e = e
release_keeps grace now t keys k (x ∷ xs) s e =
    let passed = release_keeps grace now t keys k xs s e in
    let judged =
      release_keeps grace now t keys k xs (set_default (identity_key x) now s).1
        (set_default_keeps (identity_key x) k now t s e) in
    ground arith

-- an anomaly that is delayed has an entry afterwards
pub release_records :
    (grace now : ℕ) (keys : List IdentityKey) (a : Anomaly) (xs : List Anomaly) (s : Seen)
    → Before now s
    → In a xs
    → delays grace keys a ≡ true
    → (t : ℕ) × (seen_at (identity_key a) (release grace now keys xs s).0 ≡ some t) × (t ≤ now)
unfolding release
release_records grace now keys a [] s b i d = absurd i
release_records grace now keys a (x ∷ xs) s b (inl same) d =
    let (t, e, le) = set_default_records (identity_key x) now s b in
    let kept =
      release_keeps grace now t keys (identity_key x) xs (set_default (identity_key x) now s).1 e in
    let d' : delays grace keys x ≡ true = subst (λ y. delays grace keys y ≡ true) same d in
    (t, rw (same, d') (ground arith), le)
release_records grace now keys a (x ∷ xs) s b (inr i) d = elim (Bool-cases (delays grace keys x)) [
  | inl y ↦
      let (t, e, le) =
        release_records grace now keys a xs (set_default (identity_key x) now s).1
          (set_default-Before now (identity_key x) s b) i d in
      (t, ground arith, le)
  | inr n ↦ let (t, e, le) = release_records grace now keys a xs s b i d in (t, ground arith, le)
]

-- the anomaly is not delayed, or its time is over
abbrev pub Free : ℕ → ℕ → List IdentityKey → Anomaly → Seen → Type 0
Free grace now keys a s =
    (delays grace keys a ≡ false)
    ⊎ ((t : ℕ) × (seen_at (identity_key a) s ≡ some t) × (t + grace ≤ now))

set_default-Free :
    (grace now : ℕ) (keys : List IdentityKey) (a : Anomaly) (j : IdentityKey) (s : Seen)
    → Free grace now keys a s
    → Free grace now keys a (set_default j now s).1
set_default-Free grace now keys a j s (inl d) = inl d
set_default-Free grace now keys a j s (inr (t, e, le)) =
    inr (t, set_default_keeps j (identity_key a) now t s e, le)

set_default_known :
    (j : IdentityKey) (now t : ℕ) (s : Seen) → seen_at j s ≡ some t → (set_default j now s).0 ≡ t
unfolding set_default
set_default_known j now t s e = rw e refl

judged_passes :
    (grace now : ℕ) (keys : List IdentityKey) (a x : Anomaly) (s : Seen) (out : List Anomaly)
    → Free grace now keys a s
    → delays grace keys x ≡ true
    → (a ≡ x) ⊎ In a out
    → In a (if ltb now ((set_default (identity_key x) now s).0 + grace) then out else x ∷ out)
judged_passes grace now keys a x s out f d (inr i) =
    if_cases (In a) (ltb now ((set_default (identity_key x) now s).0 + grace)) (λ _. i) (λ _. inr i)
judged_passes grace now keys a x s out (inl n) d (inl same) =
    let d' : delays grace keys a ≡ true = subst (λ y. delays grace keys y ≡ true) (sym same) d in
    absurd (cc)
judged_passes grace now keys a x s out (inr (t, e, le)) d (inl same) =
    let at : (set_default (identity_key x) now s).0 ≡ t =
      set_default_known (identity_key x) now t s
        (subst (λ y. seen_at (identity_key y) s ≡ some t) same e) in
    let over : ltb now ((set_default (identity_key x) now s).0 + grace) ≡ false = ground arith in
    rw over (inl same)

In-map :
    (a x : Anomaly) (xs ys : List Anomaly) → (In a xs → In a ys) → In a (x ∷ xs) → (a ≡ x) ⊎ In a ys
In-map a x xs ys f (inl e) = inl e
In-map a x xs ys f (inr i) = inr (f i)

result_cases :
    (grace now : ℕ) (keys : List IdentityKey) (x : Anomaly) (xs : List Anomaly) (s : Seen)
    → (release grace now keys (x ∷ xs) s).2 ≡ (
        if delays grace keys x
        then (if ltb now ((set_default (identity_key x) now s).0 + grace)
            then (release grace now keys xs (set_default (identity_key x) now s).1).2
            else x ∷ (release grace now keys xs (set_default (identity_key x) now s).1).2)
        else x ∷ (release grace now keys xs s).2)
unfolding release
result_cases grace now keys x xs s = ground arith

-- an anomaly that is free is in the result
pub release_passes :
    (grace now : ℕ) (keys : List IdentityKey) (a : Anomaly) (xs : List Anomaly) (s : Seen)
    → Free grace now keys a s
    → In a xs
    → In a (release grace now keys xs s).2
release_passes grace now keys a [] s f i = absurd i
release_passes grace now keys a (x ∷ xs) s f i =
    let s' = (set_default (identity_key x) now s).1 in
    let passed = release_passes grace now keys a xs s f in
    let judged =
      release_passes grace now keys a xs s'
        (set_default-Free grace now keys a (identity_key x) s f) in
    rw (result_cases grace now keys x xs s) (
      if_cases (In a) (delays grace keys x)
        (λ d.
          judged_passes grace now keys a x s _ f d
            (In-map a x xs (release grace now keys xs s').2 judged i))
        (λ _. In-map a x xs (release grace now keys xs s).2 passed i))

pub length-release :
    (grace now : ℕ) (keys : List IdentityKey) (xs : List Anomaly) (s : Seen)
    → length (release grace now keys xs s).2 + (release grace now keys xs s).1 ≡ length xs
unfolding release
length-release grace now keys [] s = omega arith
length-release grace now keys (x ∷ xs) s = ground (
  arith,
  length-release grace now keys xs s,
  length-release grace now keys xs (set_default (identity_key x) now s).1,
)
