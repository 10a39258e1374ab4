-- ===== src/Common/Lists.antt =====
-- Lists over the native numbers, with Python's tests on them.
use Prim.Native.Nat.{ℕ, zero, suc, ◌+◌, ◌≤◌}
use mathlib.Core.Path.{◌≡◌, refl}
use mathlib.Core.Bool.{Bool, true, false, ◌&&◌, ◌||◌}
use mathlib.Core.List.{List, [], ◌∷◌, ◌++◌}
use native.Mathlib.Omega.{arith}
use mathlib.Core.Logic.{inl, inr}
use uyuni_ai.Common.Tests.{Bool-cases, ◌==◌, if◌then◌else◌}

module _ {ℓ} {A : Type ℓ} where
  abbrev pub length : List A → ℕ
  length [] = 0
  length (x ∷ xs) = suc (length xs)

  abbrev pub reverse_onto : List A → List A → List A
  reverse_onto [] ys = ys
  reverse_onto (x ∷ xs) ys = reverse_onto xs (x ∷ ys)

  -- xs[::-1]
  abbrev pub reverse : List A → List A
  reverse xs = reverse_onto xs []

  -- xs[:n]
  abbrev pub take : ℕ → List A → List A
  take zero xs = []
  take (suc n) [] = []
  take (suc n) (x ∷ xs) = x ∷ take n xs

  -- [x for x in xs if p(x)]
  abbrev pub filter : (A → Bool) → List A → List A
  filter p [] = []
  filter p (x ∷ xs) = let rest = filter p xs in if p x then x ∷ rest else rest

  -- any(p(x) for x in xs)
  abbrev pub any : (A → Bool) → List A → Bool
  any p [] = false
  any p (x ∷ xs) = p x || any p xs

  -- all(p(x) for x in xs)
  abbrev pub all : (A → Bool) → List A → Bool
  all p [] = true
  all p (x ∷ xs) = p x && all p xs

  -- bool(xs)
  abbrev pub is_nonempty : List A → Bool
  is_nonempty [] = false
  is_nonempty (_ ∷ _) = true

  abbrev pub All {κ} : (A → Type κ) → List A → Type κ
  All P [] = Unit
  All P (x ∷ xs) = P x × All P xs

  pub any-append : (p : A → Bool) (xs ys : List A) → any p (xs ++ ys) ≡ (any p xs || any p ys)
  any-append p [] ys = refl
  any-append p (x ∷ xs) ys = ground (arith, any-append p xs ys)

  pub All-append {κ} : (P : A → Type κ) (xs ys : List A) → All P xs → All P ys → All P (xs ++ ys)
  All-append P [] ys u v = v
  All-append P (x ∷ xs) ys (p, u) v = (p, All-append P xs ys u v)

  pub length-append : (xs ys : List A) → length (xs ++ ys) ≡ length xs + length ys
  length-append [] ys = omega arith
  length-append (x ∷ xs) ys = omega (arith, length-append xs ys)

  pub length-take-le : (n : ℕ) (xs : List A) → length (take n xs) ≤ n
  length-take-le zero xs = omega arith
  length-take-le (suc n) [] = omega arith
  length-take-le (suc n) (x ∷ xs) = omega (arith, length-take-le n xs)

  pub filter-append :
      (p : A → Bool) (xs ys : List A) → filter p (xs ++ ys) ≡ filter p xs ++ filter p ys
  filter-append p [] ys = refl
  filter-append p (x ∷ xs) ys = ground (arith, filter-append p xs ys)

  pub length-filter-le : (p : A → Bool) (xs : List A) → length (filter p xs) ≤ length xs
  length-filter-le p [] = omega arith
  length-filter-le p (x ∷ xs) = ground (arith, length-filter-le p xs)

-- A set of numbers is a list with no order: its membership test and its removal.
abbrev pub mem : ℕ → List ℕ → Bool
mem x [] = false
mem x (y ∷ ys) = x == y || mem x ys

pub any-witness :
    (p : ℕ → Bool) (xs : List ℕ) → any p xs ≡ true → (n : ℕ) × (mem n xs ≡ true) × (p n ≡ true)
any-witness p [] h = cc
any-witness p (x ∷ xs) h = elim (Bool-cases (p x)) [
  | inl e ↦ (x, ground arith, e)
  | inr e ↦ let (n, m, q) = any-witness p xs (ground arith) in (n, ground arith, q)
]

pub all-mem : (p : ℕ → Bool) (xs : List ℕ) (n : ℕ) → all p xs ≡ true → mem n xs ≡ true → p n ≡ true
all-mem p [] n h m = cc
all-mem p (x ∷ xs) n h m = ground (arith, all-mem p xs n)

pub filter-none :
    (p : ℕ → Bool) (xs : List ℕ) (n : ℕ)
    → is_nonempty (filter p xs) ≡ false
    → mem n xs ≡ true
    → p n ≡ false
filter-none p [] n h m = cc
filter-none p (x ∷ xs) n h m = ground (arith, filter-none p xs n)

pub mem-filter : (p : ℕ → Bool) (xs : List ℕ) (n : ℕ) → mem n (filter p xs) ≡ (p n && mem n xs)
mem-filter p [] n = ground arith
mem-filter p (x ∷ xs) n = ground (arith, mem-filter p xs n)

pub mem-append : (xs ys : List ℕ) (n : ℕ) → mem n (xs ++ ys) ≡ (mem n xs || mem n ys)
mem-append [] ys n = refl
mem-append (x ∷ xs) ys n = ground (arith, mem-append xs ys n)

-- no number twice
abbrev pub Once : List ℕ → Type 0
Once [] = Unit
Once (x ∷ xs) = (mem x xs ≡ false) × Once xs

-- s.discard(x)
abbrev pub discard : ℕ → List ℕ → List ℕ
discard x [] = []
discard x (y ∷ ys) = let rest = discard x ys in if x == y then rest else y ∷ rest

-- s.add(x)
abbrev pub add : ℕ → List ℕ → List ℕ
add x xs = if mem x xs then xs else x ∷ xs

pub mem-discard :
    (x y : ℕ) (xs : List ℕ) → mem y (discard x xs) ≡ (if x == y then false else mem y xs)
mem-discard x y [] = ground arith
mem-discard x y (z ∷ zs) = ground (arith, mem-discard x y zs)
