-- ===== src/Common/Dict.antt =====
-- Python's `dict` with number keys: an association list in insertion order, a key at most once.
use Prim.Native.Nat.{ℕ}
use mathlib.Core.Path.{◌≡◌, refl}
use mathlib.Core.Bool.{Bool}
use mathlib.Core.Option.{Option, none, some}
use mathlib.Core.List.{List, [], ◌∷◌}
use native.Mathlib.Omega.{arith}
use uyuni_ai.Common.Tests.{◌==◌, if◌then◌else◌, is_some}

abbrev pub Dict {ℓ} : Type ℓ → Type ℓ
Dict V = List (ℕ × V)

module _ {ℓ} {V : Type ℓ} where
  -- d.get(k)
  abbrev pub lookup : ℕ → Dict V → Option V
  lookup k [] = none
  lookup k ((j, v) ∷ d) = if j == k then some v else lookup k d

  -- d[k] = v
  abbrev pub insert : ℕ → V → Dict V → Dict V
  insert k v [] = (k, v) ∷ []
  insert k v ((j, w) ∷ d) = if j == k then (j, v) ∷ d else (j, w) ∷ insert k v d

  -- d.pop(k, None)
  abbrev pub erase : ℕ → Dict V → Dict V
  erase k [] = []
  erase k ((j, w) ∷ d) = let rest = erase k d in if j == k then rest else (j, w) ∷ rest

  pub lookup-insert :
      (k j : ℕ) (v : V) (d : Dict V)
      → lookup j (insert k v d) ≡ (if k == j then some v else lookup j d)
  lookup-insert k j v [] = ground arith
  lookup-insert k j v ((i, w) ∷ d) = ground (arith, lookup-insert k j v d)

  pub lookup-erase :
      (k j : ℕ) (d : Dict V) → lookup j (erase k d) ≡ (if k == j then none else lookup j d)
  lookup-erase k j [] = ground arith
  lookup-erase k j ((i, w) ∷ d) = ground (arith, lookup-erase k j d)

  -- k in d
  abbrev pub contains : ℕ → Dict V → Bool
  contains k d = is_some (lookup k d)

  -- the entries whose value passes the test
  abbrev pub select : (V → Bool) → Dict V → Dict V
  select p [] = []
  select p ((k, v) ∷ d) = let rest = select p d in if p v then (k, v) ∷ rest else rest

  -- no key twice
  abbrev pub Unique : Dict V → Type ℓ
  Unique [] = Unit
  Unique ((k, v) ∷ d) = (lookup k d ≡ none) × Unique d

  lookup-select_absent :
      (p : V → Bool) (k : ℕ) (d : Dict V) → lookup k d ≡ none → lookup k (select p d) ≡ none
  lookup-select_absent p k [] h = refl
  lookup-select_absent p k ((j, v) ∷ d) h = ground (arith, lookup-select_absent p k d)

  -- an option, if its value passes the test
  abbrev pub only : (V → Bool) → Option V → Option V
  only p none = none
  only p (some v) = if p v then some v else none

  pub lookup-select :
      (p : V → Bool) (k : ℕ) (d : Dict V) → Unique d → lookup k (select p d) ≡ only p (lookup k d)
  lookup-select p k [] u = refl
  lookup-select p k ((j, v) ∷ d) u = ground (arith, lookup-select p k d, lookup-select_absent p k d)

  pub Unique-select : (p : V → Bool) (d : Dict V) → Unique d → Unique (select p d)
  Unique-select p [] u = tt
  Unique-select p ((j, v) ∷ d) u = ground (arith, Unique-select p d u.1, lookup-select_absent p j d)

  pub Unique-insert : (k : ℕ) (v : V) (d : Dict V) → Unique d → Unique (insert k v d)
  Unique-insert k v [] u = (refl, tt)
  Unique-insert k v ((j, w) ∷ d) u = ground (arith, Unique-insert k v d u.1, lookup-insert k j v d)
