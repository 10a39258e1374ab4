-- ===== src/Common/Result.antt =====
-- Calls that may raise: the value, or the exception.
use mathlib.Core.Path.{◌≡◌, refl}

pub data Result {ℓ} (E : Type ℓ) (A : Type ℓ) : Type ℓ where
  ok : A → Result E A
  err : E → Result E A

infixl 5 ◌>>=◌
abbrev pub ◌>>=◌ {ℓ} : {E A B : Type ℓ} → Result E A → (A → Result E B) → Result E B
ok a >>= f = f a
err e >>= f = err e

pub ok_inj {ℓ} : {E A : Type ℓ} {a b : A} → Path (Result E A) (ok a) (ok b) → a ≡ b
ok_inj h = cc

-- what holds of the value, if there is one
abbrev pub Returns {ℓ κ} : {E A : Type ℓ} → (A → Type κ) → Result E A → Type κ
Returns P (ok a) = P a
Returns P (err e) = Unit

pub Returns-bind {ℓ κ} :
    {E A B : Type ℓ} (P : B → Type κ) (r : Result E A) (f : A → Result E B)
    → ((a : A) → Path (Result E A) r (ok a) → Returns P (f a))
    → Returns P (r >>= f)
Returns-bind P (ok a) f h = h a refl
Returns-bind P (err e) f h = tt

pub Returns-map {ℓ κ ι} :
    {E A : Type ℓ} (P : A → Type κ) (Q : A → Type ι) (r : Result E A)
    → ((a : A) → P a → Q a)
    → Returns P r
    → Returns Q r
Returns-map P Q (ok a) f h = f a h
Returns-map P Q (err e) f h = tt

pub Returns-with {ℓ κ ι} :
    {E A B : Type ℓ} (Q : A → Type ι) (P : B → Type κ) (r : Result E A) (f : A → Result E B)
    → Returns Q r
    → ((a : A) → Q a → Returns P (f a))
    → Returns P (r >>= f)
Returns-with Q P (ok a) f h k = k a h
Returns-with Q P (err e) f h k = tt
