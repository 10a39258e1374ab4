-- ===== src/Resilience/Backoff.antt =====
-- `ExponentialBackoff` of uyuni_ai_agent/resilience.py. A delay is a whole number of ticks of a
-- thousandth of a thousandth of the unit of the two bounds: the jitter ratio and the random number
-- are in thousandths, so that the products are exact.
use uyuni_ai.Common.{
  ℕ, zero, suc, ◌+◌, ◌-◌, ◌*◌, ◌^◌, ◌≤◌, ◌<◌, ◌≡◌, ◌≢◌, refl, sym, ◌∙◌, leb→le, leb→gt, Bool, true,
  false, ◌||◌, not, min, max, arith, ltb, leb, if◌then◌else◌, Bool-cases, inl, inr, ◌↔◌,
}
pub mod Tests
use native.Mathlib.Nat.{pow-suc, pow-le-pow_right}
use native.Mathlib.Numerals.{add-one}
use uyuni_ai.Common.Result.{Result, ok, err, ◌>>=◌}

pub record ExponentialBackoff : Type 0 where
  pub initial : ℕ
  pub maximum : ℕ
  pub jitter : ℕ

pub data BackoffError : Type 0 where
  initial_not_positive maximum_below_initial jitter_out_of_range : BackoffError
  overflow : BackoffError

pub init : ℕ → ℕ → ℕ → Result BackoffError ExponentialBackoff
init initial maximum jitter =
    if leb initial 0
    then err initial_not_positive
    else if ltb maximum initial
    then err maximum_below_initial
    else if not (leb jitter 1000)
    then err jitter_out_of_range
    else ok (record { initial = initial; maximum = maximum; jitter = jitter })

-- the delay before its jitter, in the unit of the bounds
pub base : ℕ → ExponentialBackoff → ℕ
base exponent b = min b.maximum (b.initial * 2 ^ exponent)

-- `base - spread + 2 * spread * random`, in ticks
pub jittered : ℕ → ℕ → ℕ → ℕ
jittered base jitter random =
    let spread : ℕ = base * jitter in base * 1000000 - spread * 1000 + 2 * spread * random

-- An integer as a float, as Python makes of it where it multiplies it by a float: an OverflowError is
-- raised if it is nearer to 2 ** 1024 than to the largest float, (2 ** 53 - 1) * 2 ** 971, or in the
-- middle of the two. The powers of two below are floats.
pub float_of_int : ℕ → Result BackoffError ℕ
float_of_int n = if leb ((2 ^ 54 - 1) * 2 ^ 970) n then err overflow else ok n

pub delay : ℕ → ℕ → ExponentialBackoff → Result BackoffError ℕ
delay failure_number random b =
    let exponent = failure_number - 1 in
    float_of_int (2 ^ exponent) >>= λ power. ok (
      min (b.maximum * 1000000)
        (max 0 (jittered (min b.maximum (b.initial * power)) b.jitter random)))

pub record IsValid (b : ExponentialBackoff) : Type 0 where
  pub initial_pos : 1 ≤ b.initial
  pub ordered : b.initial ≤ b.maximum
  pub ratio : b.jitter ≤ 1000

pub init-IsValid : (i m j : ℕ) (b : ExponentialBackoff) → init i m j ≡ ok b → IsValid b
unfolding init
init-IsValid i m j b e = ground arith

scale : (a b k : ℕ) → a ≤ b → a * k ≤ b * k
scale a b k h = grind arith

scale_left : (a b k : ℕ) → a ≤ b → k * a ≤ k * b
scale_left a b k h = grind arith

jittered-ge : (b j r : ℕ) → j ≤ 1000 → b * 1000000 ≤ jittered b j r + b * j * 1000
unfolding jittered
jittered-ge b j r h = omega arith

jittered-le : (b j r : ℕ) → j ≤ 1000 → r ≤ 1000 → jittered b j r ≤ b * 1000000 + b * j * 1000
unfolding jittered
jittered-le b j r h k =
    let s : b * j ≤ b * 1000 = scale_left j 1000 b h in
    let t : (b * j) * r ≤ (b * j) * 1000 = scale_left r 1000 (b * j) k in omega arith

base-le : (n : ℕ) (b : ExponentialBackoff) → base (n - 1) b ≤ b.maximum
unfolding base
base-le n b = omega arith

-- the powers of two that are floats
power_fits : (e : ℕ) → 2 ^ e ≤ 2 ^ 1023 → leb ((2 ^ 54 - 1) * 2 ^ 970) (2 ^ e) ≡ false
power_fits e h = ground arith

float_of_int-fits : (e : ℕ) → e ≤ 1023 → float_of_int (2 ^ e) ≡ ok (2 ^ e)
unfolding float_of_int
float_of_int-fits e h = rw (power_fits e (pow-le-pow_right (omega arith) h)) refl

power_overflows : (e : ℕ) → 2 ^ 1024 ≤ 2 ^ e → leb ((2 ^ 54 - 1) * 2 ^ 970) (2 ^ e) ≡ true
power_overflows e h = ground arith

float_of_int-overflows : (e : ℕ) → 1024 ≤ e → float_of_int (2 ^ e) ≡ err overflow
unfolding float_of_int
float_of_int-overflows e h = rw (power_overflows e (pow-le-pow_right (omega arith) h)) refl

-- For the first 1024 failures in a row the delay is defined; it is at most the maximum, at least the
-- undelayed base reduced by the jitter ratio, and at most that base increased by it.
pub delay_bounds :
    (n random : ℕ) (b : ExponentialBackoff)
    → IsValid b
    → n ≤ 1024
    → random ≤ 1000
    → (d : ℕ) × (delay n random b ≡ ok d)
      × (d ≤ b.maximum * 1000000)
      × (base (n - 1) b * 1000000 ≤ d + base (n - 1) b * b.jitter * 1000)
      × (d ≤ base (n - 1) b * 1000000 + base (n - 1) b * b.jitter * 1000)
unfolding delay base
delay_bounds n random b v h r =
    let x = base (n - 1) b in
    let lo = jittered-ge x b.jitter random v.ratio in
    let hi = jittered-le x b.jitter random v.ratio r in
    let cap = base-le n b in
    (
      min (b.maximum * 1000000) (max 0 (jittered x b.jitter random)),
      rw (float_of_int-fits (n - 1) (omega arith)) refl,
      omega arith,
      omega arith,
      omega arith,
    )

-- The base doubles with each failure until it meets the maximum.
pub base_doubles : (e : ℕ) (b : ExponentialBackoff) → base (e + 1) b ≡ min b.maximum (2 * base e b)
unfolding base
base_doubles e b = rw (add-one e, pow-suc 2 e) (omega arith)

ok_not_err : {d : ℕ} {e : BackoffError} → Path (Result BackoffError ℕ) (ok d) (err e) → ⊥
ok_not_err h = cc

delay-overflows :
    (n random : ℕ) (b : ExponentialBackoff) → 1024 < n → delay n random b ≡ err overflow
unfolding delay
delay-overflows n random b h = rw (float_of_int-overflows (n - 1) (omega arith)) refl

-- A delay is defined for the first 1024 failures in a row, and for every later one the call raises
-- OverflowError.
pub delay_defined_iff :
    (n random : ℕ) (b : ExponentialBackoff)
    → IsValid b
    → random ≤ 1000
    → (((d : ℕ) × (delay n random b ≡ ok d)) ↔ (n ≤ 1024))
      × ((delay n random b ≡ err overflow) ↔ (1025 ≤ n))
delay_defined_iff n random b v r = elim (Bool-cases (leb n 1024)) [
  | inl q ↦
      let (d, e, _, _, _) = delay_bounds n random b v (leb→le n 1024 q) r in
      (
        (λ _. leb→le n 1024 q, λ _. (d, e)),
        (λ o. absurd (ok_not_err (sym e ∙ o)), λ h. absurd (ground arith)),
      )
  | inr q ↦
      let o = delay-overflows n random b (leb→gt n 1024 q) in
      (
        (λ (d, e). absurd (ok_not_err (sym e ∙ o)), λ h. absurd (ground arith)),
        (λ _. leb→gt n 1024 q, λ _. o),
      )
]
