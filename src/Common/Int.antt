-- ===== src/Common/Int.antt =====
-- Integers over the native numbers, and the floats of measurements: a finite float is a whole number
-- of thousandths.
use Prim.Native.Nat.{ℕ, suc, ◌+◌, ◌-◌}
use mathlib.Core.Bool.{Bool, true, false}
use uyuni_ai.Common.Tests.{ltb, leb, if◌then◌else◌}

-- `negsuc n` is -(n + 1)
pub data ℤ : Type 0 where
  pos : ℕ → ℤ
  negsuc : ℕ → ℤ

abbrev pub pos_part : ℤ → ℕ
pos_part (pos n) = n
pos_part (negsuc n) = 0

abbrev pub neg_part : ℤ → ℕ
neg_part (pos n) = 0
neg_part (negsuc n) = suc n

abbrev pub sub_ℕ : ℕ → ℕ → ℤ
sub_ℕ a b = if leb b a then pos (a - b) else negsuc (b - a - 1)

infixl 65 ◌+ℤ◌
abbrev pub ◌+ℤ◌ : ℤ → ℤ → ℤ
a +ℤ b = sub_ℕ (pos_part a + pos_part b) (neg_part a + neg_part b)

-- a < b
abbrev pub ltb_ℤ : ℤ → ℤ → Bool
ltb_ℤ a b = ltb (pos_part a + neg_part b) (pos_part b + neg_part a)

-- min(a, b)
abbrev pub min_ℤ : ℤ → ℤ → ℤ
min_ℤ a b = if ltb_ℤ b a then b else a

-- max(0.0, a - b)
abbrev pub excess : ℤ → ℤ → ℕ
excess a b = pos_part a + neg_part b - (neg_part a + pos_part b)

pub data Float : Type 0 where
  finite : ℤ → Float
  infinity negative_infinity nan : Float

-- a > b
abbrev pub gtb : Float → Float → Bool
gtb (finite a) (finite b) = ltb_ℤ b a
gtb (finite a) negative_infinity = true
gtb infinity (finite b) = true
gtb infinity negative_infinity = true
gtb _ _ = false
