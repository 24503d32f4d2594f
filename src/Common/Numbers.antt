-- ===== src/Common/Numbers.antt =====
-- JavaScript numbers as far as they are compared: every finite double is a fraction, and comparing
-- two doubles is comparing the fractions.
use Prim.Native.Nat.{ℕ, suc, ◌+◌, ◌*◌}
use mathlib.Core.Path.{◌≡◌, refl}
use mathlib.Core.Bool.{Bool, true, false}
use pawaacdrone_fleet_operat.Common.Tests.{leb, ltb, ◌==◌}

-- `negsuc n` is -(n + 1).
pub data ℤ : Type 0 where
  pos negsuc : ℕ → ℤ

abbrev pub pos_part : ℤ → ℕ
pos_part (pos n) = n
pos_part (negsuc n) = 0

abbrev pub neg_part : ℤ → ℕ
neg_part (pos n) = 0
neg_part (negsuc n) = suc n

-- `ratio a b` is a / (b + 1).
pub data Number : Type 0 where
  nan infinity neg_infinity : Number
  ratio : ℤ → ℕ → Number

abbrev pub int : ℕ → Number
int n = ratio (pos n) 0

abbrev pub is_nan : Number → Bool
is_nan nan = true
is_nan _ = false

-- `Number.isFinite(a)`
abbrev pub is_finite : Number → Bool
is_finite (ratio a b) = true
is_finite _ = false

-- The two sides of a comparison of fractions, over a common denominator.
abbrev pub left_side : ℤ → ℕ → ℤ → ℕ → ℕ
left_side a b c d = pos_part a * suc d + neg_part c * suc b

-- `a <= b`
unfoldable pub num_le : Number → Number → Bool
num_le (ratio a b) (ratio c d) = leb (left_side a b c d) (left_side c d a b)
num_le nan y = false
num_le x nan = false
num_le neg_infinity y = true
num_le x infinity = true
num_le infinity y = false
num_le x neg_infinity = false

-- `a < b`
unfoldable pub num_lt : Number → Number → Bool
num_lt (ratio a b) (ratio c d) = ltb (left_side a b c d) (left_side c d a b)
num_lt nan y = false
num_lt x nan = false
num_lt infinity y = false
num_lt x neg_infinity = false
num_lt neg_infinity y = true
num_lt x infinity = true

-- `a === b`
unfoldable pub num_eq : Number → Number → Bool
num_eq (ratio a b) (ratio c d) = left_side a b c d == left_side c d a b
num_eq infinity infinity = true
num_eq neg_infinity neg_infinity = true
num_eq _ _ = false

compare_test : num_lt (ratio (negsuc 0) 2) (ratio (pos 1) 3) ≡ true
unfolding num_lt
compare_test = refl
