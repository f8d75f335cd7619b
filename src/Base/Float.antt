-- ===== src/Base/Float.antt =====
-- Python's float as a value: NaN, the infinities, and a finite number as an exact integer multiple
-- of a fixed unit. Rounding is not modelled; comparisons are IEEE's, so each with NaN is false.
use Prim.Native.Nat.{ℕ}
use mathlib.Core.Path.{◌≡◌}
use mathlib.Core.Bool.{Bool, true, false}
use native.Mathlib.Omega.{arith}
use miner_alerts.Base.Tests.{if◌then◌else◌}
use miner_alerts.Base.Int.{ℤ, pos, ◌-ℤ◌, ◌+ℤ◌, times, ltb_ℤ, leb_ℤ}

pub data Float : Type 0 where
  nan neg_inf pos_inf : Float
  fin : ℤ → Float

-- `math.isfinite(x)`
abbrev pub is_finite : Float → Bool
is_finite (fin z) = true
is_finite _ = false

-- `x < y`
unfoldable pub lt_float : Float → Float → Bool
lt_float (fin a) (fin b) = ltb_ℤ a b
lt_float (fin a) pos_inf = true
lt_float neg_inf (fin b) = true
lt_float neg_inf pos_inf = true
lt_float _ _ = false

-- `x <= y`
unfoldable pub le_float : Float → Float → Bool
le_float (fin a) (fin b) = leb_ℤ a b
le_float (fin a) pos_inf = true
le_float neg_inf (fin b) = true
le_float neg_inf pos_inf = true
le_float neg_inf neg_inf = true
le_float pos_inf pos_inf = true
le_float _ _ = false

-- `x - c` for a finite constant `c`
unfoldable pub sub_float : Float → ℤ → Float
sub_float (fin a) c = fin (a -ℤ c)
sub_float x c = x

-- `x + y`
unfoldable pub add_float : Float → Float → Float
add_float (fin a) (fin b) = fin (a +ℤ b)
add_float (fin a) pos_inf = pos_inf
add_float (fin a) neg_inf = neg_inf
add_float pos_inf (fin b) = pos_inf
add_float pos_inf pos_inf = pos_inf
add_float neg_inf (fin b) = neg_inf
add_float neg_inf neg_inf = neg_inf
add_float _ _ = nan

-- `max(x, y)`: the first, unless the second is greater.
unfoldable pub max_float : Float → Float → Float
max_float x y = if lt_float x y then y else x

-- `min(x, y)`: the first, unless the second is less.
unfoldable pub min_float : Float → Float → Float
min_float x y = if lt_float y x then y else x

-- `max(0.0, x)`
abbrev pub at_least_zero : Float → Float
at_least_zero x = max_float (fin (pos 0)) x

-- `x * k` for a positive whole number `k`
abbrev pub times_float : ℕ → Float → Float
times_float k (fin a) = fin (times k a)
times_float k x = x

-- A number that is at least the threshold is not below it.
pub le_float-lt_float : (a b : Float) → le_float b a ≡ true → lt_float a b ≡ false
unfolding le_float lt_float
le_float-lt_float nan nan h = ground arith
le_float-lt_float nan neg_inf h = ground arith
le_float-lt_float nan pos_inf h = ground arith
le_float-lt_float nan (fin b) h = ground arith
le_float-lt_float neg_inf b h = ground arith
le_float-lt_float pos_inf b h = ground arith
le_float-lt_float (fin a) b h = ground arith
