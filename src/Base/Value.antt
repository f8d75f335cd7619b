-- ===== src/Base/Value.antt =====
-- What `Any` holds where the code converts it to a number, and the conversions' helpers.
-- A finite number is an integer count of millionths (`unit`).
use Prim.Native.Nat.{ℕ, zero, suc, ◌*◌, ◌-◌, ◌/◌, ◌%◌, ◌^◌}
use mathlib.Core.Bool.{Bool, true, false}
use mathlib.Core.Option.{Option, none, some}
use miner_alerts.Base.Tests.{eqb, leb, if◌then◌else◌}
use miner_alerts.Base.Int.{ℤ, pos, negsuc, leb_ℤ}
use miner_alerts.Base.Float.{Float, fin}

abbrev pub unit : ℕ
unit = 1000000

-- `other` is a text or any other object, by what `float` makes of it; `none` where `float` raises
-- `TypeError` or `ValueError`.
pub data Value : Type 0 where
  null : Value
  boolean : Bool → Value
  integer : ℤ → Value
  real : Float → Value
  other : Option Float → Value

-- An integer as a number of millionths.
abbrev pub scale : ℤ → ℤ
scale (pos n) = pos (n * unit)
scale (negsuc n) = negsuc (suc n * unit - 1)

abbrev magnitude : ℤ → ℕ
magnitude (pos n) = n
magnitude (negsuc n) = suc n

-- Whether `float` of an integer raises OverflowError: it would round to 2 ^ 1024 or more.
unfoldable pub exceeds_float : ℤ → Bool
exceeds_float z = leb (2 ^ 1024 - 2 ^ 970) (magnitude z)

abbrev pub if_finite : Float → Option ℤ
if_finite (fin z) = some z
if_finite _ = none

-- `_finite_number` and `_finite`: a bool, a failed conversion and a non-finite number give None.
unfoldable pub finite_number : Value → Option ℤ
finite_number null = none
finite_number (boolean b) = none
finite_number (integer z) = some (scale z)
finite_number (real x) = if_finite x
finite_number (other none) = none
finite_number (other (some x)) = if_finite x

-- `number < 0 or not number.is_integer()` gives None.
abbrev pub whole : Option ℤ → Option ℕ
whole none = none
whole (some (negsuc n)) = none
whole (some (pos n)) = if eqb (n % unit) 0 then some (n / unit) else none

-- `_nonnegative_integer` and `_counter`
unfoldable pub nonnegative_integer : Value → Option ℕ
unfolding finite_number
nonnegative_integer v = whole (finite_number v)

-- `_finite(observed_ts) or -inf`: None and 0 are less than every other time.
abbrev pub time_key : Option ℤ → Option ℤ
time_key (some (pos zero)) = none
time_key o = o

abbrev later_key : Option ℤ → Option ℤ → Bool
later_key o none = true
later_key none (some q) = false
later_key (some p) (some q) = leb_ℤ q p

-- Whether the first time is at least the second, by this key.
unfoldable pub no_earlier : Value → Value → Bool
unfolding finite_number
no_earlier v w = later_key (time_key (finite_number v)) (time_key (finite_number w))
