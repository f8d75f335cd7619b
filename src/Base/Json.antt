-- ===== src/Base/Json.antt =====
-- JSON values as Python's `json` gives them, and Python's conversions of them. An integer too large for
-- a float is not modelled.
use Prim.Native.Nat.{ℕ, zero, suc, ◌/◌}
use Prim.Native.String.{String}
use mathlib.Core.Bool.{Bool, true, false, not}
use mathlib.Core.Option.{Option, none, some}
use miner_alerts.Base.Tests.{same_text, if◌then◌else◌}
use miner_alerts.Base.Int.{ℤ, pos, negsuc}
use miner_alerts.Base.Float.{Float, fin}
use miner_alerts.Base.Value.{unit, scale}

mutual
  pub data Json : Type 0 where
    null : Json
    boolean : Bool → Json
    integer : ℤ → Json
    real : Float → Json
    text : String → Json
    list : Items → Json
    dict : Entries → Json

  pub data Items : Type 0 where
    end : Items
    item : Json → Items → Items

  pub data Entries : Type 0 where
    empty : Entries
    entry : String → Json → Entries → Entries

-- Python's conversions of a text: `float`, `int`, and `str(value).lower()` of any value; `none` is a
-- ValueError.
pub record Conversions : Type 0 where
  pub float_text : String → Option Float
  pub int_text : String → Option ℤ
  pub lower_str : Json → String

-- `d.get(key)`; a missing key is `none`.
unfoldable pub get : String → Entries → Option Json
get key empty = none
get key (entry other v d) = if same_text other key then some v else get key d

-- `float(value)`
unfoldable pub to_float : Conversions → Json → Option Float
to_float c null = none
to_float c (boolean true) = some (fin (pos unit))
to_float c (boolean false) = some (fin (pos 0))
to_float c (integer z) = some (fin (scale z))
to_float c (real x) = some x
to_float c (text t) = c.float_text t
to_float c (list js) = none
to_float c (dict d) = none

abbrev pub negative : ℕ → ℤ
negative zero = pos 0
negative (suc n) = negsuc n

-- A finite number without its fraction.
unfoldable pub truncate : Float → Option ℤ
truncate (fin (pos n)) = some (pos (n / unit))
truncate (fin (negsuc n)) = some (negative (suc n / unit))
truncate _ = none

-- `int(value)`
unfoldable pub to_int : Conversions → Json → Option ℤ
unfolding truncate
to_int c null = none
to_int c (boolean true) = some (pos 1)
to_int c (boolean false) = some (pos 0)
to_int c (integer z) = some z
to_int c (real x) = truncate x
to_int c (text t) = c.int_text t
to_int c (list js) = none
to_int c (dict d) = none

abbrev zero_float : Float → Bool
zero_float (fin (pos zero)) = true
zero_float _ = false

-- `bool(v)`
unfoldable pub truth : Json → Bool
truth null = false
truth (boolean b) = b
truth (integer z) = not (zero_float (fin z))
truth (real x) = not (zero_float x)
truth (text t) = not (same_text t "")
truth (list end) = false
truth (list (item v js)) = true
truth (dict empty) = false
truth (dict (entry key v d)) = true

-- `entry.get(key)` is None for a missing key.
abbrev pub or_null : Option Json → Json
or_null none = null
or_null (some v) = v
