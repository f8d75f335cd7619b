-- ===== src/EvidenceFusion/Config.antt =====
-- `FusionConfig.from_mapping` in app/evidence_fusion.py. The warnings' texts are left out.
pub mod Bounds
use miner_alerts.Base.{
  ℕ, suc, ◌/◌, ◌*◌, ◌≤◌, ◌≡◌, ◌↔◌, refl, Bool, true, false, ◌&&◌, ◌||◌, not, Option, none, some,
  List, [], ◌∷◌, ◌++◌, leb, is_some, if◌then◌else◌, arith,
}
use miner_alerts.Base.Int.{ℤ, pos, negsuc}
use miner_alerts.Base.Float.{Float, neg_inf, pos_inf, fin}
use miner_alerts.Base.Value.{exceeds_float, unit}
use miner_alerts.Base.Json.{Json, boolean, integer, real, Conversions, to_float, to_int}

-- What `float` or `int` makes of a value: a number, a TypeError or ValueError, or an OverflowError.
pub data Converted {ℓ} (A : Type ℓ) : Type ℓ where
  number : A → Converted A
  invalid overflow : Converted A

abbrev pub or_invalid {ℓ} : {A : Type ℓ} → Option A → Converted A
or_invalid none = invalid
or_invalid (some a) = number a

-- The entries that are read; `none` is a missing key.
pub record Mapping : Type 0 where
  pub incident_fusion_enabled : Option Json
  pub incident_fusion_context_hours : Option Json
  pub incident_fusion_fleet_window_seconds : Option Json
  pub diagnosis_stale_seconds : Option Json
  pub diagnosis_firmware_window_hours : Option Json
  pub diagnosis_collector_stale_seconds : Option Json
  pub restart_attribution_window_seconds : Option Json

pub record FusionConfig : Type 0 where
  pub enabled : Bool
  pub context_hours : ℕ
  pub fleet_window_seconds : ℕ
  pub diagnosis_stale_seconds : ℤ
  pub diagnosis_firmware_window_hours : ℤ
  pub diagnosis_collector_stale_seconds : ℤ
  pub restart_attribution_window_seconds : ℤ

pub data Warning : Type 0 where
  enabled_not_bool hours_invalid fleet_window_invalid : Warning

-- `float(value)`
unfoldable pub float_of : Conversions → Json → Converted Float
unfolding to_float
float_of c (integer z) = if exceeds_float z then overflow else or_invalid (to_float c (integer z))
float_of c v = or_invalid (to_float c v)

-- `int(value)`
unfoldable pub int_of : Conversions → Json → Converted ℤ
unfolding to_int
int_of c (real neg_inf) = overflow
int_of c (real pos_inf) = overflow
int_of c v = or_invalid (to_int c v)

-- `int(v)` if it is finite and from `low` to `high`, for a `low` that is positive.
unfoldable pub in_range : ℕ → ℕ → Float → Option ℕ
in_range low high (fin (pos n)) =
    let v = n / unit in if leb low v && leb v high then some v else none
in_range low high _ = none

-- `none` is the OverflowError, which is not caught; within it `none` is a value that is refused.
abbrev pub bounded : ℕ → ℕ → Converted Float → Option (Option ℕ)
bounded low high (number x) = some (in_range low high x)
bounded low high invalid = some none
bounded low high overflow = none

abbrev pub given : ℕ → Option Json → Json
given default none = integer (pos default)
given default (some v) = v

unfoldable pub read_bounded : Conversions → ℕ → ℕ → ℕ → Option Json → Option (Option ℕ)
unfolding float_of in_range
read_bounded c low high default v = bounded low high (float_of c (given default v))

abbrev pub or_default : ℕ → Option ℕ → ℕ
or_default default none = default
or_default default (some n) = n

abbrev pub bool_of : Option Json → Option Bool
bool_of none = some false
bool_of (some (boolean b)) = some b
bool_of (some _) = none

abbrev pub or_false : Option Bool → Bool
or_false none = false
or_false (some b) = b

abbrev warn : Bool → Warning → List Warning
warn ok w = if ok then [] else w ∷ []

abbrev pub or_given : ℕ → Converted ℤ → Option ℤ
or_given default (number z) = some z
or_given default invalid = some (pos default)
or_given default overflow = none

-- `_int_default`; `none` is the OverflowError, which is not caught.
unfoldable pub int_default : Conversions → ℕ → Option Json → Option ℤ
unfolding int_of
int_default c default v = or_given default (int_of c (given default v))

abbrev warnings_of : Option Bool → Option ℕ → Option ℕ → List Warning
warnings_of enabled hours window =
    warn (is_some enabled) enabled_not_bool
    ++ (warn (is_some hours) hours_invalid ++ warn (is_some window) fleet_window_invalid)

abbrev pub build :
    Option Bool
    → Option (Option ℕ)
    → Option (Option ℕ)
    → Option ℤ
    → Option ℤ
    → Option ℤ
    → Option ℤ
    → Option (FusionConfig × List Warning)
build enabled (some hours) (some window) (some stale) (some firmware) (some collector)
      (some restart) =
    some (
      record {
        enabled = or_false enabled;
        context_hours = or_default 24 hours;
        fleet_window_seconds = or_default 60 window;
        diagnosis_stale_seconds = stale;
        diagnosis_firmware_window_hours = firmware;
        diagnosis_collector_stale_seconds = collector;
        restart_attribution_window_seconds = restart;
      },
      warnings_of enabled hours window,
    )
build enabled _ _ _ _ _ _ = none

-- `none` is the exception.
unfoldable pub from_mapping : Conversions → Mapping → Option (FusionConfig × List Warning)
unfolding int_default read_bounded
from_mapping c m =
    build (bool_of m.incident_fusion_enabled)
      (read_bounded c 1 168 24 m.incident_fusion_context_hours)
      (read_bounded c 30 300 60 m.incident_fusion_fleet_window_seconds)
      (int_default c 900 m.diagnosis_stale_seconds)
      (int_default c 24 m.diagnosis_firmware_window_hours)
      (int_default c 3600 m.diagnosis_collector_stale_seconds)
      (int_default c 900 m.restart_attribution_window_seconds)
