-- ===== src/Acquisition/Config.antt =====
-- `AcquisitionConfig` in app/acquisition.py. Durations are in millionths of a second, and a warning is
-- the key that it names.
pub mod Bounds
use miner_alerts.Base.{
  ℕ, ◌*◌, ◌++◌, Bool, true, false, ◌&&◌, Option, none, some, List, [], ◌∷◌, String, min, leb, ltb,
  if◌then◌else◌,
}
use miner_alerts.Base.Int.{ℤ, pos, negsuc}
use miner_alerts.Base.Float.{Float, fin}
use miner_alerts.Base.Value.{Value, null, boolean, integer, real, other, scale, unit, exceeds_float}
use miner_alerts.Base.Dict.{Dict, lookup}

pub record AcquisitionConfig : Type 0 where
  pub enabled : Bool
  pub workers : ℕ
  pub timeout_seconds : ℕ
  pub deadline_seconds : ℕ
  pub diagnostics_enabled : Bool
  pub diagnostic_interval_seconds : ℕ

-- A setting, and the warning if its entry was refused.
abbrev pub Setting {ℓ} : Type ℓ → Type ℓ
Setting A = A × List String

abbrev pub accepted {ℓ} : {A : Type ℓ} → String → A → Option A → Setting A
accepted key default none = (default, key ∷ [])
accepted key default (some a) = (a, [])

-- A missing key gives the default, without a warning.
abbrev pub setting {ℓ} : {A : Type ℓ} → (Value → Option A) → String → A → Option Value → Setting A
setting read key default none = (default, [])
setting read key default (some v) = accepted key default (read v)

abbrev pub read_bool : Value → Option Bool
read_bool (boolean b) = some b
read_bool _ = none

-- The whole numbers from `low` to `high`; `low` is positive.
unfoldable pub read_int : ℕ → ℕ → Value → Option ℕ
read_int low high (integer (pos n)) = if leb low n && leb n high then some n else none
read_int low high _ = none

abbrev float_value : Value → Option Float
float_value (integer z) = some (fin (scale z))
float_value (real x) = some x
float_value _ = none

abbrev pub within : ℕ → ℕ → Option Float → Option ℕ
within low high (some (fin (pos n))) = if leb low n && leb n high then some n else none
within low high _ = none

unfoldable pub read_float : ℕ → ℕ → Value → Option ℕ
read_float low high v = within low high (float_value v)

-- Whether `float` of the value raises OverflowError.
unfoldable pub overflows : Option Value → Bool
overflows (some (integer z)) = exceeds_float z
overflows _ = false

-- `_bool_config`, `_int_config` and `_float_config`
unfoldable pub bool_config : Dict Value → String → Bool → Setting Bool
bool_config config key default = setting read_bool key default (lookup key config)

unfoldable pub int_config : Dict Value → String → ℕ → ℕ → ℕ → Setting ℕ
unfolding read_int
int_config config key default low high = setting (read_int low high) key default (lookup key config)

-- `none` is the OverflowError, which is not caught.
unfoldable pub float_config : Dict Value → String → ℕ → ℕ → ℕ → Option (Setting ℕ)
unfolding read_float overflows
float_config config key default low high =
    let v = lookup key config in
    if overflows v then none else some (setting (read_float low high) key default v)

infixl 5 ◌>>=◌
abbrev pub ◌>>=◌ {ℓ κ} : {A : Type ℓ} {B : Type κ} → Option A → (A → Option B) → Option B
none >>= f = none
some a >>= f = f a

unfoldable pub from_mapping : Dict Value → Option (AcquisitionConfig × List String)
unfolding bool_config int_config float_config
from_mapping config =
    let (enabled, w) = bool_config config "adaptive_acquisition_enabled" false in
    let (workers, x) = int_config config "adaptive_acquisition_workers" 2 1 4 in
    let (diagnostics, u) = bool_config config "adaptive_diagnostics_enabled" false in
    do
      (timeout, y) ←
          float_config config "adaptive_acquisition_timeout_seconds" (5 * unit) unit (10 * unit)
      (deadline, z) ←
          float_config config "adaptive_acquisition_deadline_seconds" (12 * unit) timeout
            (30 * unit)
      (interval, v) ←
          float_config config "adaptive_diagnostic_interval_seconds" (10 * unit) (5 * unit)
            (60 * unit)
      some (
        record {
          enabled = enabled;
          workers = workers;
          timeout_seconds = timeout;
          deadline_seconds = deadline;
          diagnostics_enabled = enabled && diagnostics;
          diagnostic_interval_seconds = interval;
        },
        w ++ (x ++ (y ++ (z ++ (u ++ v)))),
      )

-- The caps of `validate_acquisition_config_dict`.
unfoldable pub capped : AcquisitionConfig → AcquisitionConfig
capped config =
    let timeout = min config.timeout_seconds (5 * unit) in
    let deadline = min config.deadline_seconds (12 * unit) in
    record config {
      workers = min config.workers 2;
      timeout_seconds = timeout;
      deadline_seconds = if ltb deadline timeout then timeout else deadline;
    }

-- `validate_acquisition_config_dict`; the dict is the record of its entries.
unfoldable pub validate_acquisition_config_dict : Dict Value → Option AcquisitionConfig
unfolding from_mapping capped
validate_acquisition_config_dict raw = from_mapping raw >>= λ read. some (capped read.0)
