-- ===== src/RebootSafety.antt =====
-- app/reboot_safety.py: the interlocks that may forbid an automatic reboot. Temperatures and
-- times are `Value`s, as the code takes them, and finite ones are integers of millionths.
pub mod Gates
mod Examples
use miner_alerts.Base.{
  ℕ, ◌+◌, ◌*◌, max, Bool, true, false, ◌&&◌, Option, none, some, List, [], ◌∷◌, String, map, keep,
  length, ltb, leb, if◌then◌else◌,
}
use miner_alerts.Base.Int.{ℤ, pos, pos_part, ◌-ℤ◌, leb_ℤ, ltb_ℤ}
use miner_alerts.Base.Value.{Value, unit, finite_number, nonnegative_integer}
use miner_alerts.Base.Dict.{Dict, insert}
use miner_alerts.Base.Sort.{sort, le_string}

pub data Signal : Type 0 where
  eligible invalid_signal not_low : Signal

pub data Interlock : Type 0 where
  high_temperature firmware_transition fleet_incident : Interlock

pub record RebootInterlockDecision : Type 0 where
  pub allowed : Bool
  pub reason : Option Interlock
  pub affected_miners : List String
  pub max_temp_c : Option ℤ
  pub fleet_snapshot_age_seconds : Option ℕ
  pub chains_transitioning_count : Option ℕ

-- The keyword arguments of `evaluate_auto_reboot_interlocks`.
pub record Evidence : Type 0 where
  pub current_miner_key : String
  pub current_signal : Signal
  pub previous_signals : Dict Signal
  pub previous_signals_observed_ts : Value
  pub evaluated_ts : Value
  pub fleet_snapshot_max_age_seconds : Value
  pub max_temp_c : Value
  pub thermal_guard_enabled : Bool
  pub thermal_limit_c : Value
  pub fleet_guard_enabled : Bool
  pub fleet_min_affected : ℕ
  pub firmware_transition_guard_enabled : Bool
  pub chains_transitioning_count : Value

-- `signal in _AFFECTED_SIGNAL_CLASSES`
abbrev pub is_affected : Signal → Bool
is_affected eligible = true
is_affected invalid_signal = true
is_affected not_low = false

abbrev limit_or_default : Option ℤ → ℤ
limit_or_default (some z) = z
limit_or_default none = pos (85 * unit)

unfoldable pub safe_thermal_limit : Evidence → ℤ
safe_thermal_limit e = limit_or_default (finite_number e.thermal_limit_c)

-- `max(0.0, now_ts - observed_ts)` where both are finite.
abbrev age : Option ℤ → Option ℤ → Option ℕ
age (some observed) (some now) = some (pos_part (now -ℤ observed))
age _ _ = none

unfoldable pub snapshot_age : Evidence → Option ℕ
snapshot_age e = age (finite_number e.previous_signals_observed_ts) (finite_number e.evaluated_ts)

abbrev is_fresh : Option ℕ → Option ℤ → Bool
is_fresh (some a) (some m) = ltb_ℤ (pos 0) m && leb_ℤ (pos a) m
is_fresh _ _ = false

unfoldable pub snapshot_fresh : Evidence → Bool
snapshot_fresh e = is_fresh (snapshot_age e) (finite_number e.fleet_snapshot_max_age_seconds)

unfoldable pub latest_signals : Evidence → Dict Signal
latest_signals e =
    insert e.current_miner_key e.current_signal
      (if snapshot_fresh e then e.previous_signals else [])

unfoldable pub affected : Evidence → List String
affected e =
    sort le_string (map (λ item. item.0) (keep (λ item. is_affected item.1) (latest_signals e)))

-- `current_temp is not None and current_temp >= safe_thermal_limit`
abbrev reaches : Option ℤ → ℤ → Bool
reaches none limit = false
reaches (some t) limit = leb_ℤ limit t

-- `current_transition_count is not None and current_transition_count > 0`
abbrev pub positive : Option ℕ → Bool
positive none = false
positive (some n) = ltb 0 n

unfoldable pub thermal_block : Evidence → Bool
thermal_block e =
    e.thermal_guard_enabled && reaches (finite_number e.max_temp_c) (safe_thermal_limit e)

unfoldable pub transition_block : Evidence → Bool
transition_block e =
    e.firmware_transition_guard_enabled
    && positive (nonnegative_integer e.chains_transitioning_count)

unfoldable pub fleet_block : Evidence → Bool
fleet_block e = e.fleet_guard_enabled && leb (max 2 e.fleet_min_affected) (length (affected e))

decide : Evidence → Bool → Option Interlock → RebootInterlockDecision
decide e ok why = record {
  allowed = ok;
  reason = why;
  affected_miners = affected e;
  max_temp_c = finite_number e.max_temp_c;
  fleet_snapshot_age_seconds = snapshot_age e;
  chains_transitioning_count = nonnegative_integer e.chains_transitioning_count;
}

unfoldable pub evaluate_auto_reboot_interlocks : Evidence → RebootInterlockDecision
unfolding decide
evaluate_auto_reboot_interlocks e =
    if thermal_block e
    then decide e false (some high_temperature)
    else (if transition_block e
        then decide e false (some firmware_transition)
        else (if fleet_block e then decide e false (some fleet_incident) else decide e true none))
