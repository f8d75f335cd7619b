-- ===== src/Monitor/State.antt =====
-- The state of a miner and the settings in app/miner_monitor.py. Timestamps, durations and uptimes
-- are natural numbers; timestamps and durations count millionths of a second.
use miner_alerts.Base.{ℕ, Bool, Option, List, String}
use miner_alerts.Base.Float.{Float}
use miner_alerts.Base.Value.{Value}
use miner_alerts.Base.Dict.{Dict}
use miner_alerts.RebootSafety.{Signal}

pub data State : Type 0 where
  ok low offline hashboard : State

abbrev pub is_ok : State → Bool
is_ok ok = Bool.true
is_ok _ = Bool.false

abbrev pub is_low : State → Bool
is_low low = Bool.true
is_low _ = Bool.false

abbrev pub is_offline : State → Bool
is_offline offline = Bool.true
is_offline _ = Bool.false

abbrev pub state_eqb : State → State → Bool
state_eqb ok ok = Bool.true
state_eqb low low = Bool.true
state_eqb offline offline = Bool.true
state_eqb hashboard hashboard = Bool.true
state_eqb _ _ = Bool.false

pub data RebootReason : Type 0 where
  elapsed_drop elapsed_reset : RebootReason

pub record MinerState : Type 0 where
  pub low_streak : ℕ
  pub offline_streak : ℕ
  pub ok_streak : ℕ
  pub state : State
  pub initialized : Bool
  pub last_elapsed : Option ℕ
  pub last_seen_ts : ℕ
  pub reboot_pending_until : ℕ
  pub reboot_pending_reason : Option RebootReason
  pub reboot_pending_elapsed : Option ℕ
  pub last_reboot_ts : ℕ
  pub low_since_ts : Option ℕ
  pub last_manual_reboot_ts : Option ℕ
  pub last_auto_reboot_ts : Option ℕ
  pub auto_reboot_timestamps : List ℕ
  pub degraded_mode : Bool
  pub last_hourly_status_ts : Option ℕ

-- The defaults of the dataclass.
abbrev pub new_miner : MinerState
new_miner = record {
  low_streak = 0;
  offline_streak = 0;
  ok_streak = 0;
  state = ok;
  initialized = Bool.false;
  last_elapsed = Option.none;
  last_seen_ts = 0;
  reboot_pending_until = 0;
  reboot_pending_reason = Option.none;
  reboot_pending_elapsed = Option.none;
  last_reboot_ts = 0;
  low_since_ts = Option.none;
  last_manual_reboot_ts = Option.none;
  last_auto_reboot_ts = Option.none;
  auto_reboot_timestamps = List.[];
  degraded_mode = Bool.false;
  last_hourly_status_ts = Option.none;
}

-- What `main` reads from the configuration before its loop, as far as the tick uses it.
pub record Settings : Type 0 where
  pub process_start_ts : ℕ
  pub startup_guard_seconds : ℕ
  pub threshold_ths : Float
  pub fails_before_alert : ℕ
  pub recovery_successes : ℕ
  pub expected_boards : ℕ
  pub notify_reboot : Bool
  pub notify_unexpected_restarts : Bool
  pub notify_expected_restarts : Bool
  pub restart_attribution_window_seconds : ℕ
  pub telemetry_sample_seconds : ℕ
  pub reboot_cooldown_seconds : ℕ
  pub reboot_window_seconds : ℕ
  pub low_sustained_seconds : ℕ
  pub auto_reboot_window_seconds : ℕ
  pub max_reboots_per_window : ℕ
  pub thermal_guard_enabled : Bool
  pub max_temp_limit : Value
  pub fleet_guard_enabled : Bool
  pub fleet_guard_min_affected : ℕ
  pub firmware_transition_guard_enabled : Bool
  pub fleet_snapshot_max_age_seconds : Value
  pub qa_mode : Bool
  pub qa_notify : Bool
  pub qa_allow_actions : Bool

-- What was read from a miner this tick. `forced` is what `qa_force_state` names for it.
pub record Sample : Type 0 where
  pub responded : Bool
  pub rate_ths : Option Float
  pub elapsed : Option ℕ
  pub active_boards : Option ℕ
  pub max_temp_c : Value
  pub chains_transitioning_count : Value
  pub forced : Option State

-- What the tick finds outside the miner's own state: the clock, the last tick's signals, and the
-- answers of the event store and of the command line tool if they are asked.
pub record Surroundings : Type 0 where
  pub now_ts : ℕ
  pub first_tick : Bool
  pub state_key : String
  pub previous_tick_signals : Dict Signal
  pub previous_tick_signals_ts : Option ℕ
  pub last_sample_ts : ℕ
  pub store_available : Bool
  pub incident_id : Option ℕ
  pub transition_id : Option ℕ
  pub cli_ok : Bool
  pub cli_missing : Bool
  pub cli_missing_notified_ts : ℕ
