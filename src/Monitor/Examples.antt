-- ===== src/Monitor/Examples.antt =====
-- Concrete miners and ticks of app/miner_monitor.py.
mod Answers
mod Ticks
mod States
use miner_alerts.Base.{
  ℕ, ◌*◌, ◌≡◌, refl, sym, ◌∙◌, ◌≢◌, inl, inr, true, false, none, some, [], ◌∷◌, List, arith, ◌≤◌,
  ◌++◌, length, keep,
}
use miner_alerts.Base.Int.{pos}
use miner_alerts.Base.Float.{fin, le_float}
use miner_alerts.Base.Value.{unit, integer, finite_number, nonnegative_integer}
use miner_alerts.Base.Sort.{sort}
use miner_alerts.Base.Dict.{insert}
use miner_alerts.RebootSafety.{
  eligible, not_low, evaluate_auto_reboot_interlocks, thermal_block, transition_block, fleet_block,
  affected, latest_signals, snapshot_fresh, snapshot_age, safe_thermal_limit,
}
use miner_alerts.Monitor.State.{ok, low, MinerState, new_miner, Settings, Sample, Surroundings}
use miner_alerts.Monitor.Policy.{
  auto_reboot_policy, drop_old_reboots, tick_signal, early_decisions, evaluate_low, past_cooldown,
  attempt_reboot, startup_guard_active, cooldown_remaining, reference_reboot, tick_evidence,
}
use miner_alerts.Monitor.Signal.{classify_auto_reboot_signal, auto_reboot_signal_allows_evaluation}
use miner_alerts.Monitor.Policy.Effects.{Changes, auto_reboot_policy-Changes}
use miner_alerts.Monitor.Policy.Refusals.{IsSustained}
use miner_alerts.Monitor.Signal.{qa_sample}
use miner_alerts.Monitor.Hysteresis.{boards_missing}
use miner_alerts.Monitor.Hysteresis.Streaks.{Shows, IsQuiet}
use miner_alerts.Monitor.Tick.{tick_miner}
use miner_alerts.Monitor.Tick.Stages.{ready}
use miner_alerts.Monitor.Tick.Core.{run, tick-Shows, IsQuiet-for_ever}
use miner_alerts.Monitor.Tick.Invariant.{IsConsistent, run-IsConsistent, new_miner-IsConsistent}
use miner_alerts.Monitor.Tick.Reboots.{
  recent, reboots, IsSpaced, reboots_in_window, reboots-IsSpaced,
}
use miner_alerts.Monitor.Tick.Silence.{refused_unobserved}
use miner_alerts.Monitor.Policy.Gates.{MayReboot, runs_reboot, reboot_requires, reboot_happens}

abbrev pub minutes : ℕ → ℕ
minutes n = n * (60 * unit)

abbrev pub settings : Settings
settings = record {
  process_start_ts = minutes 10;
  startup_guard_seconds = minutes 2;
  threshold_ths = fin (pos (100 * unit));
  fails_before_alert = 3;
  recovery_successes = 2;
  expected_boards = 3;
  notify_reboot = true;
  notify_unexpected_restarts = true;
  notify_expected_restarts = false;
  restart_attribution_window_seconds = minutes 15;
  telemetry_sample_seconds = minutes 5;
  reboot_cooldown_seconds = minutes 30;
  reboot_window_seconds = minutes 10;
  low_sustained_seconds = minutes 20;
  auto_reboot_window_seconds = minutes 360;
  max_reboots_per_window = 2;
  thermal_guard_enabled = true;
  max_temp_limit = integer (pos 85);
  fleet_guard_enabled = true;
  fleet_guard_min_affected = 2;
  firmware_transition_guard_enabled = true;
  fleet_snapshot_max_age_seconds = integer (pos 120);
  qa_mode = false;
  qa_notify = false;
  qa_allow_actions = false;
}

abbrev pub tick_at : ℕ → Surroundings
tick_at now = record {
  now_ts = now;
  first_tick = false;
  state_key = "01|10.0.0.1:4028";
  previous_tick_signals = ("02|10.0.0.2:4028", not_low) ∷ [];
  previous_tick_signals_ts = some (minutes 99);
  last_sample_ts = minutes 98;
  store_available = true;
  incident_id = some 7;
  transition_id = some 8;
  cli_ok = true;
  cli_missing = false;
  cli_missing_notified_ts = 0;
}

abbrev pub reading : ℕ → Sample
reading rate = record {
  responded = true;
  rate_ths = some (fin (pos (rate * unit)));
  elapsed = some 9000;
  active_boards = some 3;
  max_temp_c = integer (pos 70);
  chains_transitioning_count = integer (pos 0);
  forced = none;
}

-- LOW for half an hour, rebooted once two hours ago.
abbrev pub low_miner : MinerState
low_miner = record new_miner {
  low_streak = 30;
  state = low;
  initialized = true;
  last_elapsed = some 8940;
  last_seen_ts = minutes 99;
  low_since_ts = some (minutes 70);
  last_auto_reboot_ts = some (minutes 40);
  auto_reboot_timestamps = minutes 40 ∷ [];
}

low_miner_runs :
    runs_reboot
      (auto_reboot_policy settings (tick_at (minutes 100)) (reading 60) low low_miner).actions
    ≡ true
unfolding auto_reboot_policy drop_old_reboots tick_signal classify_auto_reboot_signal
    early_decisions evaluate_low past_cooldown attempt_reboot startup_guard_active
    auto_reboot_signal_allows_evaluation cooldown_remaining reference_reboot tick_evidence le_float
    evaluate_auto_reboot_interlocks thermal_block transition_block fleet_block affected
    latest_signals snapshot_fresh snapshot_age safe_thermal_limit finite_number nonnegative_integer
    insert sort miner_alerts.Base.Int.◌-ℤ◌ miner_alerts.Base.Sort.insert_sorted
low_miner_runs = refl

low_miner_may : MayReboot settings (tick_at (minutes 100)) (reading 60) low_miner
low_miner_may =
    reboot_requires settings (tick_at (minutes 100)) (reading 60) low low_miner low_miner_runs

reboot_requires_example : MayReboot settings (tick_at (minutes 100)) (reading 60) low_miner
reboot_requires_example =
    reboot_requires settings (tick_at (minutes 100)) (reading 60) low low_miner low_miner_runs

reboot_happens_example :
    runs_reboot
      (auto_reboot_policy settings (tick_at (minutes 100)) (reading 60) low low_miner).actions
    ≡ true
reboot_happens_example =
    reboot_happens settings (tick_at (minutes 100)) (reading 60) low low_miner low_miner_may

auto_reboot_policy-Changes_example :
    Changes
      (minutes 100)
      (drop_old_reboots settings (minutes 100) low_miner)
      (auto_reboot_policy settings (tick_at (minutes 100)) (reading 60) low low_miner)
auto_reboot_policy-Changes_example =
    auto_reboot_policy-Changes settings (tick_at (minutes 100)) (reading 60) low low_miner
