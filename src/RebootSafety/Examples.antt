-- ===== src/RebootSafety/Examples.antt =====
-- Concrete evidence for the interlocks of app/reboot_safety.py.
use miner_alerts.Base.{ℕ, ◌≡◌, ◌≢◌, refl, true, false, none, some, [], ◌∷◌}
use miner_alerts.Base.Int.{pos}
use miner_alerts.Base.Value.{unit, null, integer}
use miner_alerts.RebootSafety.{
  Evidence, eligible, invalid_signal, not_low, fleet_incident, snapshot_fresh,
  evaluate_auto_reboot_interlocks,
}
use miner_alerts.RebootSafety.Gates.{IsClear, allowed-IsClear}

abbrev evidence : Evidence
evidence = record {
  current_miner_key = "01|10.0.0.1:4028";
  current_signal = eligible;
  previous_signals = ("02|10.0.0.2:4028", not_low) ∷ ("03|10.0.0.3:4028", not_low) ∷ [];
  previous_signals_observed_ts = integer (pos 1000);
  evaluated_ts = integer (pos 1030);
  fleet_snapshot_max_age_seconds = integer (pos 120);
  max_temp_c = integer (pos 70);
  thermal_guard_enabled = true;
  thermal_limit_c = integer (pos 85);
  fleet_guard_enabled = true;
  fleet_min_affected = 2;
  firmware_transition_guard_enabled = true;
  chains_transitioning_count = integer (pos 0);
}

-- The others were down too, two hours ago.
abbrev stale : Evidence
stale = record evidence {
  previous_signals = ("02|10.0.0.2:4028", invalid_signal) ∷ ("03|10.0.0.3:4028", eligible) ∷ [];
  evaluated_ts = integer (pos 8200);
}

evidence_allowed : (evaluate_auto_reboot_interlocks evidence).allowed ≡ true
unfolding evaluate_auto_reboot_interlocks miner_alerts.RebootSafety.thermal_block
    miner_alerts.Base.Value.finite_number miner_alerts.RebootSafety.safe_thermal_limit
    miner_alerts.RebootSafety.transition_block miner_alerts.Base.Value.nonnegative_integer
    miner_alerts.RebootSafety.fleet_block miner_alerts.RebootSafety.affected
    miner_alerts.Base.Sort.sort miner_alerts.RebootSafety.latest_signals
    miner_alerts.Base.Dict.insert snapshot_fresh miner_alerts.RebootSafety.snapshot_age
    miner_alerts.Base.Int.◌-ℤ◌ miner_alerts.Base.Sort.insert_sorted
evidence_allowed = refl

stale_snapshot : snapshot_fresh stale ≡ false
unfolding snapshot_fresh miner_alerts.RebootSafety.snapshot_age
    miner_alerts.Base.Value.finite_number miner_alerts.Base.Int.◌-ℤ◌
stale_snapshot = refl

allowed-IsClear_example : IsClear evidence
allowed-IsClear_example = allowed-IsClear evidence evidence_allowed
