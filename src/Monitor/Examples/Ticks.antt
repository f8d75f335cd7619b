-- ===== src/Monitor/Examples/Ticks.antt =====
-- Concrete series of ticks of app/miner_monitor.py.
use miner_alerts.Base.{
  ℕ, ◌*◌, ◌≡◌, refl, sym, ◌∙◌, ◌≢◌, inl, inr, true, false, none, some, [], ◌∷◌, List, arith, ◌≤◌,
  ◌++◌, length, keep,
}
use miner_alerts.Base.Int.{pos}
use miner_alerts.Base.Float.{fin, le_float}
use miner_alerts.Base.Value.{finite_number, nonnegative_integer}
use miner_alerts.Base.Sort.{sort}
use miner_alerts.Base.Dict.{insert}
use miner_alerts.RebootSafety.{
  eligible, evaluate_auto_reboot_interlocks, thermal_block, transition_block, fleet_block, affected,
  latest_signals, snapshot_fresh, snapshot_age, safe_thermal_limit,
}
use miner_alerts.Monitor.State.{ok, low, MinerState, new_miner, Sample, Surroundings}
use miner_alerts.Monitor.Policy.{auto_reboot_policy, drop_old_reboots, tick_signal, tick_evidence}
use miner_alerts.Monitor.Signal.{classify_auto_reboot_signal}
use miner_alerts.Monitor.Policy.Refusals.{IsSustained}
use miner_alerts.Monitor.Signal.{qa_sample}
use miner_alerts.Monitor.Hysteresis.{boards_missing}
use miner_alerts.Monitor.Hysteresis.Streaks.{IsQuiet}
use miner_alerts.Monitor.Tick.{tick_miner}
use miner_alerts.Monitor.Tick.Stages.{ready}
use miner_alerts.Monitor.Tick.Core.{run, IsQuiet-for_ever}
use miner_alerts.Monitor.Tick.Invariant.{IsConsistent, run-IsConsistent, new_miner-IsConsistent}
use miner_alerts.Monitor.Tick.Reboots.{
  recent, reboots, IsSpaced, reboots_in_window, reboots-IsSpaced,
}
use miner_alerts.Monitor.Tick.Silence.{refused_unobserved}
use miner_alerts.Monitor.Policy.Gates.{MayReboot}
use miner_alerts.Monitor.Examples.{minutes, settings, tick_at, reading, low_miner}

-- The miner falls below the threshold again, is refused by the cooldown, and is rebooted later.
abbrev ticks : List (Surroundings × Sample)
ticks =
    (tick_at (minutes 100), reading 60)
    ∷ (tick_at (minutes 101), reading 60)
    ∷ (tick_at (minutes 140), reading 60)
    ∷ []

reboots_in_window_example :
    length (keep (recent settings (minutes 150)) (minutes 40 ∷ reboots settings ticks low_miner))
    ≤ 2
reboots_in_window_example =
    reboots_in_window settings ticks low_miner (minutes 100) (minutes 150)
      (omega arith, (omega arith, (omega arith, omega arith))) (omega arith)

reboots-IsSpaced_example :
    IsSpaced (minutes 30) (some (minutes 40)) (reboots settings ticks low_miner)
reboots-IsSpaced_example = reboots-IsSpaced settings ticks low_miner (omega arith)

-- A miner that waits for its second good reading.
abbrev recovering : MinerState
recovering = record low_miner { low_streak = 0; ok_streak = 1 }

recovering-ok :
    (tick_miner settings (tick_at (minutes 100)) (reading 120) recovering).state.state ≡ ok
unfolding tick_miner miner_alerts.Monitor.Tick.after_policy auto_reboot_policy drop_old_reboots
    miner_alerts.Monitor.Tick.before_policy miner_alerts.Monitor.Restart.expire_pending
    miner_alerts.Monitor.Restart.note_reboot miner_alerts.Monitor.Restart.reason_now qa_sample
    miner_alerts.Monitor.Hysteresis.settle miner_alerts.Base.Float.lt_float le_float
    miner_alerts.Monitor.Restart.observe_uptime miner_alerts.Monitor.Restart.flush_pending
recovering-ok = refl

low_not_ok : low ≢ ok
low_not_ok e = cc

-- A miner that answers nothing.
abbrev silent : Sample
silent = record (reading 0) {
  responded = false;
  rate_ths = none;
  elapsed = none;
  active_boards = none;
}

abbrev silence : List (Surroundings × Sample)
silence =
    (tick_at (minutes 100), silent)
    ∷ (tick_at (minutes 101), silent)
    ∷ (tick_at (minutes 102), silent)
    ∷ (tick_at (minutes 103), silent)
    ∷ []

silent-present : boards_missing (qa_sample settings silent).active_boards 3 ≡ false
unfolding boards_missing qa_sample
silent-present = refl

IsQuiet-for_ever_example : IsQuiet (run settings silence new_miner)
IsQuiet-for_ever_example =
    IsQuiet-for_ever settings silence new_miner (omega arith)
      (silent-present, (silent-present, (silent-present, (silent-present, tt))))
      (record { state = refl; low_streak = refl; offline_streak = refl })

run-IsConsistent_example : IsConsistent settings (run settings ticks new_miner)
run-IsConsistent_example =
    run-IsConsistent settings ticks new_miner (new_miner-IsConsistent settings)

-- Rebooted by hand ten minutes ago.
abbrev cooling : MinerState
cooling = record low_miner { last_manual_reboot_ts = some (minutes 90) }

cooling_allowed :
    (evaluate_auto_reboot_interlocks (
      tick_evidence settings
        (tick_at (minutes 100))
        (qa_sample settings (reading 60))
        eligible)).allowed
    ≡ true
unfolding qa_sample evaluate_auto_reboot_interlocks thermal_block transition_block fleet_block
    affected latest_signals snapshot_fresh snapshot_age safe_thermal_limit finite_number
    nonnegative_integer insert sort tick_evidence miner_alerts.Base.Int.◌-ℤ◌
    miner_alerts.Base.Sort.insert_sorted
cooling_allowed = refl

reading_signal : tick_signal settings (qa_sample settings (reading 60)) ≡ eligible
unfolding tick_signal classify_auto_reboot_signal qa_sample le_float
reading_signal = refl

cooling-IsSustained :
    IsSustained settings
      (tick_at (minutes 100))
      (qa_sample settings (reading 60))
      (ready settings (tick_at (minutes 100)) (reading 60) cooling)
unfolding miner_alerts.Monitor.Tick.before_policy miner_alerts.Monitor.Restart.expire_pending
    miner_alerts.Monitor.Restart.note_reboot miner_alerts.Monitor.Restart.reason_now qa_sample
    miner_alerts.Monitor.Hysteresis.settle miner_alerts.Base.Float.lt_float
    miner_alerts.Monitor.Restart.observe_uptime
cooling-IsSustained = record {
  is_low = refl;
  signal = reading_signal;
  started = omega arith;
  since = minutes 70;
  low_since = refl;
  timed = omega arith;
  sustained = omega arith;
  interlocks = rw reading_signal cooling_allowed;
}

cooling_manual :
    (ready settings (tick_at (minutes 100)) (reading 60) cooling).last_manual_reboot_ts
    ≡ some (minutes 90)
unfolding miner_alerts.Monitor.Tick.before_policy miner_alerts.Monitor.Restart.expire_pending
    miner_alerts.Monitor.Restart.note_reboot miner_alerts.Monitor.Restart.reason_now qa_sample
    miner_alerts.Monitor.Hysteresis.settle miner_alerts.Base.Float.lt_float
    miner_alerts.Monitor.Restart.observe_uptime
cooling_manual = refl

cooling_refused :
    ¬ MayReboot settings
      (tick_at (minutes 100))
      (qa_sample settings (reading 60))
      (ready settings (tick_at (minutes 100)) (reading 60) cooling)
cooling_refused g = ground (arith, g.cooled, cooling_manual)

refused_unobserved_example :
    ((tick_miner settings (tick_at (minutes 100)) (reading 60) cooling).observation ≡ none)
    × ((tick_miner settings (tick_at (minutes 100)) (reading 60) cooling).transition ≡ none)
refused_unobserved_example =
    refused_unobserved settings (tick_at (minutes 100)) (reading 60) cooling cooling-IsSustained
      cooling_refused
