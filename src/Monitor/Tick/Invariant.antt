-- ===== src/Monitor/Tick/Invariant.antt =====
-- What holds of a miner between two ticks of app/miner_monitor.py.
use miner_alerts.Base.{ℕ, ◌≤◌, ◌≡◌, ◌⊎◌, none, List, [], ◌∷◌, length, arith}
use miner_alerts.Monitor.State.{ok, low, MinerState, new_miner, Settings, Sample, Surroundings}
use miner_alerts.Monitor.Signal.{qa_sample}
use miner_alerts.Monitor.Hysteresis.{settle}
use miner_alerts.Monitor.Restart.{observe_uptime}
use miner_alerts.Monitor.Policy.{drop_old_reboots}
use miner_alerts.Monitor.Tick.{tick_miner}
use miner_alerts.Monitor.Tick.Core.{tick-SameCore, run}
use miner_alerts.Monitor.Tick.Reboots.{tick-room}
use miner_alerts.Monitor.Tick.Stages.{before_policy-Aside, tick-outcome}

pub record IsConsistent (c : Settings) (s : MinerState) : Type 0 where
  pub timer : (s.low_since_ts ≡ none) ⊎ (s.state ≡ low)
  pub ok_quiet : s.state ≡ ok → (s.low_streak ≡ 0) × (s.offline_streak ≡ 0)
  pub one_streak :
      ((s.low_streak ≡ 0) × (s.offline_streak ≡ 0))
      ⊎ ((s.low_streak ≡ 0) × (s.ok_streak ≡ 0))
      ⊎ ((s.offline_streak ≡ 0) × (s.ok_streak ≡ 0))
  pub window : length s.auto_reboot_timestamps ≤ c.max_reboots_per_window

settle-streaks :
    (c : Settings) (now : ℕ) (m : Sample) (s : MinerState)
    → let t = settle c now m s in
      (t.state ≡ ok → (t.low_streak ≡ 0) × (t.offline_streak ≡ 0))
      × (((t.low_streak ≡ 0) × (t.offline_streak ≡ 0))
          ⊎ ((t.low_streak ≡ 0) × (t.ok_streak ≡ 0))
          ⊎ ((t.offline_streak ≡ 0) × (t.ok_streak ≡ 0)))
unfolding settle
settle-streaks c now m s = (λ h. (ground arith, ground arith), ground arith)

settle-timer :
    (c : Settings) (now : ℕ) (m : Sample) (s : MinerState)
    → ((settle c now m s).low_since_ts ≡ none) ⊎ ((settle c now m s).state ≡ low)
unfolding settle
settle-timer c now m s = ground arith

tick-timer :
    (c : Settings) (w : Surroundings) (raw : Sample) (s : MinerState)
    → ((tick_miner c w raw s).state.low_since_ts ≡ none)
      ⊎ ((tick_miner c w raw s).state.state ≡ low)
unfolding drop_old_reboots
tick-timer c w raw s =
    let m = qa_sample c raw in
    let (late, policy) = tick-outcome c w raw s in
    ground (
      arith,
      late,
      policy.core,
      policy.timer,
      before_policy-Aside c w m s,
      settle-timer c w.now_ts m (observe_uptime w.now_ts m s),
    )

tick-streaks :
    (c : Settings) (w : Surroundings) (raw : Sample) (s : MinerState)
    → let t = (tick_miner c w raw s).state in
      (t.state ≡ ok → (t.low_streak ≡ 0) × (t.offline_streak ≡ 0))
      × (((t.low_streak ≡ 0) × (t.offline_streak ≡ 0))
          ⊎ ((t.low_streak ≡ 0) × (t.ok_streak ≡ 0))
          ⊎ ((t.offline_streak ≡ 0) × (t.ok_streak ≡ 0)))
tick-streaks c w raw s =
    let h = settle-streaks c w.now_ts (qa_sample c raw) s in
    let e = tick-SameCore c w raw s in
    (λ k. (ground (arith, h.0, e), ground (arith, h.0, e)), ground (arith, h.1, e))

-- A tick keeps the invariant of a miner: the LOW timer runs only while the miner is LOW, an OK
-- miner has no failure streak, at most one streak is not 0, and the reboots that are remembered
-- are no more than the maximum. Only the last needs to hold before.
pub tick-IsConsistent :
    (c : Settings) (w : Surroundings) (raw : Sample) (s : MinerState)
    → length s.auto_reboot_timestamps ≤ c.max_reboots_per_window
    → IsConsistent c (tick_miner c w raw s).state
tick-IsConsistent c w raw s h = record {
  timer = tick-timer c w raw s;
  ok_quiet = (tick-streaks c w raw s).0;
  one_streak = (tick-streaks c w raw s).1;
  window = tick-room c w raw s h;
}

-- Any ticks keep the invariant of a miner: the LOW timer runs only while the miner is LOW, an OK
-- miner has no failure streak, at most one streak is not 0, and the reboots that are remembered
-- are no more than the maximum.
pub run-IsConsistent :
    (c : Settings) (ticks : List (Surroundings × Sample)) (s : MinerState)
    → IsConsistent c s
    → IsConsistent c (run c ticks s)
unfolding run
run-IsConsistent c [] s h = h
run-IsConsistent c ((w, raw) ∷ ticks) s h =
    run-IsConsistent c ticks (tick_miner c w raw s).state (tick-IsConsistent c w raw s h.window)

pub new_miner-IsConsistent : (c : Settings) → IsConsistent c new_miner
new_miner-IsConsistent c = ground arith
