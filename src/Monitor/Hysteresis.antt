-- ===== src/Monitor/Hysteresis.antt =====
-- The streaks and the state of a miner in the tick of app/miner_monitor.py.
pub mod Streaks
use miner_alerts.Base.{
  ℕ, ◌+◌, ◌<◌, Bool, true, false, ◌&&◌, Option, none, some, ltb, leb, not, is_some, if◌then◌else◌,
}
use miner_alerts.Base.Float.{Float}
use miner_alerts.Monitor.State.{
  State, ok, low, offline, hashboard, MinerState, Settings, Sample, is_ok, is_low,
}
use miner_alerts.Monitor.Signal.{is_below, reaches}

-- The four branches on the reading.
unfoldable pub update_streaks : Settings → Sample → MinerState → MinerState
unfolding is_below
update_streaks c m s =
    if not m.responded
    then record s { offline_streak = s.offline_streak + 1; low_streak = 0; ok_streak = 0 }
    else (if not (is_some m.rate_ths)
        then record s { offline_streak = 0; low_streak = 0; ok_streak = 0 }
        else (if is_below m.rate_ths c.threshold_ths
            then record s { low_streak = s.low_streak + 1; offline_streak = 0; ok_streak = 0 }
            else record s { ok_streak = s.ok_streak + 1; low_streak = 0; offline_streak = 0 }))

-- `active_boards is not None and active_boards < expected_boards`
unfoldable pub boards_missing : Option ℕ → ℕ → Bool
boards_missing none expected = false
boards_missing (some active) expected = ltb active expected

-- The new state, from the streaks just updated.
unfoldable pub next_state : Settings → Sample → MinerState → State
unfolding boards_missing is_below reaches
next_state c m s =
    if not m.responded && leb c.fails_before_alert s.offline_streak
    then offline
    else (if m.responded && boards_missing m.active_boards c.expected_boards
        then hashboard
        else (if m.responded
              && is_below m.rate_ths c.threshold_ths
              && leb c.fails_before_alert s.low_streak
            then low
            else (if m.responded
                  && reaches m.rate_ths c.threshold_ths
                  && leb c.recovery_successes s.ok_streak
                then ok
                else s.state)))

abbrev or_now : Option ℕ → ℕ → Option ℕ
or_now none now = some now
or_now (some t) now = some t

-- `state.state = new_state` and the resets that follow it.
unfoldable pub enter_state : ℕ → State → MinerState → MinerState
enter_state now ok s = record s {
  state = ok;
  low_streak = 0;
  offline_streak = 0;
  low_since_ts = none;
}
enter_state now low s = record s { state = low; low_since_ts = or_now s.low_since_ts now }
enter_state now offline s = record s { state = offline; low_since_ts = none; low_streak = 0 }
enter_state now hashboard s = record s { state = hashboard; low_since_ts = none; low_streak = 0 }

unfoldable pub settle : Settings → ℕ → Sample → MinerState → MinerState
unfolding update_streaks next_state enter_state
settle c now m s = let t = update_streaks c m s in enter_state now (next_state c m t) t
