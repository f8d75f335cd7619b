-- ===== src/Monitor/Hysteresis/Streaks.antt =====
-- What settling a reading does to the streaks and the state of a miner.
use miner_alerts.Base.{◌≢◌, ℕ, ◌≤◌, ◌≡◌, ◌⊎◌, true, false, arith}
use miner_alerts.Monitor.State.{State, ok, low, offline, hashboard, MinerState, Settings, Sample}
use miner_alerts.Monitor.Signal.{is_below, reaches}
use miner_alerts.Monitor.Hysteresis.{boards_missing, next_state, settle}

-- What a reading must show for a miner to enter a state.
abbrev pub Shows : Settings → Sample → State → Type 0
Shows c m offline = m.responded ≡ false
Shows c m hashboard =
    (m.responded ≡ true) × (boards_missing m.active_boards c.expected_boards ≡ true)
Shows c m low =
    (m.responded ≡ true)
    × (is_below m.rate_ths c.threshold_ths ≡ true)
    × (boards_missing m.active_boards c.expected_boards ≡ false)
Shows c m ok =
    (m.responded ≡ true)
    × (reaches m.rate_ths c.threshold_ths ≡ true)
    × (boards_missing m.active_boards c.expected_boards ≡ false)

next_state-Shows :
    (c : Settings) (m : Sample) (t : MinerState)
    → (next_state c m t ≡ t.state) ⊎ Shows c m (next_state c m t)
unfolding next_state
next_state-Shows c m t = ground arith

-- The state and the three streaks after `settle` depend on nothing else of the miner.
pub record SameCore (s t : MinerState) : Type 0 where
  pub state : s.state ≡ t.state
  pub low_streak : s.low_streak ≡ t.low_streak
  pub offline_streak : s.offline_streak ≡ t.offline_streak
  pub ok_streak : s.ok_streak ≡ t.ok_streak

pub settle-SameCore :
    (c : Settings) (now : ℕ) (m : Sample) (s t : MinerState)
    → SameCore s t
    → SameCore (settle c now m s) (settle c now m t)
unfolding settle
settle-SameCore c now m s t h = ground arith

-- A miner that is OK with both failure streaks at zero.
pub record IsQuiet (s : MinerState) : Type 0 where
  pub state : s.state ≡ ok
  pub low_streak : s.low_streak ≡ 0
  pub offline_streak : s.offline_streak ≡ 0

pub settle-IsQuiet :
    (c : Settings) (now : ℕ) (m : Sample) (s : MinerState)
    → 2 ≤ c.fails_before_alert
    → boards_missing m.active_boards c.expected_boards ≡ false
    → IsQuiet s
    → IsQuiet (settle c now m s)
unfolding settle
settle-IsQuiet c now m s two boards q = ground arith

-- A reading that changes the state shows what the new state stands for.
pub settle-Shows :
    (c : Settings) (now : ℕ) (m : Sample) (s : MinerState)
    → (settle c now m s).state ≢ s.state
    → Shows c m (settle c now m s).state
unfolding settle
settle-Shows c now m s h = ground arith
