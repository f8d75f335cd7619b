-- ===== src/Monitor/Tick/Core.antt =====
-- The state of a miner over a series of ticks of app/miner_monitor.py.
use miner_alerts.Base.{◌≤◌, ◌≡◌, ◌∙◌, ◌≢◌, false, List, [], ◌∷◌, arith}
use miner_alerts.Monitor.State.{MinerState, Settings, Sample, Surroundings}
use miner_alerts.Monitor.Signal.{qa_sample}
use miner_alerts.Monitor.Hysteresis.{settle, boards_missing}
use miner_alerts.Monitor.Hysteresis.Streaks.{
  SameCore, settle-SameCore, Shows, IsQuiet, settle-IsQuiet, settle-Shows,
}
use miner_alerts.Monitor.Restart.{observe_uptime}
use miner_alerts.Monitor.Policy.{drop_old_reboots}
use miner_alerts.Monitor.Tick.{tick_miner}
use miner_alerts.Monitor.Tick.Stages.{before_policy-Aside, observe_uptime-SameCore, tick-outcome}

-- The state and the streaks after a tick are those that `settle` gives.
pub tick-SameCore :
    (c : Settings) (w : Surroundings) (raw : Sample) (s : MinerState)
    → SameCore (tick_miner c w raw s).state (settle c w.now_ts (qa_sample c raw) s)
unfolding drop_old_reboots
tick-SameCore c w raw s =
    let m = qa_sample c raw in
    let up = observe_uptime w.now_ts m s in
    let (late, policy) = tick-outcome c w raw s in
    ground (
      arith,
      late.core,
      policy.core,
      before_policy-Aside c w m s,
      settle-SameCore c w.now_ts m up s (observe_uptime-SameCore w.now_ts m s),
    )

-- A tick that changes the state of a miner has a reading that shows the new state: no answer for
-- OFFLINE, missing boards for HASHBOARD, a rate below the threshold for LOW, and a rate that reaches
-- it for OK, the last two with no board missing.
pub tick-Shows :
    (c : Settings) (w : Surroundings) (raw : Sample) (s : MinerState)
    → (tick_miner c w raw s).state.state ≢ s.state
    → Shows c (qa_sample c raw) (tick_miner c w raw s).state.state
tick-Shows c w raw s h =
    let e = (tick-SameCore c w raw s).state in
    rw e (settle-Shows c w.now_ts (qa_sample c raw) s (λ k. h (e ∙ k)))

-- The ticks of one miner, with its state carried from each to the next.
unfoldable pub run : Settings → List (Surroundings × Sample) → MinerState → MinerState
run c [] s = s
run c ((w, raw) ∷ ticks) s = run c ticks (tick_miner c w raw s).state

-- No reading among these ticks reports a missing board.
abbrev pub BoardsPresent : Settings → List (Surroundings × Sample) → Type 0
BoardsPresent c [] = Unit
BoardsPresent c ((w, raw) ∷ ticks) =
    (boards_missing (qa_sample c raw).active_boards c.expected_boards ≡ false)
    × BoardsPresent c ticks

tick-IsQuiet :
    (c : Settings) (w : Surroundings) (raw : Sample) (s : MinerState)
    → 2 ≤ c.fails_before_alert
    → boards_missing (qa_sample c raw).active_boards c.expected_boards ≡ false
    → IsQuiet s
    → IsQuiet (tick_miner c w raw s).state
tick-IsQuiet c w raw s two boards q =
    ground
      (arith, tick-SameCore c w raw s, settle-IsQuiet c w.now_ts (qa_sample c raw) s two boards q)

-- With `fails_before_alert` of 2 or more, a miner that is OK with both failure streaks at 0 stays
-- so for ever, whatever it answers or fails to answer, as long as no reading reports a missing
-- board: it never becomes LOW or OFFLINE.
pub IsQuiet-for_ever :
    (c : Settings) (ticks : List (Surroundings × Sample)) (s : MinerState)
    → 2 ≤ c.fails_before_alert
    → BoardsPresent c ticks
    → IsQuiet s
    → IsQuiet (run c ticks s)
unfolding run
IsQuiet-for_ever c [] s two boards q = q
IsQuiet-for_ever c ((w, raw) ∷ ticks) s two boards q =
    IsQuiet-for_ever c ticks (tick_miner c w raw s).state two boards.1
      (tick-IsQuiet c w raw s two boards.0 q)
