-- ===== src/Monitor/Tick.antt =====
-- One miner's part of a tick of `main` in app/miner_monitor.py, from the reading to the call of the
-- episode coordinator.
pub mod Stages
pub mod Core
pub mod Silence
pub mod Invariant
pub mod Reboots
use miner_alerts.Base.{ℕ, ◌+◌, Bool, true, false, ◌&&◌, Option, none, some, leb, not, if◌then◌else◌}
use miner_alerts.Base.Float.{Float, is_finite}
use miner_alerts.RebootSafety.{Signal}
use miner_alerts.RestartIntelligence.{RestartClassification}
use miner_alerts.Monitor.State.{
  State, ok, RebootReason, MinerState, Settings, Sample, Surroundings, state_eqb,
}
use miner_alerts.Monitor.Signal.{qa_sample, reaches}
use miner_alerts.Monitor.Hysteresis.{settle, boards_missing}
use miner_alerts.Monitor.Restart.{
  RestartObservation, reason_now, observe_uptime, observe_restart, note_reboot, expire_pending,
  flush_pending,
}
use miner_alerts.Monitor.Policy.{Outcome, auto_reboot_policy, tick_signal}

-- The arguments of `observe` that the tick decides.
pub record Observation : Type 0 where
  pub previous_state : State
  pub state : State
  pub responded : Bool
  pub rate_ths : Option Float
  pub active_boards : Option ℕ
  pub transition_event_id : Option ℕ
  pub restart : Option RestartObservation

pub record TickResult : Type 0 where
  pub state : MinerState
  pub signal : Signal
  pub sample_recorded : Bool
  pub restart : Option (RestartClassification RebootReason × Option RestartObservation)
  pub reboot_named : Bool
  pub policy : Outcome
  pub transition : Option (State × State)
  pub observation : Option Observation

abbrev is_finite_rate : Option Float → Bool
is_finite_rate none = false
is_finite_rate (some r) = is_finite r

unfoldable pub current_signal_healthy : Settings → Sample → Bool
unfolding reaches
current_signal_healthy c m =
    m.responded
    && is_finite_rate m.rate_ths
    && reaches m.rate_ths c.threshold_ths
    && not (boards_missing m.active_boards c.expected_boards)

abbrev observed_restart :
    Option (RestartClassification RebootReason × Option RestartObservation)
    → Option RestartObservation
observed_restart none = none
observed_restart (some (k, o)) = o

-- A healthy signal on the first tick opens no episode, whatever state was persisted.
unfoldable pub observe_arguments :
    Settings
    → Surroundings
    → Sample
    → State
    → State
    → Option RestartObservation
    → Option ℕ
    → Observation
unfolding current_signal_healthy
observe_arguments c w m previous new restart id =
    let fresh = w.first_tick && current_signal_healthy c m in
    record {
      previous_state = if fresh then ok else previous;
      state = if fresh then ok else new;
      responded = m.responded;
      rate_ths = m.rate_ths;
      active_boards = m.active_boards;
      transition_event_id = id;
      restart = restart;
    }

-- Everything up to the automatic reboot policy.
unfoldable pub before_policy : Settings → Surroundings → Sample → MinerState → MinerState × Bool
before_policy c w m s =
    let settled = settle c w.now_ts m (observe_uptime w.now_ts m s) in
    let (noted, named) =
      note_reboot c w.now_ts m (reason_now m s) (record settled { initialized = true }) in
    (expire_pending w.now_ts noted, named)

-- What follows the policy unless it said `continue`.
unfoldable pub after_policy :
    Settings
    → Surroundings
    → Sample
    → State
    → Option RestartObservation
    → Outcome
    → MinerState × Bool × Option (State × State) × Option Observation
after_policy c w m previous restart o =
    if o.continues
    then (let new = o.state.state in
        let changed = not w.first_tick && not (state_eqb new previous) in
        let (flushed, named) = flush_pending c w.now_ts o.state in
        (
          flushed,
          named,
          if changed && w.store_available then some (previous, new) else none,
          some (
              observe_arguments c w m previous new restart
                (if changed && w.store_available then w.transition_id else none)),
        ))
    else (o.state, false, none, none)

unfoldable pub tick_miner : Settings → Surroundings → Sample → MinerState → TickResult
tick_miner c w raw s =
    let m = qa_sample c raw in
    let (ready, named) = before_policy c w m s in
    let seen = observe_restart c w m (reason_now m s) s.last_elapsed ready in
    let o = auto_reboot_policy c w m s.state ready in
    let (final, flushed, transition, observation) =
      after_policy c w m s.state (observed_restart seen) o in
    record {
      state = final;
      signal = tick_signal c m;
      sample_recorded =
          w.store_available && leb (w.last_sample_ts + c.telemetry_sample_seconds) w.now_ts;
      restart = seen;
      reboot_named = if named then true else flushed;
      policy = o;
      transition = transition;
      observation = observation;
    }
