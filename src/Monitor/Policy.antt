-- ===== src/Monitor/Policy.antt =====
-- The automatic reboot in the tick of app/miner_monitor.py: the gates in the code's order, each of
-- which records a decision, and the call of the command line tool.
pub mod Gates
pub mod Effects
pub mod Refusals
use miner_alerts.Base.{
  ℕ, ◌+◌, ◌-◌, max, Bool, true, false, ◌&&◌, ◌||◌, Option, none, some, List, [], ◌∷◌, ◌++◌, keep,
  length, ltb, leb, eqb, not, if◌then◌else◌,
}
use miner_alerts.Base.Int.{pos}
use miner_alerts.Base.Float.{fin}
use miner_alerts.Base.Value.{Value, null, real}
use miner_alerts.RebootSafety.{
  Signal, Interlock, Evidence, RebootInterlockDecision, evaluate_auto_reboot_interlocks, positive,
}
use miner_alerts.Monitor.State.{State, MinerState, Settings, Sample, Surroundings, is_low}
use miner_alerts.Monitor.Signal.{
  classify_auto_reboot_signal, auto_reboot_signal_allows_evaluation,
  reset_sustained_low_if_signal_ineligible, is_eligible, is_invalid,
}

-- The `result` of `record_auto_reboot_decision`.
pub data Result : Type 0 where
  not_low invalid_signal startup_guard not_sustained window qa executed failed : Result
  interlock : Option Interlock → Result
  cooldown : ℕ → Result

-- The calls that the policy makes, in their order.
pub data Action : Type 0 where
  decision : Result → Action
  degraded_notice qa_block_notice reboot_notice failure_notice : Action
  run_hashcore_reboot : Action
  action_outcome : Bool → Action

-- `continue` in the source leaves the rest of the miner's tick out.
pub record Outcome : Type 0 where
  pub state : MinerState
  pub actions : List Action
  pub continues : Bool
  pub cli_missing_notified_ts : ℕ

unfoldable pub drop_old_reboots : Settings → ℕ → MinerState → MinerState
drop_old_reboots c now s = record s {
  auto_reboot_timestamps =
      keep (λ ts. leb now (ts + c.auto_reboot_window_seconds)) s.auto_reboot_timestamps;
}

unfoldable pub startup_guard_active : Settings → ℕ → Bool
startup_guard_active c now = ltb now (c.process_start_ts + c.startup_guard_seconds)

abbrev time_value : ℕ → Value
time_value t = real (fin (pos t))

abbrev optional_time : Option ℕ → Value
optional_time none = null
optional_time (some t) = time_value t

unfoldable pub tick_evidence : Settings → Surroundings → Sample → Signal → Evidence
tick_evidence c w m signal = record {
  current_miner_key = w.state_key;
  current_signal = signal;
  previous_signals = w.previous_tick_signals;
  previous_signals_observed_ts = optional_time w.previous_tick_signals_ts;
  evaluated_ts = time_value w.now_ts;
  fleet_snapshot_max_age_seconds = c.fleet_snapshot_max_age_seconds;
  max_temp_c = m.max_temp_c;
  thermal_guard_enabled = c.thermal_guard_enabled;
  thermal_limit_c = c.max_temp_limit;
  fleet_guard_enabled = c.fleet_guard_enabled;
  fleet_min_affected = c.fleet_guard_min_affected;
  firmware_transition_guard_enabled = c.firmware_transition_guard_enabled;
  chains_transitioning_count = m.chains_transitioning_count;
}

-- The later of the last manual and the last automatic reboot.
abbrev latest_of : Option ℕ → Option ℕ → Option ℕ
latest_of none b = b
latest_of a none = a
latest_of (some a) (some b) = some (max a b)

-- A time ahead of the clock by more than 10 s counts as now.
abbrev clamp_to_clock : ℕ → Option ℕ → Option ℕ
clamp_to_clock now none = none
clamp_to_clock now (some t) = some (if ltb (now + 10000000) t then now else t)

unfoldable pub reference_reboot : ℕ → MinerState → Option ℕ
reference_reboot now s =
    clamp_to_clock now (latest_of s.last_manual_reboot_ts s.last_auto_reboot_ts)

abbrev cooldown_of : ℕ → ℕ → Option ℕ → Option ℕ
cooldown_of now period none = none
cooldown_of now period (some t) = if ltb (now - t) period then some (period - (now - t)) else none

-- The cooldown that remains, if it blocks.
unfoldable pub cooldown_remaining : Settings → ℕ → MinerState → Option ℕ
unfolding reference_reboot
cooldown_remaining c now s = cooldown_of now c.reboot_cooldown_seconds (reference_reboot now s)

abbrev when : Bool → Action → List Action
when b a = if b then a ∷ [] else []

abbrev may_notify : Settings → Bool
may_notify c = not c.qa_mode || c.qa_notify

-- A missing tool is reported once an hour, any other failure each time.
abbrev failure_due : Surroundings → Bool
failure_due w = not w.cli_missing || leb (w.cli_missing_notified_ts + 3600000000) w.now_ts

-- `run_hashcore_cli` and what follows from its answer.
unfoldable pub attempt_reboot : Settings → Surroundings → MinerState → Outcome
attempt_reboot c w s =
    if w.cli_ok
    then record {
      state = record s {
        last_auto_reboot_ts = some w.now_ts;
        auto_reboot_timestamps = s.auto_reboot_timestamps ++ w.now_ts ∷ [];
        low_since_ts = none;
      };
      actions =
          run_hashcore_reboot
          ∷ decision executed
          ∷ action_outcome true
          ∷ when (may_notify c) reboot_notice;
      continues = true;
      cli_missing_notified_ts = w.cli_missing_notified_ts;
    }
    else record {
      state = s;
      actions =
          run_hashcore_reboot
          ∷ decision failed
          ∷ action_outcome false
          ∷ when (may_notify c && failure_due w) failure_notice;
      continues = true;
      cli_missing_notified_ts =
          if may_notify c && w.cli_missing && failure_due w
          then w.now_ts
          else w.cli_missing_notified_ts;
    }

abbrev stop : Surroundings → MinerState → List Action → Outcome
stop w s acts = record {
  state = s;
  actions = acts;
  continues = false;
  cli_missing_notified_ts = w.cli_missing_notified_ts;
}

abbrev go_on : Surroundings → MinerState → List Action → Outcome
go_on w s acts = record (stop w s acts) { continues = true }

-- The window and the QA gate.
unfoldable pub past_cooldown : Settings → Surroundings → MinerState → Outcome
unfolding attempt_reboot
past_cooldown c w s =
    if leb c.max_reboots_per_window (length s.auto_reboot_timestamps)
    then stop w (record s { degraded_mode = true })
        (decision window ∷ when (not s.degraded_mode && may_notify c) degraded_notice)
    else (if c.qa_mode && not c.qa_allow_actions
        then stop w s (decision qa ∷ when c.qa_notify qa_block_notice)
        else attempt_reboot c w s)

abbrev past_interlocks : Settings → Surroundings → MinerState → Option ℕ → Outcome
past_interlocks c w s (some remaining) = stop w s (decision (cooldown remaining) ∷ [])
past_interlocks c w s none = past_cooldown c w s

-- A transitioning firmware restarts the LOW timer.
unfoldable pub restart_timer : Settings → ℕ → RebootInterlockDecision → MinerState → MinerState
restart_timer c now d s =
    if c.firmware_transition_guard_enabled && positive d.chains_transitioning_count
    then record s { low_since_ts = some now }
    else s

-- The branches for a miner that is LOW since `since`.
unfoldable pub evaluate_low : Settings → Surroundings → Sample → Signal → ℕ → MinerState → Outcome
unfolding past_cooldown restart_timer
evaluate_low c w m signal since s =
    let d = evaluate_auto_reboot_interlocks (tick_evidence c w m signal) in
    if not (auto_reboot_signal_allows_evaluation s.state s.low_since_ts signal)
    then go_on w (reset_sustained_low_if_signal_ineligible signal s)
        (when (not (is_eligible signal) && not (is_invalid signal)) (decision not_low))
    else (if startup_guard_active c w.now_ts
        then go_on w s (decision startup_guard ∷ [])
        else (if ltb w.now_ts (since + c.low_sustained_seconds)
            then go_on w s (decision not_sustained ∷ [])
            else (if not d.allowed
                then go_on w (restart_timer c w.now_ts d s) (decision (interlock d.reason) ∷ [])
                else past_interlocks c w s (cooldown_remaining c w.now_ts s))))

-- `new_state == STATE_LOW and state.low_since_ts`: a start at time 0 counts as none.
abbrev low_since : MinerState → Option ℕ → Option ℕ
low_since s none = none
low_since s (some t) = if is_low s.state && not (eqb t 0) then some t else none

abbrev if_low : Settings → Surroundings → Sample → Signal → MinerState → Option ℕ → Outcome
if_low c w m signal s none = go_on w s []
if_low c w m signal s (some since) = evaluate_low c w m signal since s

-- The two decisions that are recorded before the branches.
unfoldable pub early_decisions : Signal → State → MinerState → List Action
early_decisions signal previous s =
    when (is_eligible signal && not (is_low s.state)) (decision not_low)
    ++ when (is_invalid signal && is_low previous) (decision invalid_signal)

unfoldable pub tick_signal : Settings → Sample → Signal
tick_signal c m = classify_auto_reboot_signal m.responded m.rate_ths c.threshold_ths

-- The whole policy for one miner, after its state has settled.
unfoldable pub auto_reboot_policy : Settings → Surroundings → Sample → State → MinerState → Outcome
auto_reboot_policy c w m previous s =
    let t = drop_old_reboots c w.now_ts s in
    let signal = tick_signal c m in
    let o = if_low c w m signal t (low_since t t.low_since_ts) in
    record o { actions = early_decisions signal previous t ++ o.actions }
