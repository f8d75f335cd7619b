-- ===== src/Monitor/Policy/Effects.antt =====
-- What the policy of app/miner_monitor.py changes of a miner: the degraded mark, the LOW timer, and
-- the record of automatic reboots.
use miner_alerts.Base.{
  ℕ, ◌≡◌, ◌⊎◌, Bool, true, false, Option, none, some, List, [], ◌∷◌, ◌++◌, any, if◌then◌else◌,
  arith,
}
use miner_alerts.RebootSafety.{Signal}
use miner_alerts.Monitor.State.{State, low, MinerState, Settings, Sample, Surroundings}
use miner_alerts.Monitor.Signal.{reset_sustained_low_if_signal_ineligible}
use miner_alerts.Monitor.Hysteresis.Streaks.{SameCore}
use miner_alerts.Monitor.Policy.{
  Action, decision, executed, Outcome, drop_old_reboots, cooldown_remaining, past_cooldown,
  evaluate_low, early_decisions, tick_signal, auto_reboot_policy, past_interlocks, low_since,
  if_low,
}
use miner_alerts.Monitor.Policy.Gates.{any-append, is_run, runs_reboot, early_decisions-quiet}

abbrev is_executed : Action → Bool
is_executed (decision executed) = true
is_executed _ = false

-- A reboot was sent with success.
abbrev pub rebooted : List Action → Bool
rebooted = any is_executed

-- What an outcome may change of the miner it began with, at time `now`.
pub record Changes (now : ℕ) (s : MinerState) (o : Outcome) : Type 0 where
  pub core : SameCore o.state s
  pub timer :
      (o.state.low_since_ts ≡ s.low_since_ts)
      ⊎ (o.state.low_since_ts ≡ none)
      ⊎ (o.state.state ≡ low)
  pub manual : o.state.last_manual_reboot_ts ≡ s.last_manual_reboot_ts
  pub auto :
      o.state.last_auto_reboot_ts ≡ (if rebooted o.actions then some now else s.last_auto_reboot_ts)
  pub sent : rebooted o.actions ≡ true → runs_reboot o.actions ≡ true
  pub times : o.state.auto_reboot_timestamps ≡ (
      if rebooted o.actions then s.auto_reboot_timestamps ++ now ∷ [] else s.auto_reboot_timestamps)

past_cooldown-Changes :
    (c : Settings) (w : Surroundings) (s : MinerState) → Changes w.now_ts s (past_cooldown c w s)
unfolding past_cooldown
past_cooldown-Changes c w s = ground arith

past_interlocks-Changes :
    (c : Settings) (w : Surroundings) (s : MinerState) (o : Option ℕ)
    → Changes w.now_ts s (past_interlocks c w s o)
past_interlocks-Changes c w s none = past_cooldown-Changes c w s
past_interlocks-Changes c w s (some r) = ground arith

evaluate_low-Changes :
    (c : Settings) (w : Surroundings) (m : Sample) (signal : Signal) (since : ℕ) (s : MinerState)
    → s.state ≡ low
    → Changes w.now_ts s (evaluate_low c w m signal since s)
unfolding evaluate_low reset_sustained_low_if_signal_ineligible
evaluate_low-Changes c w m signal since s h =
    ground (arith, past_interlocks-Changes c w s (cooldown_remaining c w.now_ts s))

if_low-Changes :
    (c : Settings) (w : Surroundings) (m : Sample) (signal : Signal) (s : MinerState) (o : Option ℕ)
    → Changes w.now_ts s (if_low c w m signal s (low_since s o))
if_low-Changes c w m signal s none = ground arith
if_low-Changes c w m signal s (some t) = ground (arith, evaluate_low-Changes c w m signal t s)

early_decisions-not_rebooted :
    (signal : Signal) (previous : State) (s : MinerState)
    → rebooted (early_decisions signal previous s) ≡ false
unfolding early_decisions
early_decisions-not_rebooted signal previous s = ground arith

prefixed-Changes :
    (now : ℕ) (s : MinerState) (o : Outcome) (acts : List Action)
    → rebooted acts ≡ false
    → runs_reboot acts ≡ false
    → Changes now s o
    → Changes now s (record o { actions = acts ++ o.actions })
prefixed-Changes now s o acts quiet silent h =
    ground (arith, any-append is_executed acts o.actions, any-append is_run acts o.actions)

-- The policy leaves the state and the streaks alone; it records a reboot exactly when it was sent
-- with success, at the current time, and forgets those that left the window.
pub auto_reboot_policy-Changes :
    (c : Settings) (w : Surroundings) (m : Sample) (previous : State) (s : MinerState)
    → Changes w.now_ts (drop_old_reboots c w.now_ts s) (auto_reboot_policy c w m previous s)
unfolding auto_reboot_policy
auto_reboot_policy-Changes c w m previous s =
    let t = drop_old_reboots c w.now_ts s in
    let signal = tick_signal c m in
    let o = if_low c w m signal t (low_since t t.low_since_ts) in
    prefixed-Changes w.now_ts t o (early_decisions signal previous t)
      (early_decisions-not_rebooted signal previous t) (early_decisions-quiet signal previous t)
      (if_low-Changes c w m signal t t.low_since_ts)
