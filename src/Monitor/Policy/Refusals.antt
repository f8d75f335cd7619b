-- ===== src/Monitor/Policy/Refusals.antt =====
-- What app/miner_monitor.py leaves out when the cooldown, the window or QA mode refuses a reboot.
use miner_alerts.Base.{
  ℕ, ◌+◌, ◌≤◌, ◌≡◌, refl, sym, ap, ◌∙◌, ◌≢◌, true, false, Option, none, some, arith, Bool-cases,
  inl, inr,
}
use miner_alerts.RebootSafety.{Signal, eligible, evaluate_auto_reboot_interlocks}
use miner_alerts.Monitor.State.{State, low, MinerState, Settings, Sample, Surroundings}
use miner_alerts.Monitor.Signal.{auto_reboot_signal_allows_evaluation}
use miner_alerts.Monitor.Policy.{
  drop_old_reboots, startup_guard_active, tick_evidence, cooldown_remaining, past_cooldown,
  attempt_reboot, evaluate_low, tick_signal, auto_reboot_policy, past_interlocks, low_since, if_low,
}
use miner_alerts.Monitor.Policy.Gates.{
  MayReboot, runs_reboot, reboot_requires, policy-if_low, allows_of_eligible,
  startup_guard-inactive,
}

-- The gates before the cooldown.
pub record IsSustained (c : Settings) (w : Surroundings) (m : Sample) (s : MinerState)
    : Type 0 where
  pub is_low : s.state ≡ low
  pub signal : tick_signal c m ≡ eligible
  pub started : c.process_start_ts + c.startup_guard_seconds ≤ w.now_ts
  pub since : ℕ
  pub low_since : s.low_since_ts ≡ some since
  pub timed : since ≢ 0
  pub sustained : since + c.low_sustained_seconds ≤ w.now_ts
  pub interlocks :
      (evaluate_auto_reboot_interlocks (tick_evidence c w m (tick_signal c m))).allowed ≡ true

past_interlocks-stops :
    (c : Settings) (w : Surroundings) (s : MinerState) (o : Option ℕ)
    → runs_reboot (past_interlocks c w s o).actions ≡ false
    → (past_interlocks c w s o).continues ≡ false
unfolding past_cooldown attempt_reboot
past_interlocks-stops c w s none h = ground arith
past_interlocks-stops c w s (some r) h = refl

evaluate_low-past :
    (c : Settings) (w : Surroundings) (m : Sample) (signal : Signal) (since : ℕ) (s : MinerState)
    → auto_reboot_signal_allows_evaluation s.state s.low_since_ts signal ≡ true
    → startup_guard_active c w.now_ts ≡ false
    → since + c.low_sustained_seconds ≤ w.now_ts
    → (evaluate_auto_reboot_interlocks (tick_evidence c w m signal)).allowed ≡ true
    → evaluate_low c w m signal since s ≡ past_interlocks c w s (cooldown_remaining c w.now_ts s)
unfolding evaluate_low
evaluate_low-past c w m signal since s a b d e = ground arith

if_low-some :
    (c : Settings) (w : Surroundings) (m : Sample) (signal : Signal) (s : MinerState) (o : Option ℕ)
    (since : ℕ)
    → o ≡ some since
    → s.state ≡ low
    → since ≢ 0
    → if_low c w m signal s (low_since s o) ≡ evaluate_low c w m signal since s
if_low-some c w m signal s o since e k nz = ground arith

-- A miner that is LOW for the sustained time with the earlier gates passed, and may not be
-- rebooted, is one for which the policy says `continue`.
pub refusal_stops :
    (c : Settings) (w : Surroundings) (m : Sample) (previous : State) (s : MinerState)
    → IsSustained c w m s
    → ¬ MayReboot c w m s
    → (auto_reboot_policy c w m previous s).continues ≡ false
unfolding auto_reboot_policy drop_old_reboots
refusal_stops c w m previous s g refused =
    let t = drop_old_reboots c w.now_ts s in
    let signal = tick_signal c m in
    let past =
      if_low-some c w m signal t t.low_since_ts g.since g.low_since g.is_low g.timed
      ∙ evaluate_low-past c w m signal g.since t
          (rw g.low_since (allows_of_eligible s.state g.since signal g.is_low g.signal))
          (startup_guard-inactive c w.now_ts g.started) g.sustained g.interlocks in
    let quiet : runs_reboot (auto_reboot_policy c w m previous s).actions ≡ false =
      elim (Bool-cases (runs_reboot (auto_reboot_policy c w m previous s).actions)) [
        | inl runs ↦ absurd (refused (reboot_requires c w m previous s runs))
        | inr e ↦ e
      ] in
    ap (λ o. o.continues) past
    ∙ past_interlocks-stops c w t (cooldown_remaining c w.now_ts t)
        (ap (λ o. runs_reboot o.actions) (sym past) ∙ sym (policy-if_low c w m previous s) ∙ quiet)
