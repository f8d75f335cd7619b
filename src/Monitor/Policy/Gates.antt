-- ===== src/Monitor/Policy/Gates.antt =====
-- When the policy of app/miner_monitor.py sends a reboot.
use miner_alerts.Base.{
  ℕ, ◌+◌, ◌≤◌, ◌<◌, ◌≡◌, refl, sym, ◌∙◌, ◌≢◌, ◌⊎◌, Bool, true, false, ◌||◌, Option, none, some,
  List, [], ◌∷◌, ◌++◌, any, length, keep, leb, arith,
}
use miner_alerts.RebootSafety.{Signal, eligible, evaluate_auto_reboot_interlocks}
use miner_alerts.Monitor.State.{State, low, MinerState, Settings, Sample, Surroundings}
use miner_alerts.Monitor.Signal.{auto_reboot_signal_allows_evaluation}
use miner_alerts.Monitor.Policy.{
  Action, run_hashcore_reboot, drop_old_reboots, startup_guard_active, tick_evidence,
  cooldown_remaining, attempt_reboot, past_cooldown, evaluate_low, early_decisions, tick_signal,
  auto_reboot_policy, past_interlocks, low_since, if_low,
}

abbrev pub is_run : Action → Bool
is_run run_hashcore_reboot = true
is_run _ = false

-- The policy calls the command line tool.
abbrev pub runs_reboot : List Action → Bool
runs_reboot = any is_run

-- The last reboot of a kind, if there was one, is at least the cooldown ago.
abbrev pub IsOld : Settings → ℕ → Option ℕ → Type 0
IsOld c now none = Unit
IsOld c now (some t) = t + c.reboot_cooldown_seconds ≤ now

-- All that the code asks before it sends a reboot.
pub record MayReboot (c : Settings) (w : Surroundings) (m : Sample) (s : MinerState) : Type 0 where
  pub is_low : s.state ≡ low
  pub signal : tick_signal c m ≡ eligible
  pub started : c.process_start_ts + c.startup_guard_seconds ≤ w.now_ts
  pub since : ℕ
  pub low_since : s.low_since_ts ≡ some since
  pub timed : since ≢ 0
  pub sustained : since + c.low_sustained_seconds ≤ w.now_ts
  pub interlocks :
      (evaluate_auto_reboot_interlocks (tick_evidence c w m (tick_signal c m))).allowed ≡ true
  pub cooled :
      (c.reboot_cooldown_seconds ≡ 0)
      ⊎ (IsOld c w.now_ts s.last_manual_reboot_ts × IsOld c w.now_ts s.last_auto_reboot_ts)
  pub in_window :
      length
        (keep (λ ts. leb w.now_ts (ts + c.auto_reboot_window_seconds)) s.auto_reboot_timestamps)
      < c.max_reboots_per_window
  pub permitted : (c.qa_mode ≡ false) ⊎ (c.qa_allow_actions ≡ true)

pub any-append {ℓ} :
    {A : Type ℓ} (p : A → Bool) (xs ys : List A) → any p (xs ++ ys) ≡ (any p xs || any p ys)
any-append p [] ys = refl
any-append p (x ∷ xs) ys = ground (arith, any-append p xs ys)

pub early_decisions-quiet :
    (signal : Signal) (previous : State) (s : MinerState)
    → runs_reboot (early_decisions signal previous s) ≡ false
unfolding early_decisions
early_decisions-quiet signal previous s = ground arith

past_cooldown-runs :
    (c : Settings) (w : Surroundings) (s : MinerState)
    → runs_reboot (past_cooldown c w s).actions ≡ true
    → (length s.auto_reboot_timestamps < c.max_reboots_per_window)
      × ((c.qa_mode ≡ false) ⊎ (c.qa_allow_actions ≡ true))
unfolding past_cooldown attempt_reboot
past_cooldown-runs c w s h = ground arith

past_cooldown-runs_if :
    (c : Settings) (w : Surroundings) (s : MinerState)
    → length s.auto_reboot_timestamps < c.max_reboots_per_window
    → (c.qa_mode ≡ false) ⊎ (c.qa_allow_actions ≡ true)
    → runs_reboot (past_cooldown c w s).actions ≡ true
unfolding past_cooldown attempt_reboot
past_cooldown-runs_if c w s h k = ground arith

past_interlocks-runs :
    (c : Settings) (w : Surroundings) (s : MinerState) (o : Option ℕ)
    → runs_reboot (past_interlocks c w s o).actions ≡ true
    → (o ≡ none) × (runs_reboot (past_cooldown c w s).actions ≡ true)
past_interlocks-runs c w s none h = (refl, h)
past_interlocks-runs c w s (some r) h = ground arith

evaluate_low-runs :
    (c : Settings) (w : Surroundings) (m : Sample) (signal : Signal) (since : ℕ) (s : MinerState)
    → runs_reboot (evaluate_low c w m signal since s).actions ≡ true
    → (auto_reboot_signal_allows_evaluation s.state s.low_since_ts signal ≡ true)
      × (startup_guard_active c w.now_ts ≡ false)
      × (since + c.low_sustained_seconds ≤ w.now_ts)
      × ((evaluate_auto_reboot_interlocks (tick_evidence c w m signal)).allowed ≡ true)
      × (runs_reboot (past_interlocks c w s (cooldown_remaining c w.now_ts s)).actions ≡ true)
unfolding evaluate_low
evaluate_low-runs c w m signal since s h = ground arith

cooldown-IsOld :
    (c : Settings) (now : ℕ) (s : MinerState)
    → cooldown_remaining c now s ≡ none
    → (c.reboot_cooldown_seconds ≡ 0)
      ⊎ (IsOld c now s.last_manual_reboot_ts × IsOld c now s.last_auto_reboot_ts)
unfolding cooldown_remaining
cooldown-IsOld c now s h = ground arith

old-cooldown :
    (c : Settings) (now : ℕ) (s : MinerState)
    → (c.reboot_cooldown_seconds ≡ 0)
      ⊎ (IsOld c now s.last_manual_reboot_ts × IsOld c now s.last_auto_reboot_ts)
    → cooldown_remaining c now s ≡ none
unfolding cooldown_remaining
old-cooldown c now s h = ground arith

if_low-runs :
    (c : Settings) (w : Surroundings) (m : Sample) (signal : Signal) (s : MinerState) (o : Option ℕ)
    → runs_reboot (if_low c w m signal s (low_since s o)).actions ≡ true
    → (since : ℕ) × (s.state ≡ low)
      × (o ≡ some since)
      × (since ≢ 0)
      × (runs_reboot (evaluate_low c w m signal since s).actions ≡ true)
if_low-runs c w m signal s none h = ground arith
if_low-runs c w m signal s (some t) h = (t, ground arith, refl, ground arith, ground arith)

if_low-runs_if :
    (c : Settings) (w : Surroundings) (m : Sample) (signal : Signal) (s : MinerState) (o : Option ℕ)
    (since : ℕ)
    → o ≡ some since
    → s.state ≡ low
    → since ≢ 0
    → runs_reboot (evaluate_low c w m signal since s).actions ≡ true
    → runs_reboot (if_low c w m signal s (low_since s o)).actions ≡ true
if_low-runs_if c w m signal s o since e k nz h = ground arith

pub policy-if_low :
    (c : Settings) (w : Surroundings) (m : Sample) (previous : State) (s : MinerState)
    → let t = drop_old_reboots c w.now_ts s in
      runs_reboot (auto_reboot_policy c w m previous s).actions
      ≡ runs_reboot (if_low c w m (tick_signal c m) t (low_since t t.low_since_ts)).actions
unfolding auto_reboot_policy
policy-if_low c w m previous s =
    let t = drop_old_reboots c w.now_ts s in
    let o = if_low c w m (tick_signal c m) t (low_since t t.low_since_ts) in
    ground (
      arith,
      any-append is_run (early_decisions (tick_signal c m) previous t) o.actions,
      early_decisions-quiet (tick_signal c m) previous t,
    )

allows-eligible :
    (k : State) (since : Option ℕ) (signal : Signal)
    → auto_reboot_signal_allows_evaluation k since signal ≡ true
    → signal ≡ eligible
unfolding auto_reboot_signal_allows_evaluation
allows-eligible k since signal h = ground arith

startup_guard-over :
    (c : Settings) (now : ℕ)
    → startup_guard_active c now ≡ false
    → c.process_start_ts + c.startup_guard_seconds ≤ now
unfolding startup_guard_active
startup_guard-over c now h = ground arith

-- If the policy runs the command line tool then every gate was passed: the miner is LOW since a
-- time that is not 0, its signal this tick is eligible, the startup guard is over, it has been LOW
-- for the sustained time, the interlocks allow it, the cooldown is 0 or no reboot of either kind
-- lies within it, the window holds fewer reboots than its maximum, and QA mode is off or allows
-- actions.
pub reboot_requires :
    (c : Settings) (w : Surroundings) (m : Sample) (previous : State) (s : MinerState)
    → runs_reboot (auto_reboot_policy c w m previous s).actions ≡ true
    → MayReboot c w m s
unfolding drop_old_reboots
reboot_requires c w m previous s h =
    let t = drop_old_reboots c w.now_ts s in
    let signal = tick_signal c m in
    let (since, low_now, low_from, timed, low_runs) =
      if_low-runs c w m signal t t.low_since_ts (sym (policy-if_low c w m previous s) ∙ h) in
    let (allows, guard, sustained, allowed, past) =
      evaluate_low-runs c w m signal since t low_runs in
    let (cool, ran) = past_interlocks-runs c w t (cooldown_remaining c w.now_ts t) past in
    let (room, may) = past_cooldown-runs c w t ran in
    record {
      is_low = low_now;
      signal = allows-eligible t.state t.low_since_ts signal allows;
      started = startup_guard-over c w.now_ts guard;
      since = since;
      low_since = low_from;
      timed = timed;
      sustained = sustained;
      interlocks = allowed;
      cooled = cooldown-IsOld c w.now_ts t cool;
      in_window = room;
      permitted = may;
    }

pub startup_guard-inactive :
    (c : Settings) (now : ℕ)
    → c.process_start_ts + c.startup_guard_seconds ≤ now
    → startup_guard_active c now ≡ false
unfolding startup_guard_active
startup_guard-inactive c now h = ground arith

pub allows_of_eligible :
    (k : State) (since : ℕ) (signal : Signal)
    → k ≡ low
    → signal ≡ eligible
    → auto_reboot_signal_allows_evaluation k (some since) signal ≡ true
unfolding auto_reboot_signal_allows_evaluation
allows_of_eligible k since signal h e = ground arith

evaluate_low-runs_if :
    (c : Settings) (w : Surroundings) (m : Sample) (signal : Signal) (since : ℕ) (s : MinerState)
    → auto_reboot_signal_allows_evaluation s.state s.low_since_ts signal ≡ true
    → startup_guard_active c w.now_ts ≡ false
    → since + c.low_sustained_seconds ≤ w.now_ts
    → (evaluate_auto_reboot_interlocks (tick_evidence c w m signal)).allowed ≡ true
    → cooldown_remaining c w.now_ts s ≡ none
    → runs_reboot (past_cooldown c w s).actions ≡ true
    → runs_reboot (evaluate_low c w m signal since s).actions ≡ true
unfolding evaluate_low
evaluate_low-runs_if c w m signal since s a b d e f g = ground arith

-- If every one of these gates is passed then the policy runs the command line tool: the miner is
-- LOW since a time that is not 0, eligible, past the startup guard, LOW for the sustained time,
-- clear of the interlocks, out of the cooldown, with room in the window, and permitted by QA mode.
pub reboot_happens :
    (c : Settings) (w : Surroundings) (m : Sample) (previous : State) (s : MinerState)
    → MayReboot c w m s
    → runs_reboot (auto_reboot_policy c w m previous s).actions ≡ true
unfolding drop_old_reboots
reboot_happens c w m previous s g =
    let t = drop_old_reboots c w.now_ts s in
    let signal = tick_signal c m in
    let low_runs =
      evaluate_low-runs_if c w m signal g.since t
        (rw g.low_since (allows_of_eligible s.state g.since signal g.is_low g.signal))
        (startup_guard-inactive c w.now_ts g.started) g.sustained g.interlocks
        (old-cooldown c w.now_ts t g.cooled)
        (past_cooldown-runs_if c w t g.in_window g.permitted) in
    policy-if_low c w m previous s
    ∙ if_low-runs_if c w m signal t t.low_since_ts g.since g.low_since g.is_low g.timed low_runs
