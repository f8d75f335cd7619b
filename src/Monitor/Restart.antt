-- ===== src/Monitor/Restart.antt =====
-- Uptime in the tick of app/miner_monitor.py: a restart seen in the uptime, the incident and the
-- notice for it, and the pending reboot notice.
use miner_alerts.Base.{
  ℕ, ◌+◌, Bool, true, false, ◌&&◌, ◌||◌, Option, none, some, ltb, leb, eqb, not, is_some,
  if◌then◌else◌,
}
use miner_alerts.RestartIntelligence.{
  Classification, unexpected, RestartClassification, classify_restart,
}
use miner_alerts.Monitor.State.{
  State, RebootReason, elapsed_drop, elapsed_reset, MinerState, Settings, Sample, Surroundings,
  is_low, is_offline,
}

-- The tests on the uptime: a fall by more than 600 s, or below 300 s from over 3600 s.
unfoldable pub reboot_reason : Option ℕ → Option ℕ → Option RebootReason
reboot_reason (some elapsed) (some last) =
    if ltb (elapsed + 600) last
    then some elapsed_drop
    else (if ltb elapsed 300 && ltb 3600 last then some elapsed_reset else none)
reboot_reason _ _ = none

-- The reason that this tick's reading gives.
unfoldable pub reason_now : Sample → MinerState → Option RebootReason
unfolding reboot_reason
reason_now m s = if m.responded then reboot_reason m.elapsed s.last_elapsed else none

-- `last_seen_ts`, `last_elapsed` and the timer that a restart clears.
unfoldable pub observe_uptime : ℕ → Sample → MinerState → MinerState
unfolding reason_now
observe_uptime now m s = record s {
  last_seen_ts = if m.responded then now else s.last_seen_ts;
  last_elapsed = if m.responded && is_some m.elapsed then m.elapsed else s.last_elapsed;
  low_since_ts = if is_some (reason_now m s) then none else s.low_since_ts;
}

pub record RestartObservation : Type 0 where
  pub event_id : Option ℕ
  pub classification : Classification
  pub previous_elapsed : ℕ
  pub current_elapsed : ℕ

abbrev pub is_unexpected : Classification → Bool
is_unexpected unexpected = true
is_unexpected _ = false

-- `classify_restart` as the tick calls it, with the default tolerance of 10 s.
unfoldable pub classify :
    Settings → ℕ → RebootReason → MinerState → RestartClassification RebootReason
classify c now why s =
    classify_restart why now s.last_manual_reboot_ts s.last_auto_reboot_ts
      c.restart_attribution_window_seconds 10000000

unfoldable pub should_notify_restart : Settings → Classification → Bool
should_notify_restart c k =
    (is_unexpected k && c.notify_unexpected_restarts)
    || (not (is_unexpected k) && c.notify_expected_restarts)

-- What `observe` is told of the restart; the uptimes are present whenever there is a reason.
abbrev restart_observation :
    Settings → Surroundings → Classification → Option ℕ → Option ℕ → Option RestartObservation
restart_observation c w k (some previous) (some current) =
    if c.notify_reboot && should_notify_restart c k && (not c.qa_mode || c.qa_notify)
    then some (record {
      event_id = if w.store_available then w.incident_id else none;
      classification = k;
      previous_elapsed = previous;
      current_elapsed = current;
    })
    else none
restart_observation c w k _ _ = none

unfoldable pub observe_restart :
    Settings
    → Surroundings
    → Sample
    → Option RebootReason
    → Option ℕ
    → MinerState
    → Option (RestartClassification RebootReason × Option RestartObservation)
unfolding classify should_notify_restart
observe_restart c w m none previous s = none
observe_restart c w m (some why) previous s =
    let k = classify c w.now_ts why s in
    some (k, restart_observation c w k.classification previous m.elapsed)

clear_pending : MinerState → MinerState
clear_pending s = record s {
  reboot_pending_until = 0;
  reboot_pending_reason = none;
  reboot_pending_elapsed = none;
}

abbrev pub is_down : State → Bool
is_down k = is_low k || is_offline k

-- A restart is named at once if the miner is down, or kept pending for a window.
unfoldable pub note_reboot :
    Settings → ℕ → Sample → Option RebootReason → MinerState → MinerState × Bool
unfolding clear_pending
note_reboot c now m none s = (s, false)
note_reboot c now m (some why) s =
    if c.notify_reboot && leb (s.last_reboot_ts + c.reboot_cooldown_seconds) now
    then (if is_down s.state then (record (clear_pending s) { last_reboot_ts = now }, true) else (
      record s {
        reboot_pending_until = now + c.reboot_window_seconds;
        reboot_pending_reason = some why;
        reboot_pending_elapsed = m.elapsed;
      },
      false,
    ))
    else (s, false)

-- A pending notice past its window is dropped.
unfoldable pub expire_pending : ℕ → MinerState → MinerState
unfolding clear_pending
expire_pending now s =
    if not (eqb s.reboot_pending_until 0) && ltb s.reboot_pending_until now
    then clear_pending s
    else s

-- A pending notice is named once the miner is down.
unfoldable pub flush_pending : Settings → ℕ → MinerState → MinerState × Bool
unfolding clear_pending
flush_pending c now s =
    if not (eqb s.reboot_pending_until 0)
      && is_down s.state
      && leb (s.last_reboot_ts + c.reboot_cooldown_seconds) now
    then (record (clear_pending s) { last_reboot_ts = now }, true)
    else (s, false)
