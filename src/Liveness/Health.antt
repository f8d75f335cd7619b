-- ===== src/Liveness/Health.antt =====
-- When the assessment of app/liveness.py finds the monitor healthy.
use miner_alerts.Base.{
  ℕ, ◌+◌, ◌-◌, ◌≤◌, ◌≡◌, ◌↔◌, refl, ◌∙◌, Bool, true, false, ◌&&◌, Option, none, some, List, [], ◌∷◌,
  arith,
}
use miner_alerts.Liveness.Assess.{
  MonitorHeartbeat, MaintenanceLease, Reason, Thresholds, heartbeat_reasons, all_reasons, unique,
  is_empty, in_maintenance, assess_liveness, is_skewed, collector_age,
}

-- A time that was reported and is no older than the limit.
abbrev pub WithinLast : ℕ → ℕ → Option ℕ → Type 0
WithinLast now limit none = ⊥
WithinLast now limit (some t) = now ≤ t + limit

abbrev pub NotAhead : ℕ → Option ℕ → Type 0
NotAhead limit none = Unit
NotAhead limit (some t) = t ≤ limit

-- The collector's age as reported, grown by the age of the tick, if there is one.
abbrev pub CollectorFresh : ℕ → ℕ → MonitorHeartbeat → Option ℕ → Type 0
CollectorFresh now limit h none = Unit
CollectorFresh now limit h (some a) = a + (now - h.last_tick_completed_ts) ≤ limit

-- A heartbeat that gives no reason to worry.
pub record IsBeating (c : Thresholds) (now : ℕ) (h : MonitorHeartbeat) : Type 0 where
  pub start : h.process_start_ts ≤ now + c.clock_skew_tolerance_seconds
  pub tick_time : h.last_tick_completed_ts ≤ now + c.clock_skew_tolerance_seconds
  pub poller_time : NotAhead (now + c.clock_skew_tolerance_seconds) h.telegram_poller_ts
  pub sender_time : NotAhead (now + c.clock_skew_tolerance_seconds) h.telegram_sender_ts
  pub tick : now ≤ h.last_tick_completed_ts + c.tick_stale_seconds
  pub poller : WithinLast now c.worker_stale_seconds h.telegram_poller_ts
  pub sender : WithinLast now c.worker_stale_seconds h.telegram_sender_ts
  pub collector : CollectorFresh now c.collector_stale_seconds h h.collector_age_seconds

abbrev pub Beats : Thresholds → ℕ → Option MonitorHeartbeat → Type 0
Beats c now none = ⊥
Beats c now (some h) = IsBeating c now h

unique-empty : (rs : List Reason) → is_empty (unique rs) ≡ is_empty rs
unfolding unique
unique-empty [] = refl
unique-empty (r ∷ rs) = refl

IsBeating-of_empty :
    (c : Thresholds) (now : ℕ) (h : MonitorHeartbeat) (error : Option Reason)
    → is_empty (heartbeat_reasons c now error (some h)) ≡ true
    → IsBeating c now h
unfolding heartbeat_reasons is_skewed collector_age
IsBeating-of_empty c now h error e = ground arith

empty_of_beating :
    (c : Thresholds) (now : ℕ) (h : MonitorHeartbeat) (error : Option Reason)
    → IsBeating c now h
    → is_empty (heartbeat_reasons c now error (some h)) ≡ true
unfolding heartbeat_reasons is_skewed collector_age
empty_of_beating c now h error b = ground arith

no_heartbeat :
    (c : Thresholds) (now : ℕ) (error : Option Reason)
    → is_empty (heartbeat_reasons c now error none) ≡ true
    → ⊥
unfolding heartbeat_reasons
no_heartbeat c now error e = cc

heartbeat_iff :
    (c : Thresholds) (now : ℕ) (error : Option Reason) (h : Option MonitorHeartbeat)
    → (is_empty (heartbeat_reasons c now error h) ≡ true) ↔ Beats c now h
heartbeat_iff c now error none = (λ e. no_heartbeat c now error e, λ b. absurd b)
heartbeat_iff c now error (some h) =
    (IsBeating-of_empty c now h error, empty_of_beating c now h error)

all_reasons-empty :
    (c : Thresholds) (now : ℕ) (running alive : Bool) (error : Option Reason)
    (h : Option MonitorHeartbeat)
    → is_empty (all_reasons c now running alive error h)
      ≡ (running && (alive && is_empty (heartbeat_reasons c now error h)))
unfolding all_reasons
all_reasons-empty c now true true error h = refl
all_reasons-empty c now true false error h = refl
all_reasons-empty c now false alive error h = refl

healthy-parts :
    (c : Thresholds) (now : ℕ) (h : Option MonitorHeartbeat) (running alive : Bool)
    (error : Option Reason) (lease : Option MaintenanceLease)
    → (assess_liveness c now h running alive error lease).healthy
      ≡ (running && (alive && is_empty (heartbeat_reasons c now error h)))
unfolding assess_liveness
healthy-parts c now h running alive error lease =
    unique-empty (all_reasons c now running alive error h)
    ∙ all_reasons-empty c now running alive error h

-- The monitor is healthy exactly when its service runs, its process is alive, and there is a
-- heartbeat with no time ahead of the clock by more than the tolerance, a tick, a Telegram poller
-- and a Telegram sender within their limits, and a collector, if it reported an age, within its.
pub healthy_iff :
    (c : Thresholds) (now : ℕ) (h : Option MonitorHeartbeat) (running alive : Bool)
    (error : Option Reason) (lease : Option MaintenanceLease)
    → ((assess_liveness c now h running alive error lease).healthy ≡ true)
      ↔ ((running ≡ true) × (alive ≡ true) × Beats c now h)
healthy_iff c now h running alive error lease =
    let parts = healthy-parts c now h running alive error lease in
    let iff = heartbeat_iff c now error h in
    (
      λ e. (ground arith, ground arith, iff.0 (ground arith)),
      λ p.
          let beats : is_empty (heartbeat_reasons c now error h) ≡ true = iff.1 p.2 in ground arith,
    )

-- An assessment is healthy exactly when it has no reason code, and is suppressed only if it has one
-- and a maintenance lease is active.
pub assess-IsSound :
    (c : Thresholds) (now : ℕ) (h : Option MonitorHeartbeat) (running alive : Bool)
    (error : Option Reason) (lease : Option MaintenanceLease)
    → let a = assess_liveness c now h running alive error lease in
      (a.healthy ≡ is_empty a.reason_codes)
      × (a.suppressed ≡ true → (in_maintenance now lease ≡ true) × (a.healthy ≡ false))
unfolding assess_liveness
assess-IsSound c now h running alive error lease = (refl, λ s. ground arith)
