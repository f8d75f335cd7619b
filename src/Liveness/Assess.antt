-- ===== src/Liveness/Assess.antt =====
-- `assess_liveness` in app/liveness.py. Times are natural numbers of millionths of a second. The
-- service's state is given by the test that the code makes on its text.
use miner_alerts.Base.{
  ℕ, ◌+◌, ◌-◌, Bool, true, false, ◌&&◌, not, Option, none, some, List, [], ◌∷◌, ◌++◌, any, ltb, eqb,
  if◌then◌else◌,
}
use miner_alerts.Base.Int.{pos}
use miner_alerts.Base.Float.{Float, fin, is_finite, le_float}

pub record MonitorHeartbeat : Type 0 where
  pub pid : ℕ
  pub process_start_ts : ℕ
  pub tick_sequence : ℕ
  pub last_tick_completed_ts : ℕ
  pub telegram_poller_ts : Option ℕ
  pub telegram_sender_ts : Option ℕ
  pub queue_depth : ℕ
  pub collector_age_seconds : Option ℕ

pub record MaintenanceLease : Type 0 where
  pub expires_ts : Float

-- `MaintenanceLease.active`
unfoldable pub lease_active : ℕ → MaintenanceLease → Bool
lease_active now l = is_finite l.expires_ts && le_float (fin (pos now)) l.expires_ts

-- The reason codes; the first three after `process_missing` are the errors of `load_heartbeat`.
pub data Reason : Type 0 where
  service_stopped process_missing heartbeat_missing heartbeat_malformed : Reason
  heartbeat_schema_unsupported clock_skew tick_stale telegram_poller_stale : Reason
  telegram_sender_stale collector_stale : Reason

-- The place of a code in that list, by which two codes are compared.
abbrev index_of : Reason → ℕ
index_of service_stopped = 0
index_of process_missing = 1
index_of heartbeat_missing = 2
index_of heartbeat_malformed = 3
index_of heartbeat_schema_unsupported = 4
index_of clock_skew = 5
index_of tick_stale = 6
index_of telegram_poller_stale = 7
index_of telegram_sender_stale = 8
index_of collector_stale = 9

abbrev pub eqb_reason : Reason → Reason → Bool
eqb_reason a b = eqb (index_of a) (index_of b)

-- The thresholds of the keyword arguments.
pub record Thresholds : Type 0 where
  pub tick_stale_seconds : ℕ
  pub worker_stale_seconds : ℕ
  pub collector_stale_seconds : ℕ
  pub clock_skew_tolerance_seconds : ℕ

pub record HeartbeatEvidence : Type 0 where
  pub heartbeat_pid : ℕ
  pub tick_sequence : ℕ
  pub tick_age_seconds : ℕ
  pub telegram_poller_age_seconds : Option ℕ
  pub telegram_sender_age_seconds : Option ℕ
  pub collector_age_seconds : Option ℕ
  pub queue_depth : ℕ

pub record LivenessAssessment : Type 0 where
  pub healthy : Bool
  pub reason_codes : List Reason
  pub evidence : Option HeartbeatEvidence
  pub suppressed : Bool

-- `_age`
abbrev pub age : ℕ → Option ℕ → Option ℕ
age now none = none
age now (some t) = some (now - t)

-- `age is None or age > limit`
abbrev pub is_stale : ℕ → Option ℕ → Bool
is_stale limit none = true
is_stale limit (some a) = ltb limit a

-- `age is not None and age > limit`
abbrev pub is_overdue : ℕ → Option ℕ → Bool
is_overdue limit none = false
is_overdue limit (some a) = ltb limit a

abbrev pub tick_age : ℕ → MonitorHeartbeat → ℕ
tick_age now h = now - h.last_tick_completed_ts

-- The collector's age grows with the age of the tick that reported it.
abbrev older : ℕ → Option ℕ → Option ℕ
older extra none = none
older extra (some a) = some (a + extra)

unfoldable pub collector_age : ℕ → MonitorHeartbeat → Option ℕ
collector_age now h = older (tick_age now h) h.collector_age_seconds

abbrev pub is_ahead : ℕ → Option ℕ → Bool
is_ahead limit none = false
is_ahead limit (some t) = ltb limit t

unfoldable pub is_skewed : Thresholds → ℕ → MonitorHeartbeat → Bool
is_skewed c now h = any (is_ahead (now + c.clock_skew_tolerance_seconds)) (
    some h.process_start_ts
    ∷ some h.last_tick_completed_ts
    ∷ h.telegram_poller_ts
    ∷ h.telegram_sender_ts
    ∷ [])

abbrev pub when : Bool → Reason → List Reason
when b r = if b then r ∷ [] else []

abbrev error_or_missing : Option Reason → Reason
error_or_missing none = heartbeat_missing
error_or_missing (some r) = r

-- The reasons that the heartbeat gives, in the order of the code.
unfoldable pub heartbeat_reasons :
    Thresholds → ℕ → Option Reason → Option MonitorHeartbeat → List Reason
heartbeat_reasons c now error none = error_or_missing error ∷ []
heartbeat_reasons c now error (some h) =
    when (is_skewed c now h) clock_skew
    ++ (when (ltb c.tick_stale_seconds (tick_age now h)) tick_stale
        ++ (when (is_stale c.worker_stale_seconds (age now h.telegram_poller_ts))
              telegram_poller_stale
            ++ (when (is_stale c.worker_stale_seconds (age now h.telegram_sender_ts))
                  telegram_sender_stale
                ++ when (is_overdue c.collector_stale_seconds (collector_age now h))
                    collector_stale)))

unfoldable pub all_reasons :
    Thresholds → ℕ → Bool → Bool → Option Reason → Option MonitorHeartbeat → List Reason
unfolding heartbeat_reasons
all_reasons c now running alive error h =
    when (not running) service_stopped
    ++ (when (not alive) process_missing ++ heartbeat_reasons c now error h)

-- `tuple(dict.fromkeys(reasons))`: each code once, at its first place.
unfoldable pub remove : Reason → List Reason → List Reason
remove r [] = []
remove r (x ∷ xs) = let rest = remove r xs in if eqb_reason x r then rest else x ∷ rest

unfoldable pub unique : List Reason → List Reason
unfolding remove
unique [] = []
unique (x ∷ xs) = x ∷ remove x (unique xs)

abbrev evidence_of : ℕ → Option MonitorHeartbeat → Option HeartbeatEvidence
evidence_of now none = none
evidence_of now (some h) = some (record {
  heartbeat_pid = h.pid;
  tick_sequence = h.tick_sequence;
  tick_age_seconds = tick_age now h;
  telegram_poller_age_seconds = age now h.telegram_poller_ts;
  telegram_sender_age_seconds = age now h.telegram_sender_ts;
  collector_age_seconds = collector_age now h;
  queue_depth = h.queue_depth;
})

abbrev pub is_empty : List Reason → Bool
is_empty [] = true
is_empty (x ∷ xs) = false

abbrev pub in_maintenance : ℕ → Option MaintenanceLease → Bool
in_maintenance now none = false
in_maintenance now (some l) = lease_active now l

unfoldable pub assess_liveness :
    Thresholds
    → ℕ
    → Option MonitorHeartbeat
    → Bool
    → Bool
    → Option Reason
    → Option MaintenanceLease
    → LivenessAssessment
assess_liveness c now h running alive error lease =
    let reasons = unique (all_reasons c now running alive error h) in
    record {
      healthy = is_empty reasons;
      reason_codes = reasons;
      evidence = evidence_of now h;
      suppressed = in_maintenance now lease && not (is_empty reasons);
    }
