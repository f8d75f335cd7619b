-- ===== src/Liveness/Incidents.antt =====
-- The incidents that the notifications of app/liveness.py open and close.
use miner_alerts.Base.{
  ℕ, ◌+◌, ◌*◌, ◌≤◌, ◌≡◌, ◌⊎◌, inl, inr, Bool, true, false, List, arith, is_some,
}
use miner_alerts.Base.Value.{unit}
use miner_alerts.Liveness.Assess.{LivenessAssessment, is_empty}
use miner_alerts.Liveness.Notify.{
  WatchdogIncidentState, no_incident, Notice, none_due, opened, updated, reminder, recovery,
  reminder_wait, last_notice, decide_notification,
}

-- An incident that is open has reasons, times and a notice; one that is closed is as new.
abbrev pub IsIncident : WatchdogIncidentState → Type 0
IsIncident s =
    ((s.is_open ≡ true)
      × (is_empty s.reason_codes ≡ false)
      × (is_some s.opened_ts ≡ true)
      × (is_some s.last_notified_ts ≡ true)
      × (1 ≤ s.notification_count))
    ⊎ (s ≡ no_incident)

decide-IsIncident_closed :
    (a : LivenessAssessment) (now : ℕ) (raw : List ℕ)
    → a.healthy ≡ is_empty a.reason_codes
    → IsIncident (decide_notification a no_incident now raw).1
unfolding decide_notification
decide-IsIncident_closed a now raw h = ground arith

-- Each check keeps the state of the incident well formed, if the assessment is healthy exactly when
-- it has no reason code.
pub decide-IsIncident :
    (a : LivenessAssessment) (s : WatchdogIncidentState) (now : ℕ) (raw : List ℕ)
    → a.healthy ≡ is_empty a.reason_codes
    → IsIncident s
    → IsIncident (decide_notification a s now raw).1
unfolding decide_notification
decide-IsIncident a s now raw h (inl i) = ground arith
decide-IsIncident a s now raw h (inr i) = rw i (decide-IsIncident_closed a now raw h)

-- The legal moves between a closed and an open incident, by the notice that each sends.
pub data Move : Bool → Notice → Bool → Type 0 where
  quiet : (b : Bool) → Move b none_due b
  begin : Move false opened true
  change : Move true updated true
  remind : Move true reminder true
  finish : Move true recovery false

-- Each check is a legal move between an open and a closed incident: it opens only from closed,
-- closes only from open, and updates and reminds only while open.
pub decide-Move :
    (a : LivenessAssessment) (s : WatchdogIncidentState) (now : ℕ) (raw : List ℕ)
    → let (notice, t) = decide_notification a s now raw in Move s.is_open notice t.is_open
unfolding decide_notification
decide-Move a s now raw = grind (arith, quiet, begin, change, remind, finish)

-- While maintenance suppresses an assessment nothing is sent and the incident stays as it is.
pub suppressed_silent :
    (a : LivenessAssessment) (s : WatchdogIncidentState) (now : ℕ) (raw : List ℕ)
    → a.suppressed ≡ true
    → decide_notification a s now raw ≡ (none_due, s)
unfolding decide_notification
suppressed_silent a s now raw h = ground arith

-- A reminder is sent only when the wait that the schedule gives for the notices so far has passed
-- since the last notice.
pub reminder_waits :
    (a : LivenessAssessment) (s : WatchdogIncidentState) (now : ℕ) (raw : List ℕ)
    → (decide_notification a s now raw).0 ≡ reminder
    → last_notice now s + reminder_wait raw s.notification_count * unit ≤ now
unfolding decide_notification
reminder_waits a s now raw h = ground arith
