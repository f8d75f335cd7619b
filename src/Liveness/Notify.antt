-- ===== src/Liveness/Notify.antt =====
-- `decide_notification` in app/liveness.py: the incident's state from one check to the next.
use miner_alerts.Base.{
  ℕ, ◌+◌, ◌-◌, ◌*◌, max, min, Bool, true, false, not, ◌&&◌, Option, none, some, List, [], ◌∷◌, map,
  length, get_elem?, leb, eqb, if◌then◌else◌,
}
use miner_alerts.Base.Value.{unit}
use miner_alerts.Liveness.Assess.{Reason, eqb_reason, LivenessAssessment}

pub record WatchdogIncidentState : Type 0 where
  pub is_open : Bool
  pub reason_codes : List Reason
  pub opened_ts : Option ℕ
  pub last_seen_ts : Option ℕ
  pub last_notified_ts : Option ℕ
  pub notification_count : ℕ

-- `WatchdogIncidentState()`
abbrev pub no_incident : WatchdogIncidentState
no_incident = record {
  is_open = false;
  reason_codes = [];
  opened_ts = none;
  last_seen_ts = none;
  last_notified_ts = none;
  notification_count = 0;
}

pub data Notice : Type 0 where
  none_due opened updated reminder recovery : Notice

abbrev pub same_reasons : List Reason → List Reason → Bool
same_reasons [] [] = true
same_reasons (r ∷ rs) (q ∷ qs) = eqb_reason r q && same_reasons rs qs
same_reasons _ _ = false

abbrev or_hour : List ℕ → List ℕ
or_hour [] = 3600 ∷ []
or_hour (t ∷ ts) = t ∷ ts

-- `tuple(max(1, int(value)) …) or (3600,)`, in seconds.
unfoldable pub reminder_schedule : List ℕ → List ℕ
reminder_schedule raw = or_hour (map (max 1) raw)

abbrev at : Option ℕ → ℕ
at none = 0
at (some t) = t

-- The wait before the next reminder; the index is always in range.
unfoldable pub reminder_wait : List ℕ → ℕ → ℕ
unfolding reminder_schedule
reminder_wait raw count =
    let ts = reminder_schedule raw in at (get_elem? ts (min (count - 1) (length ts - 1)))

-- `last_notified_ts or opened_ts or now_ts`: a time 0 counts as missing.
abbrev or_else : Option ℕ → ℕ → ℕ
or_else none d = d
or_else (some t) d = if eqb t 0 then d else t

unfoldable pub last_notice : ℕ → WatchdogIncidentState → ℕ
last_notice now s = or_else s.last_notified_ts (or_else s.opened_ts now)

open_incident : ℕ → List Reason → WatchdogIncidentState
open_incident now reasons = record {
  is_open = true;
  reason_codes = reasons;
  opened_ts = some now;
  last_seen_ts = some now;
  last_notified_ts = some now;
  notification_count = 1;
}

unfoldable pub decide_notification :
    LivenessAssessment → WatchdogIncidentState → ℕ → List ℕ → Notice × WatchdogIncidentState
unfolding open_incident
decide_notification a s now raw =
    if a.suppressed
    then (none_due, s)
    else (if a.healthy
        then (if s.is_open then (recovery, no_incident) else (none_due, s))
        else (if not s.is_open
            then (opened, open_incident now a.reason_codes)
            else (if not (same_reasons a.reason_codes s.reason_codes)
                then (
                  updated,
                  record s {
                    reason_codes = a.reason_codes;
                    last_seen_ts = some now;
                    last_notified_ts = some now;
                    notification_count = s.notification_count + 1;
                  },
                )
                else (if leb (last_notice now s + reminder_wait raw s.notification_count * unit) now
                    then (
                      reminder,
                      record s {
                        last_seen_ts = some now;
                        last_notified_ts = some now;
                        notification_count = s.notification_count + 1;
                      },
                    )
                    else (none_due, record s { last_seen_ts = some now })))))
