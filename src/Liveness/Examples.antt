-- ===== src/Liveness/Examples.antt =====
-- Concrete checks of the monitor for app/liveness.py.
use miner_alerts.Base.{ℕ, ◌*◌, ◌≡◌, ◌↔◌, refl, true, false, none, some, List, [], ◌∷◌}
use miner_alerts.Base.Int.{pos}
use miner_alerts.Base.Float.{fin}
use miner_alerts.Base.Value.{unit}
use miner_alerts.Liveness.Assess.{
  MonitorHeartbeat, MaintenanceLease, Thresholds, LivenessAssessment, tick_stale, assess_liveness,
}
use miner_alerts.Liveness.Notify.{
  WatchdogIncidentState, reminder, last_notice, reminder_wait, decide_notification,
}
use miner_alerts.Liveness.Health.{Beats, healthy_iff}
use miner_alerts.Liveness.Incidents.{Move, decide-Move}

-- The defaults of the code.
abbrev limits : Thresholds
limits = record {
  tick_stale_seconds = 120 * unit;
  worker_stale_seconds = 120 * unit;
  collector_stale_seconds = 3600 * unit;
  clock_skew_tolerance_seconds = 5 * unit;
}

abbrev beat : MonitorHeartbeat
beat = record {
  pid = 400;
  process_start_ts = 1000 * unit;
  tick_sequence = 12;
  last_tick_completed_ts = 1200 * unit;
  telegram_poller_ts = some (1210 * unit);
  telegram_sender_ts = some (1205 * unit);
  queue_depth = 0;
  collector_age_seconds = some (300 * unit);
}

abbrev lease : MaintenanceLease
lease = record { expires_ts = fin (pos (2000 * unit)) }

-- The tick stopped half an hour ago.
abbrev stuck : LivenessAssessment
stuck = record {
  healthy = false;
  reason_codes = tick_stale ∷ [];
  evidence = none;
  suppressed = false;
}

abbrev incident : WatchdogIncidentState
incident = record {
  is_open = true;
  reason_codes = tick_stale ∷ [];
  opened_ts = some (3000 * unit);
  last_seen_ts = some (3000 * unit);
  last_notified_ts = some (3000 * unit);
  notification_count = 1;
}

abbrev waits : List ℕ
waits = 300 ∷ 900 ∷ 3600 ∷ []

healthy_iff_example :
    ((assess_liveness limits (1215 * unit) (some beat) true true none none).healthy ≡ true)
    ↔ ((true ≡ true) × (true ≡ true) × Beats limits (1215 * unit) (some beat))
healthy_iff_example = healthy_iff limits (1215 * unit) (some beat) true true none none

decide-Move_example :
    let (notice, t) = decide_notification stuck incident (3400 * unit) waits in
    Move true notice t.is_open
decide-Move_example = decide-Move stuck incident (3400 * unit) waits

stuck_reminder : (decide_notification stuck incident (3400 * unit) waits).0 ≡ reminder
unfolding decide_notification last_notice reminder_wait
stuck_reminder = refl
