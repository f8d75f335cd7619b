-- ===== src/Acquisition/Scheduler.antt =====
-- `EpochScheduler` in app/acquisition.py. Clock readings are in millionths of a second and may go
-- back; the floor division of floats is exact.
pub mod Pace
use miner_alerts.Base.{
  ℕ, zero, suc, ◌+◌, ◌-◌, ◌/◌, max, Option, none, some, List, [], ◌∷◌, ltb, if◌then◌else◌,
}
use miner_alerts.Base.Int.{pos}
use miner_alerts.Base.Float.{Float, fin}

pub record AcquisitionEpoch : Type 0 where
  pub epoch_id : ℕ
  pub scheduled_monotonic : ℕ
  pub deadline_monotonic : ℕ
  pub observed_ts : ℕ

pub record EpochScheduler : Type 0 where
  pub period_seconds : ℕ
  pub last_epoch_id : ℕ
  pub last_scheduled_monotonic : Option ℕ
  pub skipped_epoch_count : ℕ

-- `__init__`; `none` is the ValueError.
unfoldable pub make_scheduler : Float → Option EpochScheduler
make_scheduler (fin (pos (suc n))) = some (record {
  period_seconds = suc n;
  last_epoch_id = 0;
  last_scheduled_monotonic = none;
  skipped_epoch_count = 0;
})
make_scheduler _ = none

-- The arguments of `next_epoch`.
pub record Poll : Type 0 where
  pub now_monotonic : ℕ
  pub observed_ts : ℕ
  pub deadline_seconds : ℕ

unfoldable pub issue : Poll → EpochScheduler → AcquisitionEpoch × EpochScheduler
issue q s = (
  record {
    epoch_id = suc s.last_epoch_id;
    scheduled_monotonic = q.now_monotonic;
    deadline_monotonic = q.now_monotonic + q.deadline_seconds;
    observed_ts = q.observed_ts;
  },
  record s { last_epoch_id = suc s.last_epoch_id; last_scheduled_monotonic = some q.now_monotonic },
)

-- The periods that went by without an epoch; time that goes back counts as no time.
unfoldable pub skip : ℕ → EpochScheduler → EpochScheduler
skip elapsed s = record s {
  skipped_epoch_count = s.skipped_epoch_count + (max 1 (elapsed / s.period_seconds) - 1);
}

abbrev granted : AcquisitionEpoch × EpochScheduler → Option AcquisitionEpoch × EpochScheduler
granted (e, s) = (some e, s)

unfoldable pub after_last :
    Poll → EpochScheduler → Option ℕ → Option AcquisitionEpoch × EpochScheduler
unfolding issue skip
after_last q s none = granted (issue q s)
after_last q s (some t) =
    let elapsed = q.now_monotonic - t in
    if ltb elapsed s.period_seconds then (none, s) else granted (issue q (skip elapsed s))

unfoldable pub next_epoch : Poll → EpochScheduler → Option AcquisitionEpoch × EpochScheduler
unfolding after_last
next_epoch q s = after_last q s s.last_scheduled_monotonic

abbrev pub add_epoch : Option AcquisitionEpoch → List AcquisitionEpoch → List AcquisitionEpoch
add_epoch none es = es
add_epoch (some e) es = e ∷ es

-- The epochs of a series of calls.
unfoldable pub poll_all : List Poll → EpochScheduler → List AcquisitionEpoch × EpochScheduler
poll_all [] s = ([], s)
poll_all (q ∷ qs) s =
    let (e, s') = next_epoch q s in let (es, last) = poll_all qs s' in (add_epoch e es, last)
