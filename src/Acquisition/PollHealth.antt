-- ===== src/Acquisition/PollHealth.antt =====
-- `PollHealth` in app/acquisition.py: what is kept of the polls. The lock makes each call one step; the
-- provider of the number in flight is an argument of `snapshot`.
pub mod History
use miner_alerts.Base.{
  ℕ, zero, suc, ◌+◌, ◌-◌, max, Bool, true, false, ◌&&◌, ◌||◌, Option, none, some, List, [], ◌∷◌,
  ◌++◌, String, length, drop, all, is_some, if◌then◌else◌,
}
use miner_alerts.Base.Int.{ℤ, pos, pos_part}
use miner_alerts.Base.Float.{
  Float, fin, is_finite, sub_float, times_float, max_float, at_least_zero,
}
use miner_alerts.Base.Dict.{Dict, lookup, insert}
use miner_alerts.Acquisition.Scheduler.{AcquisitionEpoch}
use miner_alerts.Acquisition.Sample.{
  Quality, valid, partial, invalid, timed_out, error, late, Reason, transport_timeout,
  transport_error, MinerSampleEnvelope,
}

pub data FleetReason : Type 0 where
  no_failure fleet_transport_failure : FleetReason

pub record PollHealth : Type 0 where
  pub latency_window_size : ℕ
  pub latencies : List Float
  pub consecutive_timeouts : ℕ
  pub last_success_ts : Option ℕ
  pub last_epoch_duration_ms : Float
  pub last_epoch_completed_count : ℕ
  pub last_epoch_quality_counts : Dict ℕ
  pub last_epoch_summary_requests : ℕ
  pub last_epoch_stats_requests : ℕ
  pub skipped_epoch_count : ℕ
  pub fleet_reason_code : FleetReason

-- `__init__`; `none` is the ValueError.
unfoldable pub make_poll_health : ℕ → Option PollHealth
make_poll_health zero = none
make_poll_health (suc n) = some (record {
  latency_window_size = suc n;
  latencies = [];
  consecutive_timeouts = 0;
  last_success_ts = none;
  last_epoch_duration_ms = fin (pos 0);
  last_epoch_completed_count = 0;
  last_epoch_quality_counts = [];
  last_epoch_summary_requests = 0;
  last_epoch_stats_requests = 0;
  skipped_epoch_count = 0;
  fleet_reason_code = no_failure;
})

-- `max(0, int(count))`
unfoldable pub set_skipped_epoch_count : ℤ → PollHealth → PollHealth
set_skipped_epoch_count count h = record h { skipped_epoch_count = pos_part count }

-- The texts of the qualities.
abbrev pub quality_value : Quality → String
quality_value valid = "valid"
quality_value partial = "partial"
quality_value invalid = "invalid"
quality_value timed_out = "timeout"
quality_value error = "error"
quality_value late = "late"

abbrev pub or_zero : Option ℕ → ℕ
or_zero none = 0
or_zero (some n) = n

-- `Counter(...)`
unfoldable pub count_qualities : List MinerSampleEnvelope → Dict ℕ → Dict ℕ
count_qualities [] d = d
count_qualities (e ∷ es) d =
    let key = quality_value e.quality in
    count_qualities es (insert key (suc (or_zero (lookup key d))) d)

abbrev pub is_transport_failure : Reason → Bool
is_transport_failure transport_timeout = true
is_transport_failure transport_error = true
is_transport_failure _ = false

abbrev is_empty : List MinerSampleEnvelope → Bool
is_empty [] = true
is_empty (e ∷ es) = false

unfoldable pub all_transport_failed : List MinerSampleEnvelope → Bool
all_transport_failed es =
    if is_empty es then false else all (λ e. is_transport_failure e.reason_code) es

abbrev later_time : ℕ → Option ℕ → Option ℕ
later_time t none = some t
later_time t (some u) = some (max t u)

-- The latest time of a valid observation.
unfoldable pub latest_success : List MinerSampleEnvelope → Option ℕ
latest_success [] = none
latest_success (e ∷ es) = let rest = latest_success es in later_success e.quality e.observed_ts rest
  where
    later_success : Quality → ℕ → Option ℕ → Option ℕ
    later_success valid t rest = later_time t rest
    later_success _ t rest = rest

abbrev or_before : Option ℕ → Option ℕ → Option ℕ
or_before none before = before
or_before (some t) before = some t

abbrev latest_of : Float → List MinerSampleEnvelope → Float
latest_of x [] = x
latest_of x (e ∷ es) = latest_of (max_float x e.completed_monotonic) es

unfoldable pub latest_completion : ℕ → List MinerSampleEnvelope → Float
latest_completion scheduled [] = fin (pos scheduled)
latest_completion scheduled (e ∷ es) = latest_of e.completed_monotonic es

-- `append` of a deque with a greatest length
unfoldable pub append_bounded : ℕ → List Float → Float → List Float
append_bounded size xs x = let ys = xs ++ x ∷ [] in drop (length ys - size) ys

unfoldable pub add_latencies : ℕ → List MinerSampleEnvelope → List Float → List Float
add_latencies size [] xs = xs
add_latencies size (e ∷ es) xs =
    let kept = append_bounded size xs (at_least_zero e.latency_ms) in
    let more = add_latencies size es kept in
    let same = add_latencies size es xs in if is_finite e.latency_ms then more else same

abbrev sum_of : (MinerSampleEnvelope → ℕ) → List MinerSampleEnvelope → ℕ
sum_of f [] = 0
sum_of f (e ∷ es) = f e + sum_of f es

-- `quality_counts.get("timeout", 0)` as a test
abbrev pub nonzero : Option ℕ → Bool
nonzero (some (suc n)) = true
nonzero _ = false

unfoldable pub record_epoch : AcquisitionEpoch → List MinerSampleEnvelope → PollHealth → PollHealth
unfolding all_transport_failed add_latencies count_qualities latest_success latest_completion
record_epoch epoch es h =
    let counts = count_qualities es [] in
    let started = epoch.scheduled_monotonic in
    record h {
      latencies = add_latencies h.latency_window_size es h.latencies;
      consecutive_timeouts =
          if nonzero (lookup "timeout" counts) then suc h.consecutive_timeouts else 0;
      last_success_ts = or_before (latest_success es) h.last_success_ts;
      last_epoch_duration_ms =
          at_least_zero (times_float 1000 (sub_float (latest_completion started es) (pos started)));
      last_epoch_completed_count = length es;
      last_epoch_quality_counts = counts;
      last_epoch_summary_requests = sum_of (λ e. e.summary_requests) es;
      last_epoch_stats_requests = sum_of (λ e. e.stats_requests) es;
      fleet_reason_code = if all_transport_failed es then fleet_transport_failure else no_failure;
    }

pub record PollHealthSnapshot : Type 0 where
  pub health : PollHealth
  pub in_flight : ℕ

-- `snapshot`: the health as it is, and what the provider gives, if it is not negative.
unfoldable pub snapshot : ℤ → PollHealth → PollHealthSnapshot
snapshot in_flight h = record { health = h; in_flight = pos_part in_flight }
