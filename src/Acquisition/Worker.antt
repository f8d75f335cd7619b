-- ===== src/Acquisition/Worker.antt =====
-- One worker of `BoundedAcquirer` in app/acquisition.py. What the transport answers and what the clock
-- shows are given.
pub mod Sampled
pub mod Polled
use miner_alerts.Base.{
  ℕ, suc, ◌-◌, ◌*◌, Bool, true, false, ◌||◌, not, Option, none, some, String, leb, if◌then◌else◌,
}
use miner_alerts.Base.Int.{pos}
use miner_alerts.Base.Float.{Float, fin, lt_float}
use miner_alerts.Acquisition.Registry.{InFlightLease, InFlightRegistry, release}
use miner_alerts.Base.Json.{Conversions}
use miner_alerts.Acquisition.PollHealth.{PollHealth}
use miner_alerts.Acquisition.Sample.{
  Quality, valid, late, epoch_deadline_exceeded, failure, TransportOutcome, MinerSampleEnvelope,
  Subject, base_envelope, normalize_summary, with_stats, as_late,
}

pub record MinerEndpoint : Type 0 where
  pub key : String
  pub host : String
  pub port : ℕ

-- One call of the transport between two clock readings; `none` is an exception.
pub record Attempt : Type 0 where
  pub started : ℕ
  pub result : Option TransportOutcome
  pub completed : ℕ

-- A time of the clock as a float.
abbrev pub clock_time : ℕ → Float
clock_time t = fin (pos t)

abbrev or_error : Attempt → Option TransportOutcome → TransportOutcome
or_error a (some o) = o
or_error a none = record {
  status = failure;
  payload = none;
  completed_monotonic = clock_time a.completed;
  latency_ms = fin (pos ((a.completed - a.started) * 1000));
}

-- `_safe_transport`
unfoldable pub safe_transport : Attempt → TransportOutcome
safe_transport a = or_error a a.result

-- What one worker's run meets: the clock at its start, at once again if it is late, and the calls.
pub record Job : Type 0 where
  pub entered : ℕ
  pub refused : ℕ
  pub summary : Attempt
  pub stats : Attempt

abbrev pub is_valid : Quality → Bool
is_valid valid = true
is_valid _ = false

abbrev pub in_time : ℕ → MinerSampleEnvelope → MinerSampleEnvelope → MinerSampleEnvelope
in_time deadline e next =
    if lt_float (clock_time deadline) e.completed_monotonic then as_late e else next

-- The body of `_acquire_one` up to its `finally`.
unfoldable pub poll_miner : Conversions → Subject → ℕ → Bool → Job → MinerSampleEnvelope
unfolding as_late safe_transport base_envelope
poll_miner c s deadline include_stats job =
    if leb deadline job.entered
    then base_envelope s (clock_time job.refused) late epoch_deadline_exceeded (fin (pos 0)) 0
    else (let e = normalize_summary c s (safe_transport job.summary) in
        let f = with_stats c e (safe_transport job.stats) in
        in_time deadline e
          (if not (is_valid e.quality) || not include_stats then e else in_time deadline f f))

pub record BoundedAcquirer : Type 0 where
  pub leases : InFlightRegistry
  pub active_workers : ℕ
  pub closed : Bool
  pub poll_health : PollHealth

-- `_acquire_one`: the worker is counted, polls, gives its lease back and is not counted any more. What
-- its body gives is `none` if it raises.
unfoldable pub acquire_one :
    InFlightLease
    → Option MinerSampleEnvelope
    → BoundedAcquirer
    → Option MinerSampleEnvelope × BoundedAcquirer
acquire_one lease body a =
    let started = record a { active_workers = suc a.active_workers } in
    let freed = record started { leases = (release (some lease) started.leases).1 } in
    (body, record freed { active_workers = freed.active_workers - 1 })
