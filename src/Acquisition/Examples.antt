-- ===== src/Acquisition/Examples.antt =====
-- Concrete runs of app/acquisition.py.
use Prim.Native.Nat.{◌^◌}
use miner_alerts.Base.{
  is_some, ◌↔◌, if◌then◌else◌, ◌+◌, same_text, ℕ, ◌*◌, ◌≤◌, ◌<◌, ◌≡◌, ◌≢◌, refl, Bool, true, false,
  Option, none, some, List, [], ◌∷◌, String, map, keep, length, arith,
}
use miner_alerts.Base.Int.{pos}
use miner_alerts.Base.Float.{Float, fin}
use miner_alerts.Base.Value.{Value, boolean, integer, real, unit, exceeds_float}
use miner_alerts.Base.Dict.{Dict, lookup}
use miner_alerts.Acquisition.Config.{
  AcquisitionConfig, from_mapping, validate_acquisition_config_dict, float_config, overflows,
}
use miner_alerts.Acquisition.Config.Bounds.{AllReadable, Given, IsUsable, from_mapping-IsUsable}
use miner_alerts.Acquisition.Registry.{
  Authority, authoritative, diagnostic, InFlightLease, InFlightRegistry, new_registry, Request,
  lease_of, acquires, releases, asks, Call, run, release, Answer, flag, lease,
}
use miner_alerts.Acquisition.Registry.Refinement.{nobody, specify_all, run_refines}
use miner_alerts.Acquisition.Registry.Spent.{IsSpent, spent_release_refused}
use miner_alerts.Acquisition.Scheduler.{
  AcquisitionEpoch, EpochScheduler, Poll, make_scheduler, poll_all,
}
use miner_alerts.Acquisition.Scheduler.Pace.{IsPaced, IsAccounted, poll_all_lem}
use miner_alerts.Base.Json.{
  Json, integer as number, text as words, list, dict, item, end, entry, empty, Conversions,
}
use miner_alerts.Acquisition.Json.{count_active_boards, extract_rate_ths}
use miner_alerts.Acquisition.Sample.{
  TransportOutcome, success, timeout, Subject, MinerSampleEnvelope, Quality, valid, late,
}
use miner_alerts.Acquisition.PollHealth.{PollHealth, make_poll_health}
use miner_alerts.Acquisition.PollHealth.History.{History, Shows, after_epochs, after_epochs_lem}
use miner_alerts.Acquisition.Worker.{MinerEndpoint, Attempt, Job, BoundedAcquirer, poll_miner}
use miner_alerts.Acquisition.Worker.Polled.{IsPolled, poll_miner-IsPolled}
use miner_alerts.Acquisition.Collect.{
  Fate, Meanwhile, finished, unfinished, working, Round, collect, collected, refused,
  acquirer_closed, keys_not_unique, has_duplicate,
}
use miner_alerts.Acquisition.Collect.Answered.{Answers, collect_lem}
use miner_alerts.Acquisition.Collect.Kept.{collect_keeps_lease}
use miner_alerts.Acquisition.Dispatch.{applies, dispatch_authoritative}
use miner_alerts.Acquisition.Dispatch.Applied.{consume, dispatch_authoritative_lem}

abbrev settings : Dict Value
settings =
    ("adaptive_acquisition_enabled", boolean true)
    ∷ ("adaptive_acquisition_workers", integer (pos 9))
    ∷ ("adaptive_acquisition_timeout_seconds", real (fin (pos 7500000)))
    ∷ []

abbrev warnings : Option (AcquisitionConfig × List String) → List String
warnings none = []
warnings (some (c, w)) = w

workers_refused : warnings (from_mapping settings) ≡ "adaptive_acquisition_workers" ∷ []
unfolding from_mapping lookup
workers_refused = refl

from_mapping-IsUsable_example :
    ((is_some (from_mapping settings) ≡ true) ↔ AllReadable settings)
    × ((is_some (validate_acquisition_config_dict settings) ≡ true) ↔ AllReadable settings)
    × Given (λ read. IsUsable 4 (10 * unit) (30 * unit) read.0) (from_mapping settings)
    × Given (IsUsable 2 (5 * unit) (12 * unit)) (validate_acquisition_config_dict settings)
from_mapping-IsUsable_example = from_mapping-IsUsable settings

-- A deadline of 400 digits.
huge_raises :
    from_mapping (("adaptive_acquisition_deadline_seconds", integer (pos (10 ^ 400))) ∷ []) ≡ none
unfolding from_mapping lookup float_config overflows exceeds_float
huge_raises = refl

abbrev request : String → ℕ → Request
request key epoch = record {
  miner_key = key;
  authority = authoritative;
  epoch_id = epoch;
  acquired_monotonic = 5;
  deadline_monotonic = 17;
}

abbrev first_lease : InFlightLease
first_lease = lease_of 1 (request "m1" 1)

abbrev calls : List Call
calls =
    acquires (request "m1" 1)
    ∷ acquires (request "m1" 2)
    ∷ releases (some first_lease)
    ∷ acquires (request "m1" 3)
    ∷ releases (some first_lease)
    ∷ asks "m1"
    ∷ []

owner_changes :
    (run calls new_registry).0
    ≡ lease (some first_lease)
      ∷ lease none
      ∷ flag true
      ∷ lease (some (lease_of 2 (request "m1" 3)))
      ∷ flag false
      ∷ flag true
      ∷ []
unfolding run miner_alerts.Acquisition.Registry.acquire release
    miner_alerts.Acquisition.Registry.is_owned lookup miner_alerts.Base.Dict.insert
    miner_alerts.Base.Dict.erase
owner_changes = refl

run_refines_example : (run calls new_registry).0 ≡ specify_all calls nobody
run_refines_example = run_refines calls

abbrev after_one : InFlightRegistry
after_one = record { leases = []; next_id = 2 }

first_lease-IsSpent : IsSpent first_lease after_one
unfolding lookup
first_lease-IsSpent = (omega arith, λ e. cc)

abbrev next_call : List Call
next_call = acquires (request "m1" 2) ∷ []

spent_release_refused_example :
    release (some first_lease) (run next_call after_one).1 ≡ (false, (run next_call after_one).1)
spent_release_refused_example =
    spent_release_refused next_call first_lease after_one first_lease-IsSpent

abbrev poll_at : ℕ → Poll
poll_at t = record { now_monotonic = t; observed_ts = t; deadline_seconds = 12 * unit }

abbrev scheduler : EpochScheduler
scheduler = record {
  period_seconds = 10;
  last_epoch_id = 0;
  last_scheduled_monotonic = none;
  skipped_epoch_count = 0;
}

-- The second comes too early, the third after two periods were missed.
abbrev polls : List Poll
polls = poll_at 3 ∷ poll_at 12 ∷ poll_at 38 ∷ poll_at 20 ∷ []

two_skipped : (poll_all polls scheduler).1.skipped_epoch_count ≡ 2
unfolding poll_all miner_alerts.Acquisition.Scheduler.next_epoch
two_skipped = refl

scheduler_made : make_scheduler (fin (pos 10)) ≡ some scheduler
unfolding make_scheduler
scheduler_made = refl

poll_all_lem_example :
    IsPaced 10 none 0 (poll_all polls scheduler).0 × IsAccounted (poll_all polls scheduler)
poll_all_lem_example = poll_all_lem (fin (pos 10)) scheduler polls scheduler_made

abbrev conversions : Conversions
conversions = record { float_text = λ t. none; int_text = λ t. none; lower_str = λ v. "ok" }

abbrev summary_answer : TransportOutcome
summary_answer = record {
  status = success;
  payload = some (
      entry "SUMMARY"
        (list (
          item
            (dict (entry "GHS 5s" (number (pos 95000)) (entry "Elapsed" (number (pos 60)) empty)))
            end))
        empty);
  completed_monotonic = fin (pos 9);
  latency_ms = fin (pos 40);
}

abbrev stats_answer : TransportOutcome
stats_answer = record {
  status = success;
  payload = some (
      entry "STATS"
        (list (item (dict empty) (item (dict (entry "chain_acn0" (number (pos 77)) empty)) end)))
        empty);
  completed_monotonic = fin (pos 14);
  latency_ms = fin (pos 30);
}

abbrev attempt : Option TransportOutcome → Attempt
attempt o = record { started = 6; result = o; completed = 8 }

abbrev job : Job
job = record {
  entered = 6;
  refused = 7;
  summary = attempt (some summary_answer);
  stats = attempt (some stats_answer);
}

abbrev miner_subject : Subject
miner_subject = record {
  miner_key = "m1";
  authority = authoritative;
  epoch_id = 1;
  observed_ts = 5;
}

valid_in_time : (poll_miner conversions miner_subject 17 true job).quality ≡ valid
unfolding poll_miner miner_alerts.Base.Float.lt_float
    miner_alerts.Acquisition.Sample.normalize_summary miner_alerts.Base.Json.get extract_rate_ths
    miner_alerts.Base.Json.to_float miner_alerts.Acquisition.Sample.with_stats
    miner_alerts.Base.Float.max_float count_active_boards
valid_in_time = refl

late_after : (poll_miner conversions miner_subject 13 true job).quality ≡ late
unfolding poll_miner miner_alerts.Base.Float.lt_float
    miner_alerts.Acquisition.Sample.normalize_summary miner_alerts.Base.Json.get extract_rate_ths
    miner_alerts.Base.Json.to_float miner_alerts.Acquisition.Sample.with_stats
    miner_alerts.Base.Float.max_float
late_after = refl

poll_miner-IsPolled_example :
    IsPolled miner_subject 17 true (poll_miner conversions miner_subject 17 true job)
    × (17 ≤ 6 → (poll_miner conversions miner_subject 17 true job).summary_requests ≡ 0)
poll_miner-IsPolled_example = poll_miner-IsPolled conversions miner_subject 17 true job

abbrev endpoint : String → MinerEndpoint
endpoint key = record { key = key; host = "10.0.0.1"; port = 4028 }

abbrev health : PollHealth
health = record {
  latency_window_size = 2;
  latencies = [];
  consecutive_timeouts = 0;
  last_success_ts = none;
  last_epoch_duration_ms = fin (pos 0);
  last_epoch_completed_count = 0;
  last_epoch_quality_counts = [];
  last_epoch_summary_requests = 0;
  last_epoch_stats_requests = 0;
  skipped_epoch_count = 0;
  fleet_reason_code = miner_alerts.Acquisition.PollHealth.no_failure;
}

abbrev acquirer : BoundedAcquirer
acquirer = record {
  leases = record { leases = ("m2", lease_of 1 (request "m2" 1)) ∷ []; next_id = 2 };
  active_workers = 1;
  closed = false;
  poll_health = health;
}

abbrev round : Round
round = record {
  authority = diagnostic;
  epoch_id = 4;
  scheduled_monotonic = 5;
  deadline_monotonic = 17;
  observed_ts = 5;
  include_stats = false;
}

-- The poll of the third miner is still polling at the deadline.
abbrev meanwhile : Meanwhile
meanwhile = record { fate = fate_of; others_ended = [] }
  where
    fate_of : String → Fate
    fate_of key = if same_text key "m3" then unfinished true working else finished job

abbrev miners : List MinerEndpoint
miners = endpoint "m1" ∷ endpoint "m2" ∷ endpoint "m3" ∷ []

collect_lem_example :
    (false ≡ true
      → collect conversions round 5 meanwhile miners acquirer ≡ (refused acquirer_closed, acquirer))
    × ((false ≡ false
          → false ≡ true
          → collect conversions round 5 meanwhile miners acquirer
            ≡ (refused keys_not_unique, acquirer))
        × (false ≡ false
            → false ≡ false
            → (d : Dict MinerSampleEnvelope) × (((collect conversions round 5 meanwhile miners
                    acquirer).0
                  ≡ collected d)
                × Answers round miners d)))
unfolding has_duplicate
collect_lem_example = collect_lem conversions round 5 meanwhile miners acquirer

-- One worker goes on.
collect_keeps_lease_example :
    let after = (collect conversions round 5 meanwhile miners acquirer).1 in
    (lookup "m2" after.leases.leases ≡ some (lease_of 1 (request "m2" 1)))
    × (after.active_workers + 0 ≡ 2)
unfolding lookup has_duplicate
collect_keeps_lease_example =
    collect_keeps_lease conversions round 5 meanwhile miners acquirer "m2"
      (lease_of 1 (request "m2" 1)) refl tt refl refl (omega arith)

abbrev epoch : ℕ → AcquisitionEpoch
epoch t = record { epoch_id = 1; scheduled_monotonic = t; deadline_monotonic = t; observed_ts = t }

abbrev polled : MinerSampleEnvelope
unfolding poll_miner
polled = poll_miner conversions miner_subject 17 true job

abbrev history : History
history = (epoch 20, polled ∷ []) ∷ (epoch 10, polled ∷ polled ∷ []) ∷ []

after_epochs_lem_example : Shows 2 history (after_epochs health history)
unfolding make_poll_health
after_epochs_lem_example = after_epochs_lem 2 health history refl

dispatch_authoritative_lem_example : dispatch_authoritative (polled ∷ []) (λ e n. e.epoch_id) 0 ≡ (
  length (keep applies (polled ∷ [])),
  consume (λ e n. e.epoch_id) (keep applies (polled ∷ [])) 0,
)
dispatch_authoritative_lem_example = dispatch_authoritative_lem (polled ∷ []) (λ e n. e.epoch_id) 0
