-- ===== src/Acquisition/Collect.antt =====
-- The collections of `BoundedAcquirer` in app/acquisition.py. What the threads do is given: a `Fate`
-- for each submitted poll, with its clock readings and the transport's answers, and the leases of the
-- polls of other collections that end. The effects of all these come after the submissions; polls of
-- one call are of different miners.
pub mod Covered
pub mod Running
pub mod Kept
pub mod Answered
use miner_alerts.Base.{
  ℕ, suc, ◌-◌, ◌*◌, ◌++◌, Bool, true, false, ◌||◌, not, Option, none, some, List, [], ◌∷◌, String,
  map, any, keep, same_text, if◌then◌else◌,
}
use miner_alerts.Base.Int.{pos}
use miner_alerts.Base.Float.{fin}
use miner_alerts.Base.Dict.{Dict, lookup, insert}
use miner_alerts.Acquisition.Registry.{
  Authority, authoritative, diagnostic, InFlightLease, InFlightRegistry, Request, acquire, release,
}
use miner_alerts.Base.Json.{Conversions}
use miner_alerts.Acquisition.Scheduler.{AcquisitionEpoch}
use miner_alerts.Acquisition.PollHealth.{record_epoch}
use miner_alerts.Acquisition.Sample.{
  error, late, transport_error, epoch_deadline_exceeded, scheduled_overlap, MinerSampleEnvelope,
  Subject, base_envelope,
}
use miner_alerts.Acquisition.Worker.{
  MinerEndpoint, BoundedAcquirer, Job, clock_time, poll_miner, acquire_one,
}

-- How far the worker of a poll that was not done in time is when the collection returns: `cancel`
-- succeeded, or the poll was being started, or its worker is polling, or has ended in the meantime.
pub data Progress : Type 0 where
  cancelled starting working ended : Progress

-- What became of a poll by the end of the wait: it gave an envelope, or raised and was found so at a
-- time of the clock, or was not done, in which case `running()` is given too.
pub data Fate : Type 0 where
  finished : Job → Fate
  raised : ℕ → Fate
  unfinished : Bool → Progress → Fate

-- What happens while the collection goes on: the fates of its polls, and the leases of the polls of
-- other collections that end in the meantime.
pub record Meanwhile : Type 0 where
  pub fate : String → Fate
  pub others_ended : List InFlightLease

abbrev pub is_done : Fate → Bool
is_done (unfinished running p) = false
is_done _ = true

-- The keyword arguments of `_collect`.
pub record Round : Type 0 where
  pub authority : Authority
  pub epoch_id : ℕ
  pub scheduled_monotonic : ℕ
  pub deadline_monotonic : ℕ
  pub observed_ts : ℕ
  pub include_stats : Bool

abbrev pub subject : Round → String → Subject
subject r key = record {
  miner_key = key;
  authority = r.authority;
  epoch_id = r.epoch_id;
  observed_ts = r.observed_ts;
}

-- `_SubmittedRequest`
pub record SubmittedRequest : Type 0 where
  pub endpoint : MinerEndpoint
  pub lease : InFlightLease
  pub future : Fate

-- The local variables of `_collect`, with the acquirer.
pub record Collection : Type 0 where
  pub envelopes : Dict MinerSampleEnvelope
  pub submitted : List SubmittedRequest
  pub acquirer : BoundedAcquirer

abbrev pub put : String → MinerSampleEnvelope → Collection → Collection
put key e k = record k { envelopes = insert key e k.envelopes }

abbrev pub overlap : Round → ℕ → String → MinerSampleEnvelope
unfolding base_envelope
overlap r acquired_at key =
    base_envelope (subject r key) (clock_time acquired_at) error scheduled_overlap (fin (pos 0)) 0

abbrev pub enlist :
    Round
    → ℕ
    → (String → Fate)
    → MinerEndpoint
    → Option InFlightLease × InFlightRegistry
    → Collection
    → Collection
enlist r acquired_at fate m (none, leases) k = put m.key (overlap r acquired_at m.key) k
enlist r acquired_at fate m (some lease, leases) k = record k {
  submitted = k.submitted ++ record { endpoint = m; lease = lease; future = fate m.key } ∷ [];
  acquirer = record k.acquirer { leases = leases };
}

-- The loop over the miners.
unfoldable pub submit : Round → ℕ → (String → Fate) → List MinerEndpoint → Collection → Collection
submit r acquired_at fate [] k = k
submit r acquired_at fate (m ∷ ms) k =
    let request : Request = record {
      miner_key = m.key;
      authority = r.authority;
      epoch_id = r.epoch_id;
      acquired_monotonic = acquired_at;
      deadline_monotonic = r.deadline_monotonic;
    } in
    submit r acquired_at fate ms (enlist r acquired_at fate m (acquire request k.acquirer.leases) k)

abbrev pub or_raised : Round → String → ℕ → Option MinerSampleEnvelope → MinerSampleEnvelope
unfolding base_envelope
or_raised r key at (some e) = e
or_raised r key at none =
    base_envelope (subject r key) (clock_time at) error transport_error (fin (pos 0)) 1

abbrev pub worked :
    Round
    → SubmittedRequest
    → ℕ
    → Option MinerSampleEnvelope × BoundedAcquirer
    → Collection
    → Collection
worked r q at (body, a) k =
    put q.endpoint.key (or_raised r q.endpoint.key at body) (record k { acquirer = a })

-- One future of `done`.
unfoldable pub settle_done : Conversions → Round → SubmittedRequest → Fate → Collection → Collection
unfolding acquire_one
settle_done c r q (finished job) k =
    worked r q 0
      (acquire_one q.lease
        (some (poll_miner c (subject r q.endpoint.key) r.deadline_monotonic r.include_stats job))
        k.acquirer)
      k
settle_done c r q (raised at) k = worked r q at (acquire_one q.lease none k.acquirer) k
settle_done c r q _ k = k

abbrev pub late_envelope : Round → String → Bool → MinerSampleEnvelope
unfolding base_envelope
late_envelope r key running =
    base_envelope (subject r key) (clock_time r.deadline_monotonic) late epoch_deadline_exceeded
      (fin (pos ((r.deadline_monotonic - r.scheduled_monotonic) * 1000))) (if running then 1 else 0)

-- The `finally` of `_acquire_one` for a worker that was counted.
unfoldable pub end_worker : InFlightLease → BoundedAcquirer → BoundedAcquirer
end_worker l a = record a {
  leases = (release (some l) a.leases).1;
  active_workers = a.active_workers - 1;
}

unfoldable pub end_others : List InFlightLease → BoundedAcquirer → BoundedAcquirer
unfolding end_worker
end_others [] a = a
end_others (l ∷ ls) a = end_others ls (end_worker l a)

-- What an unfinished poll has done to the acquirer: a worker that is polling is counted and keeps its
-- lease.
unfoldable pub overrun : Progress → InFlightLease → BoundedAcquirer → BoundedAcquirer
unfolding end_worker
overrun cancelled l a = record a { leases = (release (some l) a.leases).1 }
overrun starting l a = a
overrun working l a = record a { active_workers = suc a.active_workers }
overrun ended l a = end_worker l (record a { active_workers = suc a.active_workers })

-- `running`, which a poll that could be cancelled is not.
abbrev pub runs_on : Bool → Progress → Bool
runs_on running cancelled = false
runs_on running p = running

-- One future of `not_done`.
unfoldable pub settle_late : Round → SubmittedRequest → Fate → Collection → Collection
unfolding overrun
settle_late r q (unfinished running p) k =
    put q.endpoint.key (late_envelope r q.endpoint.key (runs_on running p))
      (record k { acquirer = overrun p q.lease k.acquirer })
settle_late r q _ k = k

unfoldable pub settle_all_done :
    Conversions → Round → List SubmittedRequest → Collection → Collection
settle_all_done c r [] k = k
settle_all_done c r (q ∷ qs) k = settle_all_done c r qs (settle_done c r q q.future k)

unfoldable pub settle_all_late : Round → List SubmittedRequest → Collection → Collection
settle_all_late r [] k = k
settle_all_late r (q ∷ qs) k = settle_all_late r qs (settle_late r q q.future k)

abbrev add_found :
    String
    → Option MinerSampleEnvelope
    → Option (Dict MinerSampleEnvelope)
    → Option (Dict MinerSampleEnvelope)
add_found key (some e) (some d) = some ((key, e) ∷ d)
add_found key _ _ = none

-- `{miner.key: envelopes[miner.key] for miner in miners}`; `none` is a KeyError.
unfoldable pub in_order :
    List MinerEndpoint → Dict MinerSampleEnvelope → Option (Dict MinerSampleEnvelope)
in_order [] d = some []
in_order (m ∷ ms) d = add_found m.key (lookup m.key d) (in_order ms d)

-- `len(keys) != len(set(keys))`
unfoldable pub has_duplicate : List String → Bool
has_duplicate [] = false
has_duplicate (key ∷ keys) = any (same_text key) keys || has_duplicate keys

pub data Refusal : Type 0 where
  acquirer_closed keys_not_unique key_missing : Refusal

pub data Outcome : Type 0 where
  collected : Dict MinerSampleEnvelope → Outcome
  refused : Refusal → Outcome

abbrev pub or_missing : Option (Dict MinerSampleEnvelope) → Outcome
or_missing none = refused key_missing
or_missing (some d) = collected d

-- `_collect` from the submissions on.
unfoldable pub settle :
    Conversions → Round → ℕ → Meanwhile → List MinerEndpoint → BoundedAcquirer → Collection
settle c r acquired_at w ms a =
    let k =
      submit r acquired_at w.fate ms (record { envelopes = []; submitted = []; acquirer = a }) in
    let k = record k { acquirer = end_others w.others_ended k.acquirer } in
    settle_all_late r (keep (λ q. not (is_done q.future)) k.submitted)
      (settle_all_done c r (keep (λ q. is_done q.future) k.submitted) k)

-- The two errors that `_collect` raises before it does anything.
abbrev pub guarded :
    Bool → Bool → BoundedAcquirer → Outcome × BoundedAcquirer → Outcome × BoundedAcquirer
guarded closed twice a result =
    if closed
    then (refused acquirer_closed, a)
    else (if twice then (refused keys_not_unique, a) else result)

-- `_collect`
unfoldable pub collect :
    Conversions
    → Round
    → ℕ
    → Meanwhile
    → List MinerEndpoint
    → BoundedAcquirer
    → Outcome × BoundedAcquirer
unfolding in_order has_duplicate settle
collect c r acquired_at w ms a =
    let k = settle c r acquired_at w ms a in
    guarded a.closed (has_duplicate (map (λ m. m.key) ms)) a
      (or_missing (in_order ms k.envelopes), k.acquirer)

abbrev values : Dict MinerSampleEnvelope → List MinerSampleEnvelope
values [] = []
values ((key, e) ∷ d) = e ∷ values d

abbrev record_outcome : AcquisitionEpoch → Outcome × BoundedAcquirer → Outcome × BoundedAcquirer
record_outcome epoch (collected d, a) =
    (collected d, record a { poll_health = record_epoch epoch (values d) a.poll_health })
record_outcome epoch (refused x, a) = (refused x, a)

unfoldable pub collect_authoritative :
    Conversions
    → AcquisitionEpoch
    → ℕ
    → Meanwhile
    → List MinerEndpoint
    → BoundedAcquirer
    → Outcome × BoundedAcquirer
collect_authoritative c epoch acquired_at w ms a = record_outcome epoch (
    collect c
      (record {
        authority = authoritative;
        epoch_id = epoch.epoch_id;
        scheduled_monotonic = epoch.scheduled_monotonic;
        deadline_monotonic = epoch.deadline_monotonic;
        observed_ts = epoch.observed_ts;
        include_stats = true;
      })
      acquired_at w ms a)

unfoldable pub collect_diagnostic :
    Conversions
    → ℕ
    → ℕ
    → ℕ
    → ℕ
    → ℕ
    → Meanwhile
    → List MinerEndpoint
    → BoundedAcquirer
    → Outcome × BoundedAcquirer
collect_diagnostic c diagnostic_id observed deadline scheduled acquired_at w ms a =
    collect c
      (record {
        authority = diagnostic;
        epoch_id = diagnostic_id;
        scheduled_monotonic = scheduled;
        deadline_monotonic = deadline;
        observed_ts = observed;
        include_stats = false;
      })
      acquired_at w ms a

-- `close`; the executor's shutdown is not modelled.
unfoldable pub close : BoundedAcquirer → BoundedAcquirer
close a = record a { closed = true }
