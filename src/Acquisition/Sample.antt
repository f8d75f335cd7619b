-- ===== src/Acquisition/Sample.antt =====
-- What one poll of a miner gives, in app/acquisition.py. The transport's times are floats as it
-- gives them, in millionths; clock readings of the module's own are natural numbers of millionths.
use miner_alerts.Base.{ℕ, Bool, true, false, Option, none, some, String, is_some, if◌then◌else◌}
use miner_alerts.Base.Int.{ℤ}
use miner_alerts.Base.Float.{Float, add_float, max_float, at_least_zero}
use miner_alerts.Acquisition.Registry.{Authority}
use miner_alerts.Base.Json.{Json, dict, list, Items, end, item, Entries, Conversions, get, or_null}
use miner_alerts.Acquisition.Json.{extract_rate_ths, optional_int, count_active_boards}

pub data Quality : Type 0 where
  valid partial invalid timed_out error late : Quality

pub data TransportStatus : Type 0 where
  success empty_answer invalid_json timeout failure : TransportStatus

-- The texts of `reason_code`.
pub data Reason : Type 0 where
  ok empty_payload json_invalid transport_timeout transport_error summary_missing rate_invalid :
      Reason
  stats_missing epoch_deadline_exceeded scheduled_overlap : Reason

pub record TransportOutcome : Type 0 where
  pub status : TransportStatus
  pub payload : Option Entries
  pub completed_monotonic : Float
  pub latency_ms : Float

pub record MinerSampleEnvelope : Type 0 where
  pub miner_key : String
  pub authority : Authority
  pub epoch_id : ℕ
  pub observed_ts : ℕ
  pub completed_monotonic : Float
  pub latency_ms : Float
  pub responded : Bool
  pub rate_ths : Option ℤ
  pub elapsed_seconds : Option ℤ
  pub active_boards : Option ℕ
  pub quality : Quality
  pub reason_code : Reason
  pub summary_entry : Option Entries
  pub stats_response : Option Entries
  pub summary_requests : ℕ
  pub stats_requests : ℕ

-- The positional arguments of `_base_envelope` up to `observed_ts`.
pub record Subject : Type 0 where
  pub miner_key : String
  pub authority : Authority
  pub epoch_id : ℕ
  pub observed_ts : ℕ

-- `_base_envelope` with its defaults for all keyword arguments but the latency and the count of
-- requests.
unfoldable pub base_envelope : Subject → Float → Quality → Reason → Float → ℕ → MinerSampleEnvelope
base_envelope s completed quality reason latency requests = record {
  miner_key = s.miner_key;
  authority = s.authority;
  epoch_id = s.epoch_id;
  observed_ts = s.observed_ts;
  completed_monotonic = completed;
  latency_ms = at_least_zero latency;
  responded = false;
  rate_ths = none;
  elapsed_seconds = none;
  active_boards = none;
  quality = quality;
  reason_code = reason;
  summary_entry = none;
  stats_response = none;
  summary_requests = requests;
  stats_requests = 0;
}

unfoldable pub status_reason : TransportStatus → Quality × Reason
status_reason empty_answer = (invalid, empty_payload)
status_reason invalid_json = (invalid, json_invalid)
status_reason timeout = (timed_out, transport_timeout)
status_reason _ = (error, transport_error)

-- `payload.get("SUMMARY")` and its first item, if this is a dict.
abbrev pub first_dict : Items → Option Entries
first_dict (item (dict d) js) = some d
first_dict _ = none

abbrev pub first_entry : Option Json → Option Entries
first_entry (some (list js)) = first_dict js
first_entry _ = none

unfoldable pub answered : Subject → TransportOutcome → Quality → Reason → MinerSampleEnvelope
unfolding base_envelope
answered s o quality reason = base_envelope s o.completed_monotonic quality reason o.latency_ms 1

-- The end of `_normalize_summary`, with the entry and the rate in it.
unfoldable pub rated :
    Conversions → Subject → TransportOutcome → Entries → Option ℤ → MinerSampleEnvelope
unfolding answered
rated c s o d none = record (answered s o invalid rate_invalid) {
  responded = true;
  elapsed_seconds = optional_int c (or_null (get "Elapsed" d));
  summary_entry = some d;
}
rated c s o d (some rate) = record (answered s o valid ok) {
  responded = true;
  rate_ths = some rate;
  elapsed_seconds = optional_int c (or_null (get "Elapsed" d));
  summary_entry = some d;
}

unfoldable pub summarized :
    Conversions → Subject → TransportOutcome → Option Entries → MinerSampleEnvelope
unfolding rated answered
summarized c s o none = record (answered s o invalid summary_missing) { responded = true }
summarized c s o (some d) = rated c s o d (extract_rate_ths c d)

unfoldable pub with_payload :
    Conversions → Subject → TransportOutcome → Option Entries → MinerSampleEnvelope
unfolding summarized answered
with_payload c s o none = answered s o invalid empty_payload
with_payload c s o (some d) = summarized c s o (first_entry (get "SUMMARY" d))

unfoldable pub by_status :
    Conversions → Subject → TransportOutcome → TransportStatus → MinerSampleEnvelope
unfolding with_payload status_reason answered
by_status c s o success = with_payload c s o o.payload
by_status c s o other = let (quality, reason) = status_reason other in answered s o quality reason

-- `_normalize_summary`
unfoldable pub normalize_summary : Conversions → Subject → TransportOutcome → MinerSampleEnvelope
unfolding by_status
normalize_summary c s o = by_status c s o o.status

abbrev pub if_counted : Option ℕ → Option ℕ → Option ℕ
if_counted none o = o
if_counted (some n) o = some n

-- The boards of the first entry that counts them.
unfoldable pub first_count : Conversions → Items → Option ℕ
first_count c end = none
first_count c (item (dict d) js) = if_counted (count_active_boards c d) (first_count c js)
first_count c (item _ js) = first_count c js

-- `stats if isinstance(stats, list) else [stats]`
abbrev pub entries_of : Json → Items
entries_of (list js) = js
entries_of v = item v end

abbrev pub successful : TransportStatus → Option Entries → Option Entries
successful success payload = payload
successful _ payload = none

unfoldable pub boards_in : Conversions → Option Entries → Option ℕ
unfolding first_count
boards_in c none = none
boards_in c (some d) = first_count c (entries_of (or_null (get "STATS" d)))

-- `_with_stats`
unfoldable pub with_stats :
    Conversions → MinerSampleEnvelope → TransportOutcome → MinerSampleEnvelope
unfolding boards_in
with_stats c e o =
    let payload = successful o.status o.payload in
    let boards = boards_in c payload in
    record e {
      completed_monotonic = max_float e.completed_monotonic o.completed_monotonic;
      latency_ms = add_float e.latency_ms (at_least_zero o.latency_ms);
      active_boards = boards;
      quality = if is_some boards then valid else partial;
      reason_code = if is_some boards then ok else stats_missing;
      stats_response = payload;
      stats_requests = 1;
    }

-- `_as_late`
unfoldable pub as_late : MinerSampleEnvelope → MinerSampleEnvelope
as_late e = record e { quality = late; reason_code = epoch_deadline_exceeded }
