-- ===== src/MetricsSnapshot/Validate.antt =====
-- `validate_snapshot_data` in app/metrics_snapshot.py. The texts of the reasons keep their parts.
use miner_alerts.Base.{
  ℕ, suc, Bool, true, false, ◌||◌, not, Option, none, some, List, [], ◌∷◌, String, eqb, ltb,
  same_text, if◌then◌else◌,
}
use miner_alerts.Base.Int.{ℤ, pos, negsuc, pos_part}
use miner_alerts.Base.Float.{Float, fin}
use miner_alerts.Base.Value.{unit, scale}
use miner_alerts.Base.Json.{
  Json, null, boolean, integer, real, text, list, dict, Items, end, item, Entries, get, or_null,
  truncate, truth,
}
use miner_alerts.MetricsSnapshot.Schema.{
  MonitorMetrics, MinerMetrics, TelegramMetrics, CollectorMetrics, AcquisitionMetrics,
  MetricsSnapshot, one_of, miner_states, acquisition_qualities, collector_statuses,
}

-- The parts of a miner's entry that are checked after its key.
pub data MinerField : Type 0 where
  sample_ts state quality rate threshold active_boards expected_boards : MinerField
  episode_duration latency : MinerField

pub data Reason : Type 0 where
  payload_not_dict unsupported_schema_version invalid_generated_ts monitor_not_dict : Reason
  telegram_not_dict collector_not_dict collector_invalid_status collector_invalid_age : Reason
  acquisition_not_dict acquisition_invalid_epoch_duration miners_not_list : Reason
  monitor_invalid telegram_invalid : String → Reason
  miner_not_dict : ℕ → Reason
  miner_invalid_id : ℕ → String → Reason
  miner_invalid : String → MinerField → Reason

-- The result of a check; `raised` is the TypeError of a list or dict that is looked up in a set.
pub data Checked {ℓ} (A : Type ℓ) : Type ℓ where
  good : A → Checked A
  bad : Reason → Checked A
  raised : Checked A

infixl 5 ◌>>=◌
abbrev pub ◌>>=◌ {ℓ κ} : {A : Type ℓ} {B : Type κ} → Checked A → (A → Checked B) → Checked B
good a >>= f = f a
bad r >>= f = bad r
raised >>= f = raised

abbrev pub or_bad {ℓ} : {A : Type ℓ} → Reason → Option A → Checked A
or_bad r none = bad r
or_bad r (some a) = good a

abbrev pub require : Bool → Reason → Checked (Unit {0})
require true r = good tt
require false r = bad r

abbrev real_number : Float → Option ℤ
real_number (fin z) = some z
real_number _ = none

-- `float(v)` where `_is_finite_number(v)`; a bool is a number here.
unfoldable pub number : Json → Option ℤ
number (boolean true) = some (pos unit)
number (boolean false) = some (pos 0)
number (integer z) = some (scale z)
number (real x) = real_number x
number _ = none

abbrev whole_part : Option ℤ → Option ℤ
whole_part none = none
whole_part (some z) = truncate (fin z)

-- `int(v)` where `_is_finite_number(v)`
unfoldable pub whole : Json → Option ℤ
unfolding number truncate
whole (integer z) = some z
whole v = whole_part (number v)

abbrev pub is_positive : ℤ → Bool
is_positive z = ltb 0 (pos_part z)

abbrev pub is_nonnegative : ℤ → Bool
is_nonnegative (pos n) = true
is_nonnegative (negsuc n) = false

abbrev pub dict_of : Json → Option Entries
dict_of (dict d) = some d
dict_of _ = none

abbrev pub items_of : Json → Option Items
items_of (list js) = some js
items_of _ = none

-- A number that may be None.
abbrev pub optional_number : Reason → Json → Checked (Option ℤ)
optional_number r null = good none
optional_number r v = or_bad r (number v) >>= λ z. good (some z)

-- `v in set`, for a set of texts
abbrev pub member_of : List String → Reason → Json → Checked String
member_of ts r (text t) = if one_of ts t then good t else bad r
member_of ts r (list js) = raised
member_of ts r (dict d) = raised
member_of ts r _ = bad r

abbrev pub field : String → Entries → Json
field key d = or_null (get key d)

unfoldable pub read_monitor : Entries → Checked MonitorMetrics
unfolding number whole
read_monitor d = do
  start ← or_bad (monitor_invalid "process_start_ts") (number (field "process_start_ts" d))
  sequence ← or_bad (monitor_invalid "tick_sequence") (whole (field "tick_sequence" d))
  last ←
      or_bad (monitor_invalid "last_tick_completed_ts") (number (field "last_tick_completed_ts" d))
  depth ← or_bad (monitor_invalid "queue_depth") (whole (field "queue_depth" d))
  good (record {
    process_start_ts = start;
    tick_sequence = sequence;
    last_tick_completed_ts = last;
    telegram_poller_ts = number (field "telegram_poller_ts" d);
    telegram_sender_ts = number (field "telegram_sender_ts" d);
    queue_depth = pos_part depth;
  })

abbrev pub nonnegative : Option ℤ → Bool
nonnegative none = false
nonnegative (some z) = is_nonnegative z

-- A number that is not negative, as a whole one.
unfoldable pub total : Entries → String → Checked ℤ
unfolding number whole
total d key = do
  checked ← require (nonnegative (number (field key d))) (telegram_invalid key)
  or_bad (telegram_invalid key) (whole (field key d))

unfoldable pub assemble_telegram :
    Checked ℤ → Checked ℤ → Checked ℤ → Checked ℤ → Checked ℤ → Checked ℤ → Checked TelegramMetrics
assemble_telegram c1 c2 c3 c4 c5 c6 = do
  enqueued ← c1
  sent ← c2
  errors ← c3
  dropped ← c4
  bypass ← c5
  fallback ← c6
  good (record {
    enqueued_total = enqueued;
    sent_total = sent;
    send_error_total = errors;
    dropped_total = dropped;
    bypass_total = bypass;
    fallback_total = fallback;
  })

unfoldable pub read_telegram : Entries → Checked TelegramMetrics
read_telegram d =
    assemble_telegram (total d "enqueued_total") (total d "sent_total") (total d "send_error_total")
      (total d "dropped_total") (total d "bypass_total") (total d "fallback_total")

unfoldable pub read_collector : Entries → Checked CollectorMetrics
unfolding number
read_collector d = do
  status ← member_of collector_statuses collector_invalid_status (field "status" d)
  age ← optional_number collector_invalid_age (field "age_seconds" d)
  good (record { status = status; age_seconds = age })

unfoldable pub read_acquisition : Entries → Checked AcquisitionMetrics
unfolding number
read_acquisition d = do
  duration ← optional_number acquisition_invalid_epoch_duration (field "epoch_duration_seconds" d)
  good (record { epoch_duration_seconds = duration })

-- What Python does to texts: `str(v)`, `strip`, and the search for an IP address.
pub record Texts : Type 0 where
  pub shown : Json → String
  pub strip : String → String
  pub has_address : String → Bool

-- `m_raw.get(key, default)`
abbrev pub or_default : Json → Option Json → Json
or_default v none = v
or_default v (some w) = w

-- `isinstance(v, int)`; a bool is an int here.
abbrev pub int_of : Json → Option ℤ
int_of (boolean true) = some (pos 1)
int_of (boolean false) = some (pos 0)
int_of (integer z) = some z
int_of _ = none

abbrev pub optional_int_of : Reason → Json → Checked (Option ℤ)
optional_int_of r null = good none
optional_int_of r v = or_bad r (int_of v) >>= λ z. good (some z)

-- The checks of an entry after its id, in their order, and the miner that they give.
unfoldable pub assemble_miner :
    String
    → Checked ℤ
    → Checked String
    → Checked String
    → Checked (Option ℤ)
    → Checked ℤ
    → Checked (Option ℤ)
    → Checked ℤ
    → Checked ℤ
    → Checked (Option ℤ)
    → Bool
    → Bool
    → Checked MinerMetrics
assemble_miner id c1 c2 c3 c4 c5 c6 c7 c8 c9 answered episode = do
  sampled ← c1
  in_state ← c2
  of_quality ← c3
  hash ← c4
  limit ← c5
  active ← c6
  expected ← c7
  some_boards ← require (is_positive expected) (miner_invalid id expected_boards)
  duration ← c8
  late ← c9
  good (record {
    miner_id = id;
    sample_ts = sampled;
    responded = answered;
    rate_ths = hash;
    threshold_ths = limit;
    state = in_state;
    active_boards = active;
    expected_boards = expected;
    episode_active = episode;
    episode_duration_seconds = duration;
    acquisition_quality = of_quality;
    acquisition_latency_seconds = late;
  })

-- The part of the loop's body after the id.
unfoldable pub read_fields : String → Entries → Checked MinerMetrics
read_fields id d =
    assemble_miner id (or_bad (miner_invalid id sample_ts) (number (field "sample_ts" d)))
      (member_of miner_states (miner_invalid id state) (field "state" d))
      (member_of acquisition_qualities (miner_invalid id quality)
        (or_default (text "valid") (get "acquisition_quality" d)))
      (optional_number (miner_invalid id rate) (field "rate_ths" d))
      (or_bad (miner_invalid id threshold) (number (field "threshold_ths" d)))
      (optional_int_of (miner_invalid id active_boards) (field "active_boards" d))
      (or_bad (miner_invalid id expected_boards) (int_of (field "expected_boards" d)))
      (or_bad (miner_invalid id episode_duration)
        (number (or_default (real (fin (pos 0))) (get "episode_duration_seconds" d))))
      (optional_number (miner_invalid id latency) (field "acquisition_latency_seconds" d))
      (truth (or_default (boolean false) (get "responded" d)))
      (truth (or_default (boolean false) (get "episode_active" d)))

abbrev pub id_of : Texts → Entries → String
id_of t d = t.strip (t.shown (or_default (text "") (get "miner_id" d)))

-- `not mid or IP_REGEX.search(mid) or mid in seen_miner_ids`
abbrev pub refused_id : Texts → List String → String → Bool
refused_id t seen id = same_text id "" || (t.has_address id || one_of seen id)

unfoldable pub read_miner : Texts → ℕ → List String → Json → Checked MinerMetrics
unfolding read_fields
read_miner t i seen v = do
  d ← or_bad (miner_not_dict i) (dict_of v)
  fresh ← require (not (refused_id t seen (id_of t d))) (miner_invalid_id i (id_of t d))
  read_fields (id_of t d) d

-- The loop, from the index and the ids seen so far.
unfoldable pub read_miners : Texts → Items → ℕ → List String → Checked (List MinerMetrics)
unfolding read_miner
read_miners t end i seen = good []
read_miners t (item v js) i seen = do
  m ← read_miner t i seen v
  rest ← read_miners t js (suc i) (m.miner_id ∷ seen)
  good (m ∷ rest)

abbrev pub is_version_1 : Option ℤ → Bool
is_version_1 (some (pos n)) = eqb n unit
is_version_1 _ = false

abbrev pub positive_number : Option ℤ → Option ℤ
positive_number none = none
positive_number (some z) = if is_positive z then some z else none

-- The checks of the whole, in their order.
unfoldable pub assemble :
    Checked (Unit {0})
    → Checked ℤ
    → Checked MonitorMetrics
    → Checked TelegramMetrics
    → Checked CollectorMetrics
    → Checked AcquisitionMetrics
    → Checked (List MinerMetrics)
    → Checked MetricsSnapshot
assemble c1 c2 c3 c4 c5 c6 c7 = do
  version ← c1
  generated ← c2
  monitor ← c3
  telegram ← c4
  collector ← c5
  acquisition ← c6
  miners ← c7
  good (record {
    generated_ts = generated;
    monitor = monitor;
    miners = miners;
    telegram = telegram;
    collector = collector;
    acquisition = acquisition;
  })

unfoldable pub read_snapshot : Texts → Entries → Checked MetricsSnapshot
read_snapshot t d =
    assemble (require (is_version_1 (number (field "schema_version" d))) unsupported_schema_version)
      (or_bad invalid_generated_ts (positive_number (number (field "generated_ts" d))))
      (or_bad monitor_not_dict (dict_of (field "monitor" d)) >>= read_monitor)
      (or_bad telegram_not_dict (dict_of (field "telegram" d)) >>= read_telegram)
      (or_bad collector_not_dict (dict_of (field "collector" d)) >>= read_collector)
      (or_bad acquisition_not_dict (dict_of (field "acquisition" d)) >>= read_acquisition)
      (or_bad miners_not_list (items_of (field "miners" d)) >>= λ js. read_miners t js 0 [])

unfoldable pub validate_snapshot_data : Texts → Json → Checked MetricsSnapshot
validate_snapshot_data t v = or_bad payload_not_dict (dict_of v) >>= read_snapshot t
