-- ===== src/MetricsSnapshot/Examples.antt =====
-- Concrete snapshots for app/metrics_snapshot.py.
use miner_alerts.Base.{
  ℕ, ◌*◌, ◌≡◌, refl, Bool, true, false, Option, none, some, List, [], ◌∷◌, String,
}
use miner_alerts.Base.Int.{pos}
use miner_alerts.Base.Value.{unit}
use miner_alerts.Base.Json.{Json, text, list, dict, end, entry, empty}
use miner_alerts.MetricsSnapshot.Schema.{MinerMetrics, MetricsSnapshot, to_dict}
use miner_alerts.MetricsSnapshot.Validate.{
  good, raised, Texts, read_collector, validate_snapshot_data,
}
use miner_alerts.MetricsSnapshot.RoundTrip.{IsAccepted, validate_snapshot_data_back}

-- Texts without spaces at their ends and without addresses.
abbrev texts : Texts
texts = record { shown = text_of; strip = λ t. t; has_address = λ t. false }
  where
    text_of : Json → String
    text_of (text t) = t
    text_of _ = ""

abbrev miner : MinerMetrics
miner = record {
  miner_id = "m1";
  sample_ts = pos (90 * unit);
  responded = true;
  rate_ths = some (pos (95 * unit));
  threshold_ths = pos (80 * unit);
  state = "OK";
  active_boards = some (pos 3);
  expected_boards = pos 3;
  episode_active = false;
  episode_duration_seconds = pos 0;
  acquisition_quality = "valid";
  acquisition_latency_seconds = none;
}

abbrev snapshot : MetricsSnapshot
snapshot = record {
  generated_ts = pos (100 * unit);
  monitor = record {
    process_start_ts = pos unit;
    tick_sequence = pos 7;
    last_tick_completed_ts = pos (99 * unit);
    telegram_poller_ts = none;
    telegram_sender_ts = some (pos (98 * unit));
    queue_depth = 0;
  };
  miners = miner ∷ [];
  telegram = record {
    enqueued_total = pos 5;
    sent_total = pos 4;
    send_error_total = pos 1;
    dropped_total = pos 0;
    bypass_total = pos 0;
    fallback_total = pos 0;
  };
  collector = record { status = "ok"; age_seconds = none };
  acquisition = record { epoch_duration_seconds = some (pos unit) };
}

-- A status that is a list is looked up in a set of texts, which raises.
unhashable_status : read_collector (entry "status" (list end) empty) ≡ raised
unfolding read_collector miner_alerts.Base.Json.get
unhashable_status = refl

accepted : validate_snapshot_data texts (dict (to_dict snapshot)) ≡ good snapshot
unfolding validate_snapshot_data miner_alerts.MetricsSnapshot.Validate.read_snapshot
    miner_alerts.MetricsSnapshot.Validate.assemble miner_alerts.MetricsSnapshot.Validate.number
    miner_alerts.Base.Json.get to_dict miner_alerts.MetricsSnapshot.Validate.read_monitor
    miner_alerts.MetricsSnapshot.Validate.read_telegram
    miner_alerts.MetricsSnapshot.Validate.assemble_telegram
    miner_alerts.MetricsSnapshot.Validate.total read_collector
    miner_alerts.MetricsSnapshot.Validate.read_acquisition
    miner_alerts.MetricsSnapshot.Validate.read_miners
    miner_alerts.MetricsSnapshot.Validate.assemble_miner miner_alerts.Base.Json.truth
accepted = refl

validate_snapshot_data_back_example :
    IsAccepted texts snapshot
    × (validate_snapshot_data texts (dict (to_dict snapshot)) ≡ good snapshot)
validate_snapshot_data_back_example =
    validate_snapshot_data_back texts (λ x. refl) (λ x. refl) (dict (to_dict snapshot)) snapshot
      accepted
