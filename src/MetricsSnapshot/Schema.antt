-- ===== src/MetricsSnapshot/Schema.antt =====
-- The dataclasses of app/metrics_snapshot.py and `to_dict`. Floats are finite, in millionths.
use miner_alerts.Base.{ℕ, Bool, Option, none, some, List, [], ◌∷◌, String, any, same_text}
use miner_alerts.Base.Int.{ℤ, pos}
use miner_alerts.Base.Float.{fin}
use miner_alerts.Base.Json.{
  Json, null, boolean, integer, real, text, list, dict, Items, end, item, Entries, empty, entry,
}

pub record MonitorMetrics : Type 0 where
  pub process_start_ts : ℤ
  pub tick_sequence : ℤ
  pub last_tick_completed_ts : ℤ
  pub telegram_poller_ts : Option ℤ
  pub telegram_sender_ts : Option ℤ
  pub queue_depth : ℕ

pub record MinerMetrics : Type 0 where
  pub miner_id : String
  pub sample_ts : ℤ
  pub responded : Bool
  pub rate_ths : Option ℤ
  pub threshold_ths : ℤ
  pub state : String
  pub active_boards : Option ℤ
  pub expected_boards : ℤ
  pub episode_active : Bool
  pub episode_duration_seconds : ℤ
  pub acquisition_quality : String
  pub acquisition_latency_seconds : Option ℤ

pub record TelegramMetrics : Type 0 where
  pub enqueued_total : ℤ
  pub sent_total : ℤ
  pub send_error_total : ℤ
  pub dropped_total : ℤ
  pub bypass_total : ℤ
  pub fallback_total : ℤ

pub record CollectorMetrics : Type 0 where
  pub status : String
  pub age_seconds : Option ℤ

pub record AcquisitionMetrics : Type 0 where
  pub epoch_duration_seconds : Option ℤ

-- `schema_version` is 1.
pub record MetricsSnapshot : Type 0 where
  pub generated_ts : ℤ
  pub monitor : MonitorMetrics
  pub miners : List MinerMetrics
  pub telegram : TelegramMetrics
  pub collector : CollectorMetrics
  pub acquisition : AcquisitionMetrics

abbrev pub float_json : ℤ → Json
float_json z = real (fin z)

abbrev pub optional_float : Option ℤ → Json
optional_float none = null
optional_float (some z) = real (fin z)

abbrev pub optional_integer : Option ℤ → Json
optional_integer none = null
optional_integer (some z) = integer z

-- `asdict` of each part
unfoldable pub monitor_dict : MonitorMetrics → Entries
monitor_dict m = entry "process_start_ts" (float_json m.process_start_ts) (
    entry "tick_sequence" (integer m.tick_sequence) (
      entry "last_tick_completed_ts" (float_json m.last_tick_completed_ts) (
        entry "telegram_poller_ts" (optional_float m.telegram_poller_ts) (
          entry "telegram_sender_ts" (optional_float m.telegram_sender_ts)
            (entry "queue_depth" (integer (pos m.queue_depth)) empty)))))

unfoldable pub miner_dict : MinerMetrics → Entries
miner_dict m = entry "miner_id" (text m.miner_id) (
    entry "sample_ts" (float_json m.sample_ts) (
      entry "responded" (boolean m.responded) (
        entry "rate_ths" (optional_float m.rate_ths) (
          entry "threshold_ths" (float_json m.threshold_ths) (
            entry "state" (text m.state) (
              entry "active_boards" (optional_integer m.active_boards) (
                entry "expected_boards" (integer m.expected_boards) (
                  entry "episode_active" (boolean m.episode_active) (
                    entry "episode_duration_seconds" (float_json m.episode_duration_seconds) (
                      entry "acquisition_quality" (text m.acquisition_quality) (
                        entry "acquisition_latency_seconds"
                          (optional_float m.acquisition_latency_seconds) empty)))))))))))

unfoldable pub telegram_dict : TelegramMetrics → Entries
telegram_dict t = entry "enqueued_total" (integer t.enqueued_total) (
    entry "sent_total" (integer t.sent_total) (
      entry "send_error_total" (integer t.send_error_total) (
        entry "dropped_total" (integer t.dropped_total) (
          entry "bypass_total" (integer t.bypass_total)
            (entry "fallback_total" (integer t.fallback_total) empty)))))

unfoldable pub collector_dict : CollectorMetrics → Entries
collector_dict c =
    entry "status" (text c.status) (entry "age_seconds" (optional_float c.age_seconds) empty)

unfoldable pub acquisition_dict : AcquisitionMetrics → Entries
acquisition_dict a = entry "epoch_duration_seconds" (optional_float a.epoch_duration_seconds) empty

unfoldable pub miner_items : List MinerMetrics → Items
unfolding miner_dict
miner_items [] = end
miner_items (m ∷ ms) = item (dict (miner_dict m)) (miner_items ms)

-- `to_dict`
unfoldable pub to_dict : MetricsSnapshot → Entries
unfolding monitor_dict miner_items telegram_dict collector_dict acquisition_dict
to_dict s = entry "schema_version" (integer (pos 1)) (
    entry "generated_ts" (float_json s.generated_ts) (
      entry "monitor" (dict (monitor_dict s.monitor)) (
        entry "miners" (list (miner_items s.miners)) (
          entry "telegram" (dict (telegram_dict s.telegram)) (
            entry "collector" (dict (collector_dict s.collector))
              (entry "acquisition" (dict (acquisition_dict s.acquisition)) empty))))))

-- Membership in a set of texts.
abbrev pub one_of : List String → String → Bool
one_of ts t = any (same_text t) ts

abbrev pub miner_states : List String
miner_states = "OK" ∷ "LOW" ∷ "OFFLINE" ∷ "HASHBOARD" ∷ "UNKNOWN" ∷ []

abbrev pub acquisition_qualities : List String
acquisition_qualities = "valid" ∷ "partial" ∷ "invalid" ∷ "timeout" ∷ "error" ∷ "late" ∷ []

abbrev pub collector_statuses : List String
collector_statuses = "ok" ∷ "partial" ∷ "failed" ∷ "stale" ∷ []
