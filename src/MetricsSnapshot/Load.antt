-- ===== src/MetricsSnapshot/Load.antt =====
-- `load_metrics_snapshot` in app/metrics_snapshot.py, for what the file system and the JSON parser give.
use miner_alerts.Base.{ℕ, ◌≤◌, ◌≡◌, refl, ltb, if◌then◌else◌, arith}
use miner_alerts.Base.Int.{ℤ, pos_part, ◌-ℤ◌}
use miner_alerts.Base.Json.{Json}
use miner_alerts.MetricsSnapshot.Schema.{MetricsSnapshot}
use miner_alerts.MetricsSnapshot.Validate.{
  Checked, good, bad, raised, Reason, Texts, validate_snapshot_data,
}

pub data File : Type 0 where
  missing unparsed : File
  parsed : Json → File

pub data Loaded : Type 0 where
  snapshot_missing parse_error unhandled : Loaded
  invalid : Reason → Loaded
  stale fresh : MetricsSnapshot → ℕ → Loaded

abbrev pub age_of : ℤ → MetricsSnapshot → ℕ
age_of now s = pos_part (now -ℤ s.generated_ts)

abbrev loaded : ℕ → ℤ → Checked MetricsSnapshot → Loaded
loaded max_age now (good s) =
    if ltb max_age (age_of now s) then stale s (age_of now s) else fresh s (age_of now s)
loaded max_age now (bad r) = invalid r
loaded max_age now raised = unhandled

unfoldable pub load_metrics_snapshot : Texts → ℕ → ℤ → File → Loaded
load_metrics_snapshot t max_age now missing = snapshot_missing
load_metrics_snapshot t max_age now unparsed = parse_error
load_metrics_snapshot t max_age now (parsed v) = loaded max_age now (validate_snapshot_data t v)

loaded-fresh :
    (max_age : ℕ) (now : ℤ) (c : Checked MetricsSnapshot) (s : MetricsSnapshot) (age : ℕ)
    → loaded max_age now c ≡ fresh s age
    → (c ≡ good s) × ((age ≡ age_of now s) × (age ≤ max_age))
loaded-fresh max_age now c s age h = ground arith

-- A snapshot is loaded as fresh only from a file whose content is accepted as this snapshot, and only
-- if it is no older than the limit.
pub load_metrics_snapshot-fresh :
    (t : Texts) (max_age : ℕ) (now : ℤ) (f : File) (s : MetricsSnapshot) (age : ℕ)
    → load_metrics_snapshot t max_age now f ≡ fresh s age
    → (v : Json) × ((f ≡ parsed v)
        × ((validate_snapshot_data t v ≡ good s) × ((age ≡ age_of now s) × (age ≤ max_age))))
unfolding load_metrics_snapshot
load_metrics_snapshot-fresh t max_age now missing s age h = cc
load_metrics_snapshot-fresh t max_age now unparsed s age h = cc
load_metrics_snapshot-fresh t max_age now (parsed v) s age h =
    (v, (refl, loaded-fresh max_age now (validate_snapshot_data t v) s age h))
