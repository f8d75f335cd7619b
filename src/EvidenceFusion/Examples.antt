-- ===== src/EvidenceFusion/Examples.antt =====
-- Concrete conditions and facts for app/evidence_fusion.py.
use Prim.Native.Nat.{◌^◌}
use miner_alerts.Base.{
  ℕ, ◌||◌, ◌*◌, ◌≡◌, ◌↔◌, ◌⊎◌, ◌≤◌, refl, true, false, none, some, List, [], ◌∷◌, String, All, all,
  keep, is_some, arith,
}
use miner_alerts.Base.Value.{unit, exceeds_float}
use miner_alerts.Base.Json.{boolean, integer, real, null, Conversions, to_float, to_int}
use miner_alerts.Base.Float.{fin, pos_inf}
use miner_alerts.Base.Int.{pos}
use miner_alerts.RestartIntelligence.{unexpected, classify_restart}
use miner_alerts.EvidenceFusion.{
  observed, suspected, confirmed, rank, Condition, fresh_symptom, direct_cause_fresh_valid,
  current_offline, ceiling_of, is_non_causal, other_cause, electrical_fault, needs_external,
  compute_confidence_ceiling, is_nil, max_cause_level, evaluate_hypothesis,
}
use miner_alerts.EvidenceFusion.Ceilings.{
  Allows, AllowConfirmed, ceiling_iff, max_cause_level_iff, evaluate_hypothesis_iff,
}
use miner_alerts.EvidenceFusion.Facts.{
  fresh, EvidenceFact, classify_freshness, map_clock_quality, validate_fact_code,
}
use miner_alerts.EvidenceFusion.Config.{
  Mapping, from_mapping, int_default, int_of, read_bounded, float_of, in_range,
}
use miner_alerts.EvidenceFusion.Config.Bounds.{AvoidsHuge, AvoidsInfinity, from_mapping_iff}
use miner_alerts.EvidenceFusion.Fleet.{is_degradation, detect_fleet_pattern}
use miner_alerts.EvidenceFusion.Concurrent.{AllAlone, detect_fleet_pattern_iff}
use miner_alerts.EvidenceFusion.Agreement.{is_attributed, attribution_agrees}

abbrev conditions : List Condition
conditions = direct_cause_fresh_valid ∷ fresh_symptom ∷ []

ceiling_iff_example :
    (rank suspected ≤ rank (compute_confidence_ceiling conditions))
    ↔ All (λ c. Allows suspected (ceiling_of c)) conditions
ceiling_iff_example = ceiling_iff suspected conditions

max_cause_level_iff_example : (max_cause_level electrical_fault conditions ≡ confirmed) ↔ (
    (needs_external electrical_fault ≡ false)
    × AllowConfirmed conditions
    × ((is_nil conditions ≡ true) ⊎ (all is_non_causal conditions ≡ false)))
max_cause_level_iff_example = max_cause_level_iff electrical_fault conditions

-- An answer that fails to come is enough for a confirmation here.
offline_confirmed : (evaluate_hypothesis (current_offline ∷ []) [] []).level ≡ confirmed
unfolding evaluate_hypothesis compute_confidence_ceiling miner_alerts.EvidenceFusion.least_rank
    ceiling_of
offline_confirmed = refl

evaluate_hypothesis_iff_example :
    ((evaluate_hypothesis (current_offline ∷ []) [] []).level ≡ confirmed) ↔ (
      (is_nil (current_offline ∷ []) ≡ false)
      × AllowConfirmed (current_offline ∷ [])
      × (is_nil {A = String} [] ≡ true)
      × (is_nil {A = String} [] ≡ true))
evaluate_hypothesis_iff_example = evaluate_hypothesis_iff (current_offline ∷ []) [] []

finite_is_fresh :
    classify_freshness (fin (pos (100 * unit))) (fin (pos (900 * unit))) (fin (pos (900 * unit)))
    ≡ fresh
unfolding classify_freshness miner_alerts.Base.Int.◌-ℤ◌
finite_is_fresh = refl

firmware_clock : map_clock_quality "firmware_events" (some "fixed_utc_offset") ≡ "fixed_utc_offset"
unfolding map_clock_quality
firmware_clock = refl

recognized_code : validate_fact_code "signal.current_low" ≡ true
unfolding validate_fact_code miner_alerts.EvidenceFusion.Facts.family_of
recognized_code = refl

code_without_point : validate_fact_code "signal" ≡ false
unfolding validate_fact_code miner_alerts.EvidenceFusion.Facts.family_of
code_without_point = refl

abbrev offline_fact : String → ℕ → EvidenceFact
offline_fact key t = record {
  fact_id = "operational_events:1:signal.current_offline";
  subject_type = "miner";
  subject_key = key;
  source = "operational_events";
  source_row_id = 1;
  code = "signal.current_offline";
  effective_ts = t * unit;
  ingested_ts = none;
  freshness = fresh;
  clock_quality = "system";
  authority = none;
  quality = none;
  reason_code = none;
  value = none;
  units = none;
  confidence_ceiling = suspected;
}

abbrev facts : List EvidenceFact
facts = offline_fact "02" 130 ∷ offline_fact "01" 100 ∷ offline_fact "01" 105 ∷ []

detect_fleet_pattern_iff_example :
    (detect_fleet_pattern (60 * unit) facts ≡ none)
    ↔ AllAlone (60 * unit) (keep is_degradation facts)
detect_fleet_pattern_iff_example = detect_fleet_pattern_iff (60 * unit) facts

abbrev drop : String
drop = "elapsed_drop"

attribution_agrees_example :
    ((classify_restart drop 1600 (some 100) (some 1000) 900 10).classification ≡ unexpected)
    ↔ ((is_attributed 1600 900 (some 100) || is_attributed 1600 900 (some 1000)) ≡ false)
attribution_agrees_example =
    attribution_agrees drop 1600 900 10 (some 100) (some 1000) (omega arith) (omega arith)

-- An hours entry out of range, and an infinity among the diagnosis entries.
abbrev mapping : Mapping
mapping = record {
  incident_fusion_enabled = some (boolean true);
  incident_fusion_context_hours = some (integer (pos 500));
  incident_fusion_fleet_window_seconds = none;
  diagnosis_stale_seconds = some (real pos_inf);
  diagnosis_firmware_window_hours = none;
  diagnosis_collector_stale_seconds = some null;
  restart_attribution_window_seconds = some (integer (pos 600));
}

abbrev conversions : Conversions
conversions = record { float_text = λ t. none; int_text = λ t. none; lower_str = λ v. "" }

from_mapping_iff_example : (is_some (from_mapping conversions mapping) ≡ true) ↔ (
    AvoidsHuge (some (integer (pos 500)))
    × AvoidsHuge none
    × AvoidsInfinity (some (real pos_inf))
    × AvoidsInfinity none
    × AvoidsInfinity (some null)
    × AvoidsInfinity (some (integer (pos 600))))
from_mapping_iff_example = from_mapping_iff conversions mapping

abbrev readable : Mapping
readable = record mapping { diagnosis_stale_seconds = none }

mapping_raises : from_mapping conversions mapping ≡ none
unfolding from_mapping int_default int_of read_bounded float_of exceeds_float in_range to_float
    to_int
mapping_raises = refl

mapping_readable : is_some (from_mapping conversions readable) ≡ true
unfolding from_mapping int_default int_of read_bounded float_of exceeds_float in_range to_float
    to_int
mapping_readable = refl

-- An hours entry of 400 digits.
huge_raises :
    from_mapping conversions
      (record readable { incident_fusion_context_hours = some (integer (pos (10 ^ 400))) })
    ≡ none
unfolding from_mapping int_default int_of read_bounded float_of exceeds_float in_range to_float
    to_int
huge_raises = refl
