-- ===== src/StabilityProfile/Analyze.antt =====
-- `analyze_stability` in app/stability_profile.py, without the texts and numbers of its messages.
use miner_alerts.Base.{
  ℕ, ◌*◌, max, min, Bool, true, false, ◌&&◌, ◌||◌, not, Option, none, some, List, [], ◌∷◌, ◌++◌,
  String, length, keep, same_text, is_some, ltb, leb, if◌then◌else◌,
}
use miner_alerts.Base.Int.{ℤ, pos, pos_part, ◌-ℤ◌, ltb_ℤ}
use miner_alerts.Base.Float.{Float, fin, lt_float, le_float, max_float}
use miner_alerts.Base.Value.{unit, finite_number, no_earlier}
use miner_alerts.Base.Sort.{sort}
use miner_alerts.StabilityProfile.Bands.{
  Sample, as_bool, text_or, is_below, boards_missing, baseline_eligible, Metric, rate, temperature,
  voltage, power, frequency, metric_of, MetricBand, Numerics, metric_band,
}

pub data Status : Type 0 where
  learning stable watch critical : Status

pub data Reason : Type 0 where
  no_samples stale_sample no_response state_offline state_low invalid_rate : Reason
  rate_below_threshold state_hashboard board_missing high_temperature baseline_learning : Reason
  state_recovery_hysteresis rate_below_baseline temperature_above_baseline : Reason
  chain_voltage_drift power_drift frequency_drift : Reason

pub record Bands : Type 0 where
  pub rate_band : Option MetricBand
  pub temperature_band : Option MetricBand
  pub voltage_band : Option MetricBand
  pub power_band : Option MetricBand
  pub frequency_band : Option MetricBand

pub record StabilityAssessment : Type 0 where
  pub status : Status
  pub sample_count : ℕ
  pub required_samples : ℕ
  pub confidence : ℕ
  pub observed_ts : Option ℤ
  pub age_seconds : Option ℕ
  pub latest : Option Sample
  pub bands : Bands
  pub reasons : List Reason

-- The keyword arguments but `now_ts`.
pub record Limits : Type 0 where
  pub stale_after_seconds : Float
  pub min_samples : ℤ
  pub high_temperature_c : Float

abbrev pub safe_min_samples : Limits → ℕ
safe_min_samples l = max 3 (min (pos_part l.min_samples) 288)

abbrev pub safe_stale : Limits → Float
safe_stale l = max_float (fin (pos (30 * unit))) l.stale_after_seconds

abbrev pub safe_high_temperature : Limits → Float
safe_high_temperature l = max_float (fin (pos unit)) l.high_temperature_c

unfoldable pub is_later : Sample → Sample → Bool
is_later s t = no_earlier s.observed_ts t.observed_ts

-- The samples, the newest first.
unfoldable pub newest_first : List Sample → List Sample
unfolding is_later
newest_first samples = sort is_later samples

abbrev pub age : ℤ → Option ℤ → Option ℕ
age now none = none
age now (some t) = some (pos_part (now -ℤ t))

abbrev pub note : Bool → Reason → List Reason
note true r = r ∷ []
note false r = []

-- `age_seconds is None or age_seconds > stale_after_seconds`
abbrev pub is_stale : Float → Option ℕ → Bool
is_stale limit none = true
is_stale limit (some a) = lt_float limit (fin (pos a))

abbrev pub is_hot : Float → Option ℤ → Bool
is_hot limit none = false
is_hot limit (some z) = le_float limit (fin z)

abbrev pub state_is : Sample → String → Bool
state_is s t = same_text (text_or "UNKNOWN" s.state) t

abbrev pub rate_low : Sample → Bool
rate_low s = is_below (finite_number s.rate_ths) (finite_number s.threshold_ths)

abbrev pub rate_invalid : Sample → Bool
rate_invalid s = as_bool s.responded && not (is_some (finite_number s.rate_ths))

abbrev pub rate_notes : Sample → List Reason
rate_notes s = if rate_invalid s then invalid_rate ∷ [] else note (rate_low s) rate_below_threshold

-- `_hard_reasons`
unfoldable pub hard_reasons : Sample → Option ℕ → Float → Float → List Reason
hard_reasons s aged stale_limit hot_limit =
    note (is_stale stale_limit aged) stale_sample
    ++ (note (not (as_bool s.responded)) no_response
        ++ (note (not (as_bool s.responded) && state_is s "OFFLINE") state_offline
            ++ (note (state_is s "LOW" && rate_low s) state_low
                ++ (rate_notes s
                    ++ (note (boards_missing s && state_is s "HASHBOARD") state_hashboard
                        ++ (note (boards_missing s) board_missing
                            ++ note (is_hot hot_limit (finite_number s.max_temp_c))
                                high_temperature))))))

abbrev pub below_band : Option ℤ → Option MetricBand → Bool
below_band (some z) (some b) = ltb_ℤ z b.lower
below_band _ _ = false

abbrev pub above_band : Option ℤ → Option MetricBand → Bool
above_band (some z) (some b) = ltb_ℤ b.upper z
above_band _ _ = false

abbrev pub off_band : Option ℤ → Option MetricBand → Bool
off_band z b = below_band z b || above_band z b

abbrev pub observed : Metric → Sample → Option ℤ
observed m s = finite_number (metric_of m s)

-- `_watch_reasons`
unfoldable pub watch_reasons : Sample → Bands → List Reason
watch_reasons s b =
    note (not (state_is s "OK")) state_recovery_hysteresis
    ++ (note (below_band (observed rate s) b.rate_band) rate_below_baseline
        ++ (note (above_band (observed temperature s) b.temperature_band) temperature_above_baseline
            ++ (note (off_band (observed voltage s) b.voltage_band) chain_voltage_drift
                ++ (note (off_band (observed power s) b.power_band) power_drift
                    ++ note (off_band (observed frequency s) b.frequency_band) frequency_drift))))

abbrev pub judge_watch : List Reason → Status × List Reason
judge_watch [] = (stable, [])
judge_watch (r ∷ rs) = (watch, r ∷ rs)

abbrev pub judge : List Reason → List Reason → ℕ → ℕ → Status × List Reason
judge (r ∷ rs) watched n required = (critical, r ∷ rs)
judge [] watched n required =
    if ltb n required then (learning, baseline_learning ∷ []) else judge_watch watched

-- `round(n / d, 4)` in millionths
module _ (numerics : Numerics) (ratio4 : ℕ → ℕ → ℕ) where
  unfoldable pub bands_of : List Sample → Bands
  bands_of rows = record {
    rate_band = metric_band numerics rate rows;
    temperature_band = metric_band numerics temperature rows;
    voltage_band = metric_band numerics voltage rows;
    power_band = metric_band numerics power rows;
    frequency_band = metric_band numerics frequency rows;
  }

  abbrev no_bands : Bands
  no_bands = record {
    rate_band = none;
    temperature_band = none;
    voltage_band = none;
    power_band = none;
    frequency_band = none;
  }

  unfoldable pub assess : Limits → ℤ → List Sample → StabilityAssessment
  unfolding bands_of hard_reasons watch_reasons
  assess l now [] = record {
    status = learning;
    sample_count = 0;
    required_samples = safe_min_samples l;
    confidence = 0;
    observed_ts = none;
    age_seconds = none;
    latest = none;
    bands = no_bands;
    reasons = no_samples ∷ [];
  }
  assess l now (latest ∷ rows) =
      let baseline = keep baseline_eligible rows in
      let observed_at = finite_number latest.observed_ts in
      let aged = age now observed_at in
      let bands = bands_of baseline in
      let hard = hard_reasons latest aged (safe_stale l) (safe_high_temperature l) in
      let n = length baseline in
      let required = safe_min_samples l in
      let (status, reasons) = judge hard (watch_reasons latest bands) n required in
      record {
        status = status;
        sample_count = n;
        required_samples = required;
        confidence = if leb required n then unit else ratio4 n required;
        observed_ts = observed_at;
        age_seconds = aged;
        latest = some latest;
        bands = bands;
        reasons = reasons;
      }

  unfoldable pub analyze_stability : Limits → ℤ → List Sample → StabilityAssessment
  unfolding assess newest_first
  analyze_stability l now samples = assess l now (newest_first samples)
