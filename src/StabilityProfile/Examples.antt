-- ===== src/StabilityProfile/Examples.antt =====
-- Concrete samples for app/stability_profile.py.
use miner_alerts.Base.{ℕ, ◌+◌, ◌*◌, ◌/◌, ◌≡◌, refl, true, some, List, [], ◌∷◌}
use miner_alerts.Base.Int.{ℤ, pos}
use miner_alerts.Base.Float.{fin}
use miner_alerts.Base.Value.{Value, null, integer, unit}
use miner_alerts.StabilityProfile.Bands.{Sample, object, Numerics}
use miner_alerts.StabilityProfile.Analyze.{
  stable, critical, Limits, newest_first, analyze_stability,
}
use miner_alerts.StabilityProfile.Verdict.{Verdicts, analyze_stability-Verdicts}

-- The first value for the median, exact products and no rounding, for samples that are alike.
abbrev numerics : Numerics
numerics = record { median_of = first_value; product = λ a b. a * b / unit; round4 = λ z. z }
  where
    first_value : List ℤ → ℤ
    first_value [] = pos 0
    first_value (z ∷ zs) = z

abbrev ratio4 : ℕ → ℕ → ℕ
ratio4 n d = n * 10000 / d * 100

abbrev sample : ℕ → ℕ → Sample
sample t rate = record {
  responded = object true;
  state = some "OK";
  observed_ts = integer (pos t);
  rate_ths = integer (pos rate);
  threshold_ths = integer (pos 80);
  active_boards = integer (pos 3);
  expected_boards = integer (pos 3);
  max_temp_c = integer (pos 70);
  chain_voltage_mv_avg = null;
  chain_power_w_total = null;
  frequency_mhz_avg = null;
}

abbrev limits : Limits
limits = record {
  stale_after_seconds = fin (pos (900 * unit));
  min_samples = pos 3;
  high_temperature_c = fin (pos (85 * unit));
}

abbrev samples : List Sample
samples = sample 100 95 ∷ sample 400 95 ∷ sample 200 95 ∷ sample 300 95 ∷ []

steady : (analyze_stability numerics ratio4 limits (pos (500 * unit)) samples).status ≡ stable
unfolding analyze_stability miner_alerts.Base.Sort.sort miner_alerts.Base.Sort.insert_sorted
    miner_alerts.Base.Value.no_earlier miner_alerts.Base.Float.lt_float
    miner_alerts.Base.Float.max_float miner_alerts.Base.Int.◌-ℤ◌
    miner_alerts.StabilityProfile.Bands.as_bool miner_alerts.Base.Float.le_float
    miner_alerts.StabilityProfile.Bands.baseline_eligible
    miner_alerts.StabilityProfile.Bands.metric_band miner_alerts.Base.Int.◌+ℤ◌
steady = refl

below_threshold :
    (analyze_stability numerics ratio4 limits (pos (500 * unit)) (sample 450 70 ∷ samples)).status
    ≡ critical
unfolding analyze_stability miner_alerts.Base.Sort.sort miner_alerts.Base.Sort.insert_sorted
    miner_alerts.Base.Value.no_earlier miner_alerts.Base.Float.lt_float
    miner_alerts.Base.Float.max_float miner_alerts.Base.Int.◌-ℤ◌
    miner_alerts.StabilityProfile.Bands.as_bool
below_threshold = refl

analyze_stability-Verdicts_example :
    Verdicts numerics ratio4 limits
      (pos (500 * unit))
      (newest_first samples)
      (analyze_stability numerics ratio4 limits (pos (500 * unit)) samples).status
analyze_stability-Verdicts_example =
    analyze_stability-Verdicts numerics ratio4 limits (pos (500 * unit)) samples
