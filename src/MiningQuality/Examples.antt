-- ===== src/MiningQuality/Examples.antt =====
-- Concrete samples for app/mining_quality.py.
use miner_alerts.Base.{ℕ, ◌+◌, ◌*◌, ◌/◌, ◌≤◌, ◌≡◌, ◌↔◌, refl, some, List, [], ◌∷◌, arith}
use miner_alerts.Base.Int.{pos}
use miner_alerts.Base.Float.{fin}
use miner_alerts.Base.Value.{Value, null, integer, unit}
use miner_alerts.MiningQuality.Delta.{Sample}
use miner_alerts.MiningQuality.Analyze.{
  stable, critical, Limits, recent, comparable_intervals_of, analyze_mining_quality,
}
use miner_alerts.MiningQuality.Verdict.{Broken, Steady, analyze_mining_quality_iff}
use miner_alerts.MiningQuality.Intervals.{IsBefore, comparable_intervals_of-IsBefore}

-- Rounded down to 4 places.
abbrev floor4 : ℕ → ℕ → ℕ
floor4 n d = n * 10000 / d * 100

-- After some minutes of mining, with some accepted and one rejected share each.
abbrev sample : ℕ → Sample
sample n = record {
  elapsed_seconds = integer (pos (n * 60));
  observed_ts = integer (pos (1000 + n * 60));
  accepted_shares_total = integer (pos (n * 200));
  rejected_shares_total = integer (pos n);
  stale_shares_total = integer (pos 0);
  hw_errors_total = null;
  chain_fault_count = integer (pos 0);
  chains_not_mining_count = integer (pos 0);
  chains_transitioning_count = null;
}

abbrev limits : Limits
limits = record {
  min_intervals = pos 2;
  reject_warning_percent = fin (pos unit);
  stale_warning_percent = fin (pos unit);
  hw_error_delta_warning = pos 50;
  no_share_warning_seconds = fin (pos (900 * unit));
}

abbrev samples : List Sample
samples = sample 1 ∷ sample 3 ∷ sample 2 ∷ []

steady : (analyze_mining_quality floor4 limits samples).status ≡ stable
unfolding analyze_mining_quality miner_alerts.Base.Sort.sort miner_alerts.Base.Sort.insert_sorted
    miner_alerts.Base.Value.no_earlier miner_alerts.Base.Value.nonnegative_integer
    miner_alerts.MiningQuality.Delta.pair_delta miner_alerts.Base.Float.le_float
    miner_alerts.Base.Float.max_float miner_alerts.Base.Float.lt_float
    miner_alerts.Base.Float.min_float
steady = refl

broken :
    (analyze_mining_quality floor4 limits
      (record (sample 4) { chain_fault_count = integer (pos 1) } ∷ samples)).status
    ≡ critical
unfolding analyze_mining_quality miner_alerts.Base.Sort.sort miner_alerts.Base.Sort.insert_sorted
    miner_alerts.Base.Value.no_earlier miner_alerts.Base.Value.nonnegative_integer
broken = refl

two_intervals : comparable_intervals_of floor4 (sample 3 ∷ sample 2 ∷ sample 1 ∷ []) ≡ 2
unfolding comparable_intervals_of miner_alerts.MiningQuality.Delta.pair_delta
    miner_alerts.Base.Value.nonnegative_integer miner_alerts.MiningQuality.Delta.is_comparable
two_intervals = refl

analyze_mining_quality_iff_example :
    (((analyze_mining_quality floor4 limits samples).status ≡ critical) ↔ Broken (recent samples))
    × (((analyze_mining_quality floor4 limits samples).status ≡ stable)
        ↔ Steady floor4 limits (recent samples))
analyze_mining_quality_iff_example = analyze_mining_quality_iff floor4 limits samples

comparable_intervals_of-IsBefore_example : IsBefore (sample 3) (sample 1)
unfolding comparable_intervals_of miner_alerts.MiningQuality.Delta.pair_delta
    miner_alerts.Base.Value.nonnegative_integer miner_alerts.MiningQuality.Delta.is_comparable
comparable_intervals_of-IsBefore_example =
    comparable_intervals_of-IsBefore floor4 (sample 3) (sample 2 ∷ sample 1 ∷ []) 2 (sample 1) refl
      (omega arith) (omega arith)
