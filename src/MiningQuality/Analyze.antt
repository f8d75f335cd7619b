-- ===== src/MiningQuality/Analyze.antt =====
-- `analyze_mining_quality` in app/mining_quality.py, without the texts of its messages.
use miner_alerts.Base.{
  ℕ, zero, suc, ◌*◌, max, min, Bool, true, false, ◌&&◌, Option, none, some, List, [], ◌∷◌, ◌++◌,
  length, take, ltb, leb, if◌then◌else◌,
}
use miner_alerts.Base.Int.{ℤ, pos, pos_part}
use miner_alerts.Base.Float.{Float, fin, le_float, max_float, min_float}
use miner_alerts.Base.Value.{Value, unit, no_earlier, nonnegative_integer}
use miner_alerts.Base.Sort.{sort}
use miner_alerts.MiningQuality.Delta.{
  Sample, QualityDelta, no_delta, total_shares, pair_delta, is_comparable,
}

pub data Status : Type 0 where
  learning stable watch critical : Status

-- The codes of the reasons.
pub data Reason : Type 0 where
  no_samples chain_fault chain_not_mining firmware_transition rejected_share_rate : Reason
  stale_share_rate hardware_error_growth no_share_progress counter_reset : Reason
  quality_data_incomplete quality_learning : Reason

pub record QualityAssessment : Type 0 where
  pub status : Status
  pub sample_count : ℕ
  pub comparable_intervals : ℕ
  pub required_intervals : ℕ
  pub confidence : ℕ
  pub latest : Option Sample
  pub delta : QualityDelta
  pub reasons : List Reason

-- The keyword arguments.
pub record Limits : Type 0 where
  pub min_intervals : ℤ
  pub reject_warning_percent : Float
  pub stale_warning_percent : Float
  pub hw_error_delta_warning : ℤ
  pub no_share_warning_seconds : Float

abbrev pub safe_min_intervals : Limits → ℕ
safe_min_intervals l = max 1 (min (pos_part l.min_intervals) 48)

abbrev pub safe_percent : Float → Float
safe_percent x = max_float (fin (pos 0)) (min_float x (fin (pos (100 * unit))))

abbrev pub safe_hw : Limits → ℕ
safe_hw l = max 1 (pos_part l.hw_error_delta_warning)

abbrev pub safe_no_share : Limits → Float
safe_no_share l = max_float (fin (pos (60 * unit))) l.no_share_warning_seconds

unfoldable pub is_later : Sample → Sample → Bool
is_later s t = no_earlier s.observed_ts t.observed_ts

-- The newest hundred samples, the newest first.
unfoldable pub recent : List Sample → List Sample
unfolding is_later
recent samples = take 100 (sort is_later samples)

abbrev pub nonzero : Value → Bool
nonzero v = counts (nonnegative_integer v)
  where
    counts : Option ℕ → Bool
    counts none = false
    counts (some n) = ltb 0 n

abbrev pub note : Bool → Reason → List Reason
note true r = r ∷ []
note false r = []

unfoldable pub critical_reasons : Sample → List Reason
critical_reasons latest =
    note (nonzero latest.chain_fault_count) chain_fault
    ++ note (nonzero latest.chains_not_mining_count) chain_not_mining

-- `value is not None and value >= limit`
abbrev pub reaches : Float → Option ℕ → Bool
reaches limit none = false
reaches limit (some n) = le_float limit (fin (pos n))

abbrev pub reaches_count : ℕ → Option ℕ → Bool
reaches_count limit none = false
reaches_count limit (some n) = leb limit n

abbrev pub is_zero : Option ℕ → Bool
is_zero (some zero) = true
is_zero _ = false

unfoldable pub watch_reasons : Limits → Sample → QualityDelta → List Reason
unfolding total_shares
watch_reasons l latest d =
    note (nonzero latest.chains_transitioning_count) firmware_transition
    ++ (note (reaches (safe_percent l.reject_warning_percent) d.rejected_percent)
          rejected_share_rate
        ++ (note (reaches (safe_percent l.stale_warning_percent) d.stale_percent) stale_share_rate
            ++ (note (reaches_count (safe_hw l) d.hw_errors) hardware_error_growth
                ++ note (is_zero (total_shares d) && reaches (safe_no_share l) d.interval_seconds)
                    no_share_progress)))

-- The last part: what there is to say if nothing is critical.
unfoldable pub judge : List Reason → ℕ → ℕ → QualityDelta → Status × List Reason
unfolding is_comparable
judge (r ∷ rs) n required d = (watch, r ∷ rs)
judge [] n required d =
    if d.counter_reset
    then (learning, counter_reset ∷ [])
    else (if is_comparable d
        then (if ltb n required then (learning, quality_learning ∷ []) else (stable, []))
        else (learning, quality_data_incomplete ∷ []))

unfoldable pub judge_all : List Reason → List Reason → ℕ → ℕ → QualityDelta → Status × List Reason
unfolding judge
judge_all (r ∷ rs) watched n required d = (critical, r ∷ rs)
judge_all [] watched n required d = judge watched n required d

module _ (round4 : ℕ → ℕ → ℕ) where
  -- `comparable_intervals`: the pairs from the newest on, up to the first that cannot be compared.
  unfoldable pub comparable_intervals_of : List Sample → ℕ
  comparable_intervals_of [] = 0
  comparable_intervals_of (s ∷ []) = 0
  comparable_intervals_of (s ∷ (t ∷ rows)) =
      let rest = comparable_intervals_of (t ∷ rows) in
      let d = pair_delta round4 s t in
      if d.counter_reset then 0 else (if is_comparable d then suc rest else 0)

  unfoldable pub latest_delta : Sample → List Sample → QualityDelta
  latest_delta s [] = no_delta false
  latest_delta s (t ∷ rows) = pair_delta round4 s t

  abbrev confidence_of : ℕ → ℕ → ℕ
  confidence_of n required = if leb required n then unit else round4 n required

  unfoldable pub assess : Limits → List Sample → QualityAssessment
  unfolding judge_all comparable_intervals_of latest_delta critical_reasons watch_reasons
  assess l [] = record {
    status = learning;
    sample_count = 0;
    comparable_intervals = 0;
    required_intervals = safe_min_intervals l;
    confidence = 0;
    latest = none;
    delta = no_delta false;
    reasons = no_samples ∷ [];
  }
  assess l (latest ∷ rows) =
      let n = comparable_intervals_of (latest ∷ rows) in
      let required = safe_min_intervals l in
      let d = latest_delta latest rows in
      let (status, reasons) =
        judge_all (critical_reasons latest) (watch_reasons l latest d) n required d in
      record {
        status = status;
        sample_count = length (latest ∷ rows);
        comparable_intervals = n;
        required_intervals = required;
        confidence = confidence_of n required;
        latest = some latest;
        delta = d;
        reasons = reasons;
      }

  unfoldable pub analyze_mining_quality : Limits → List Sample → QualityAssessment
  unfolding assess recent
  analyze_mining_quality l samples = assess l (recent samples)
