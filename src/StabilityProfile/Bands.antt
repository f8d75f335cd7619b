-- ===== src/StabilityProfile/Bands.antt =====
-- The baseline of app/stability_profile.py. Numbers are in millionths. What floats and the library do
-- to them is given: the median of values, the product of two numbers, and the rounding to 4 places.
use miner_alerts.Base.{
  ℕ, ◌+◌, ◌*◌, max, Bool, false, ◌&&◌, ◌||◌, not, Option, none, some, List, [], ◌∷◌, String, length,
  map, same_text, is_some,
}
use miner_alerts.Base.Int.{ℤ, pos, pos_part, neg_part, ◌-ℤ◌, ◌+ℤ◌, ltb_ℤ}
use miner_alerts.Base.Value.{Value, unit, finite_number}

-- What `_as_bool` is given: a text, stripped and in lower case, or the truth of any other object.
pub data Flag : Type 0 where
  text : String → Flag
  object : Bool → Flag

-- The entries of a sample that are read. The state is `none` where it is falsy, and else its text in
-- upper case.
pub record Sample : Type 0 where
  pub responded : Flag
  pub state : Option String
  pub observed_ts : Value
  pub rate_ths : Value
  pub threshold_ths : Value
  pub active_boards : Value
  pub expected_boards : Value
  pub max_temp_c : Value
  pub chain_voltage_mv_avg : Value
  pub chain_power_w_total : Value
  pub frequency_mhz_avg : Value

-- `_as_bool`
unfoldable pub as_bool : Flag → Bool
as_bool (text t) =
    same_text t "1" || (same_text t "true" || (same_text t "yes" || same_text t "on"))
as_bool (object b) = b

abbrev pub text_or : String → Option String → String
text_or default none = default
text_or default (some t) = t

-- Whether both numbers are there and the first is less.
abbrev pub is_below : Option ℤ → Option ℤ → Bool
is_below (some a) (some b) = ltb_ℤ a b
is_below _ _ = false

abbrev pub boards_missing : Sample → Bool
boards_missing s = is_below (finite_number s.active_boards) (finite_number s.expected_boards)

-- `_baseline_eligible`
unfoldable pub baseline_eligible : Sample → Bool
unfolding as_bool
baseline_eligible s =
    as_bool s.responded
    && (same_text (text_or "" s.state) "OK"
        && (is_some (finite_number s.rate_ths) && not (boards_missing s)))

-- The keys of `_METRIC_RULES`.
pub data Metric : Type 0 where
  rate temperature voltage power frequency : Metric

abbrev pub metric_of : Metric → Sample → Value
metric_of rate s = s.rate_ths
metric_of temperature s = s.max_temp_c
metric_of voltage s = s.chain_voltage_mv_avg
metric_of power s = s.chain_power_w_total
metric_of frequency s = s.frequency_mhz_avg

-- The relative and the absolute floor.
unfoldable pub metric_rule : Metric → ℕ × ℕ
metric_rule rate = (80000, 2000000)
metric_rule temperature = (50000, 4000000)
metric_rule voltage = (30000, 100000000)
metric_rule power = (100000, 150000000)
metric_rule frequency = (50000, 20000000)

pub record MetricBand : Type 0 where
  pub sample_count : ℕ
  pub median : ℤ
  pub mad : ℤ
  pub lower : ℤ
  pub upper : ℤ

-- `statistics.median`, the product, and `round(x, 4)`.
pub record Numerics : Type 0 where
  pub median_of : List ℤ → ℤ
  pub product : ℕ → ℕ → ℕ
  pub round4 : ℤ → ℤ

abbrev pub abs : ℤ → ℕ
abs z = pos_part z + neg_part z

abbrev add_value : Option ℤ → List ℤ → List ℤ
add_value none zs = zs
add_value (some z) zs = z ∷ zs

unfoldable pub metric_values : Metric → List Sample → List ℤ
metric_values m [] = []
metric_values m (s ∷ ss) = add_value (finite_number (metric_of m s)) (metric_values m ss)

unfoldable pub radius : Numerics → Metric → ℤ → ℕ → ℕ
unfolding metric_rule
radius n m center mad =
    let (relative, absolute) = metric_rule m in
    max (max (n.product (abs center) relative) (n.product (n.product mad 1482600) (3 * unit)))
      absolute

abbrev pub band_of : Numerics → Metric → List ℤ → Option MetricBand
unfolding radius
band_of n m [] = none
band_of n m (v ∷ vs) =
    let values = v ∷ vs in
    let center = n.median_of values in
    let mad = n.median_of (map (λ z. pos (abs (z -ℤ center))) values) in
    let r = radius n m center (pos_part mad) in
    some (record {
      sample_count = length values;
      median = n.round4 center;
      mad = n.round4 mad;
      lower = n.round4 (center -ℤ pos r);
      upper = n.round4 (center +ℤ pos r);
    })

-- `_metric_band`
unfoldable pub metric_band : Numerics → Metric → List Sample → Option MetricBand
unfolding metric_values band_of
metric_band n m rows = band_of n m (metric_values m rows)
