-- ===== src/Monitor/Signal.antt =====
-- The per-tick signal of app/miner_monitor.py: `classify_auto_reboot_signal` and its users.
use miner_alerts.Base.{
  ℕ, ◌-◌, ◌≡◌, refl, Bool, true, false, ◌&&◌, Option, none, some, not, is_some, if◌then◌else◌,
  arith,
}
use miner_alerts.Base.Int.{pos}
use miner_alerts.Base.Float.{Float, is_finite, lt_float, le_float, sub_float, le_float-lt_float}
use miner_alerts.Base.Value.{unit}
use miner_alerts.RebootSafety.{Signal, eligible, invalid_signal, not_low}
use miner_alerts.Monitor.State.{
  State, low, offline, hashboard, ok, MinerState, Settings, Sample, is_low,
}

-- The classification of a rate that was read.
abbrev classify_rate : Option Float → Float → Signal
classify_rate none threshold = invalid_signal
classify_rate (some rate) threshold =
    if not (is_finite rate)
    then invalid_signal
    else (if le_float threshold rate then not_low else eligible)

unfoldable pub classify_auto_reboot_signal : Bool → Option Float → Float → Signal
classify_auto_reboot_signal responded rate threshold =
    if not responded then invalid_signal else classify_rate rate threshold

abbrev pub is_eligible : Signal → Bool
is_eligible eligible = true
is_eligible _ = false

abbrev pub is_invalid : Signal → Bool
is_invalid invalid_signal = true
is_invalid _ = false

unfoldable pub auto_reboot_signal_allows_evaluation : State → Option ℕ → Signal → Bool
auto_reboot_signal_allows_evaluation new_state low_since signal =
    is_low new_state && is_some low_since && is_eligible signal

unfoldable pub reset_sustained_low_if_signal_ineligible : Signal → MinerState → MinerState
reset_sustained_low_if_signal_ineligible signal s =
    if is_eligible signal then s else record s { low_since_ts = none }

-- `qa_force_state` in QA mode; `threshold_ths - 1.0` is one TH/s below.
unfoldable pub force_sample : Settings → Option State → Sample → Sample
force_sample c (some offline) m = record m { responded = false; rate_ths = none }
force_sample c (some low) m = record m {
  responded = true;
  rate_ths = some (sub_float c.threshold_ths (pos unit));
}
force_sample c (some hashboard) m = record m {
  responded = true;
  active_boards = some (c.expected_boards - 1);
}
force_sample c (some ok) m = m
force_sample c none m = m

unfoldable pub qa_sample : Settings → Sample → Sample
unfolding force_sample
qa_sample c m = if c.qa_mode then force_sample c m.forced m else m

-- `rate_ths is not None and rate_ths < threshold_ths`
unfoldable pub is_below : Option Float → Float → Bool
is_below none threshold = false
is_below (some rate) threshold = lt_float rate threshold

-- `rate_ths is not None and rate_ths >= threshold_ths`
unfoldable pub reaches : Option Float → Float → Bool
reaches none threshold = false
reaches (some rate) threshold = le_float threshold rate

-- A rate counts towards an automatic reboot only if the miner answered with a finite rate that
-- does not reach the threshold.
pub eligible_requires :
    (responded : Bool) (rate : Option Float) (threshold : Float)
    → classify_auto_reboot_signal responded rate threshold ≡ eligible
    → (responded ≡ true)
      × (reaches rate threshold ≡ false)
      × (r : Float) × (rate ≡ some r)
      × (is_finite r ≡ true)
unfolding classify_auto_reboot_signal reaches
eligible_requires responded none threshold h = ground arith
eligible_requires responded (some r) threshold h =
    (ground arith, ground arith, r, refl, ground arith)

pub below-not-reaches :
    (rate : Option Float) (threshold : Float)
    → reaches rate threshold ≡ true
    → is_below rate threshold ≡ false
unfolding is_below reaches
below-not-reaches none threshold h = refl
below-not-reaches (some r) threshold h = le_float-lt_float r threshold h
