-- ===== src/MiningQuality/Delta.antt =====
-- `QualityDelta`, `_pair_delta` and `_is_comparable` in app/mining_quality.py. Durations are in
-- millionths of a second; `round4 n d` stands for `round(n / d, 4)` in millionths.
use miner_alerts.Base.{
  ℕ, ◌+◌, ◌-◌, ◌*◌, Bool, true, false, ◌&&◌, ◌||◌, not, Option, none, some, is_some, ltb,
  if◌then◌else◌,
}
use miner_alerts.Base.Int.{ℤ, pos_part, ◌-ℤ◌}
use miner_alerts.Base.Value.{Value, unit, finite_number, nonnegative_integer}

-- The entries of a sample that are read; a missing key is a None.
pub record Sample : Type 0 where
  pub elapsed_seconds : Value
  pub observed_ts : Value
  pub accepted_shares_total : Value
  pub rejected_shares_total : Value
  pub stale_shares_total : Value
  pub hw_errors_total : Value
  pub chain_fault_count : Value
  pub chains_not_mining_count : Value
  pub chains_transitioning_count : Value

pub record QualityDelta : Type 0 where
  pub interval_seconds : Option ℕ
  pub accepted : Option ℕ
  pub rejected : Option ℕ
  pub stale : Option ℕ
  pub hw_errors : Option ℕ
  pub rejected_percent : Option ℕ
  pub stale_percent : Option ℕ
  pub counter_reset : Bool

-- `QualityDelta()`, with its one argument.
abbrev pub no_delta : Bool → QualityDelta
no_delta reset = record {
  interval_seconds = none;
  accepted = none;
  rejected = none;
  stale = none;
  hw_errors = none;
  rejected_percent = none;
  stale_percent = none;
  counter_reset = reset;
}

abbrev pub sum_all : Option ℕ → Option ℕ → Option ℕ → Option ℕ
sum_all (some a) (some r) (some s) = some (a + r + s)
sum_all _ _ _ = none

unfoldable pub total_shares : QualityDelta → Option ℕ
total_shares d = sum_all d.accepted d.rejected d.stale

-- Two counters, if both are there.
abbrev pub both : Option ℕ → Option ℕ → Option (ℕ × ℕ)
both (some now) (some before) = some (now, before)
both _ _ = none

abbrev pub went_back : Option (ℕ × ℕ) → Bool
went_back none = false
went_back (some (now, before)) = ltb now before

-- What a counter grew by.
abbrev pub growth : Option (ℕ × ℕ) → Option ℕ
growth none = none
growth (some (now, before)) = some (now - before)

abbrev pub counters : (Sample → Value) → Sample → Sample → Option (ℕ × ℕ)
counters field current previous =
    both (nonnegative_integer (field current)) (nonnegative_integer (field previous))

abbrev pub elapsed : Sample → Sample → Option (ℕ × ℕ)
elapsed = counters (λ s. s.elapsed_seconds)

abbrev pub accepted_shares : Sample → Sample → Option (ℕ × ℕ)
accepted_shares = counters (λ s. s.accepted_shares_total)

abbrev pub rejected_shares : Sample → Sample → Option (ℕ × ℕ)
rejected_shares = counters (λ s. s.rejected_shares_total)

abbrev pub stale_shares : Sample → Sample → Option (ℕ × ℕ)
stale_shares = counters (λ s. s.stale_shares_total)

abbrev pub hw_errors_of : Sample → Sample → Option (ℕ × ℕ)
hw_errors_of = counters (λ s. s.hw_errors_total)

unfoldable pub was_reset : Sample → Sample → Bool
was_reset c p =
    went_back (elapsed c p)
    || (went_back (accepted_shares c p)
        || (went_back (rejected_shares c p)
            || (went_back (stale_shares c p) || went_back (hw_errors_of c p))))

abbrev observed_between : Option ℤ → Option ℤ → Option ℕ
observed_between (some now) (some before) = some (pos_part (now -ℤ before))
observed_between _ _ = none

-- By the uptime if both samples have it, else by the time of observation.
abbrev pub interval : Option (ℕ × ℕ) → Option ℤ → Option ℤ → Option ℕ
interval (some (now, before)) o p = some ((now - before) * unit)
interval none o p = observed_between o p

module _ (round4 : ℕ → ℕ → ℕ) where
  abbrev percent : ℕ → ℕ → Option ℕ
  percent n total = if ltb 0 total then some (round4 (n * 100) total) else none

  -- The delta of counters that are all there and did not go back.
  abbrev pub grown : Sample → Sample → Option ℕ → Option ℕ → Option ℕ → QualityDelta
  grown c p (some a) (some r) (some s) = record {
    interval_seconds =
        interval (elapsed c p) (finite_number c.observed_ts) (finite_number p.observed_ts);
    accepted = some a;
    rejected = some r;
    stale = some s;
    hw_errors = growth (hw_errors_of c p);
    rejected_percent = percent r (a + r + s);
    stale_percent = percent s (a + r + s);
    counter_reset = false;
  }
  grown c p _ _ _ = no_delta false

  -- `_pair_delta`
  unfoldable pub pair_delta : Sample → Sample → QualityDelta
  unfolding was_reset
  pair_delta c p =
      if was_reset c p
      then no_delta true
      else grown c p (growth (accepted_shares c p)) (growth (rejected_shares c p))
          (growth (stale_shares c p))

abbrev positive : Option ℕ → Bool
positive none = false
positive (some n) = ltb 0 n

-- `_is_comparable`
unfoldable pub is_comparable : QualityDelta → Bool
is_comparable d =
    not d.counter_reset
    && (is_some d.accepted
        && (is_some d.rejected && (is_some d.stale && positive d.interval_seconds)))
