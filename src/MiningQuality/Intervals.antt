-- ===== src/MiningQuality/Intervals.antt =====
-- What the comparable intervals of app/mining_quality.py rest on.
use miner_alerts.Base.{
  ℕ, zero, suc, ◌≤◌, ◌≡◌, refl, ap, ◌∙◌, sym, subst, inl, inr, Bool, true, false, Option, none,
  some, List, [], ◌∷◌, get_elem?, is_some, Bool-cases, if◌then◌else◌, arith,
}
use miner_alerts.Base.Value.{nonnegative_integer}
use miner_alerts.MiningQuality.Delta.{
  Sample, QualityDelta, both, went_back, growth, no_delta, was_reset, grown, pair_delta,
  is_comparable, accepted_shares, rejected_shares, stale_shares,
}
use miner_alerts.MiningQuality.Analyze.{comparable_intervals_of}

-- Both counters are there, and the second is at most the first.
abbrev pub AtMost : Option ℕ → Option ℕ → Type 0
AtMost (some now) (some before) = before ≤ now
AtMost _ _ = ⊥

-- The share counters of a sample are all there and at most those of the newer one.
pub record IsBefore (newer older : Sample) : Type 0 where
  pub accepted :
      AtMost
        (nonnegative_integer newer.accepted_shares_total)
        (nonnegative_integer older.accepted_shares_total)
  pub rejected :
      AtMost
        (nonnegative_integer newer.rejected_shares_total)
        (nonnegative_integer older.rejected_shares_total)
  pub stale :
      AtMost
        (nonnegative_integer newer.stale_shares_total)
        (nonnegative_integer older.stale_shares_total)

AtMost-growth :
    (now before : Option ℕ)
    → went_back (both now before) ≡ false
    → is_some (growth (both now before)) ≡ true
    → AtMost now before
AtMost-growth (some a) (some b) h k = ground arith
AtMost-growth none o h k = cc
AtMost-growth (some a) none h k = cc

AtMost_trans : (a b c : Option ℕ) → AtMost a b → AtMost b c → AtMost a c
AtMost_trans (some a) (some b) (some c) h k = omega (arith, h, k)
AtMost_trans none b c h k = absurd h
AtMost_trans (some a) none c h k = absurd h
AtMost_trans (some a) (some b) none h k = absurd k

IsBefore-trans : (a b c : Sample) → IsBefore a b → IsBefore b c → IsBefore a c
IsBefore-trans a b c h k = record {
  accepted = AtMost_trans _ _ _ h.accepted k.accepted;
  rejected = AtMost_trans _ _ _ h.rejected k.rejected;
  stale = AtMost_trans _ _ _ h.stale k.stale;
}

AtMost_refl : (a b : Option ℕ) → AtMost a b → AtMost a a
AtMost_refl (some a) (some b) h = omega arith
AtMost_refl none b h = absurd h
AtMost_refl (some a) none h = absurd h

IsBefore-refl : (a b : Sample) → IsBefore a b → IsBefore a a
IsBefore-refl a b h = record {
  accepted = AtMost_refl _ _ h.accepted;
  rejected = AtMost_refl _ _ h.rejected;
  stale = AtMost_refl _ _ h.stale;
}

some_injective : {s t : Sample} → some s ≡ some t → s ≡ t
some_injective e = cc

not_one : 1 ≤ 0 → ⊥
not_one h = omega (arith, h)

module _ (round4 : ℕ → ℕ → ℕ) where
  grown-comparable :
      (s t : Sample) (a r q : Option ℕ)
      → is_comparable (grown round4 s t a r q) ≡ true
      → (is_some a ≡ true) × ((is_some r ≡ true) × (is_some q ≡ true))
  unfolding is_comparable
  grown-comparable s t a r q h = ground arith

  pair_delta_compared :
      (s t : Sample)
      → is_comparable (pair_delta round4 s t) ≡ true
      → (was_reset s t ≡ false)
        × (pair_delta round4 s t
            ≡ grown round4 s t
                (growth (accepted_shares s t))
                (growth (rejected_shares s t))
                (growth (stale_shares s t)))
  unfolding pair_delta is_comparable
  pair_delta_compared s t h = elim (Bool-cases (was_reset s t)) [
    | inl e ↦ absurd (not_compared (was_reset s t) _ e h)
    | inr e ↦ (e, rw e refl)
  ]
    where
      not_compared :
          (b : Bool) (d : QualityDelta)
          → b ≡ true
          → is_comparable (if b then no_delta true else d) ≡ true
          → ⊥
      not_compared b d e h = ground arith

  pair_delta-IsBefore : (s t : Sample) → is_comparable (pair_delta round4 s t) ≡ true → IsBefore s t
  unfolding was_reset
  pair_delta-IsBefore s t h =
      let (kept, e) = pair_delta_compared s t h in
      let (a, (r, q)) = grown-comparable s t _ _ _ (ap is_comparable (sym e) ∙ h) in
      let (x, (y, z)) = kept_counters s t kept in
      record {
        accepted = AtMost-growth _ _ x a;
        rejected = AtMost-growth _ _ y r;
        stale = AtMost-growth _ _ z q;
      }
    where
      kept_counters :
          (s t : Sample)
          → was_reset s t ≡ false
          → (went_back (accepted_shares s t) ≡ false)
            × ((went_back (rejected_shares s t) ≡ false) × (went_back (stale_shares s t) ≡ false))
      kept_counters s t h = ground arith

  comparable_intervals_of_first :
      (s t : Sample) (rows : List Sample)
      → 1 ≤ comparable_intervals_of round4 (s ∷ (t ∷ rows))
      → is_comparable (pair_delta round4 s t) ≡ true
  unfolding comparable_intervals_of
  comparable_intervals_of_first s t rows h = ground arith

  comparable_intervals_of_rest :
      (s t : Sample) (rows : List Sample)
      → comparable_intervals_of round4 (s ∷ (t ∷ rows))
        ≤ suc (comparable_intervals_of round4 (t ∷ rows))
  unfolding comparable_intervals_of
  comparable_intervals_of_rest s t rows = ground arith

  -- However percentages are rounded, for a list of samples from the newest on with at least one comparable interval: each
  -- sample up to the end of the comparable intervals has all three share counters, and none is above
  -- that of the newest sample.
  pub comparable_intervals_of-IsBefore :
      (newest : Sample) (rows : List Sample) (i : ℕ) (t : Sample)
      → get_elem? (newest ∷ rows) i ≡ some t
      → i ≤ comparable_intervals_of round4 (newest ∷ rows)
      → 1 ≤ comparable_intervals_of round4 (newest ∷ rows)
      → IsBefore newest t
  unfolding comparable_intervals_of
  comparable_intervals_of-IsBefore newest [] i t e le one = absurd (not_one one)
  comparable_intervals_of-IsBefore newest (s ∷ rows) zero t e le one =
      let h = pair_delta-IsBefore newest s (comparable_intervals_of_first newest s rows one) in
      subst (IsBefore newest) (some_injective e) (IsBefore-refl newest s h)
  comparable_intervals_of-IsBefore newest (s ∷ rows) (suc zero) t e le one =
      subst (IsBefore newest) (some_injective e)
        (pair_delta-IsBefore newest s (comparable_intervals_of_first newest s rows one))
  comparable_intervals_of-IsBefore newest (s ∷ rows) (suc (suc i)) t e le one =
      let more = comparable_intervals_of_rest newest s rows in
      let h = pair_delta-IsBefore newest s (comparable_intervals_of_first newest s rows one) in
      let k =
        comparable_intervals_of-IsBefore s rows (suc i) t e (omega (arith, le, more))
          (omega (arith, le, more)) in
      IsBefore-trans newest s t h k
