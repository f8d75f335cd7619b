-- ===== src/MiningQuality/Verdict.antt =====
-- When the assessment of app/mining_quality.py is STABLE, and when it is CRITICAL.
use miner_alerts.Base.{
  ℕ, ◌≤◌, ◌≡◌, ◌↔◌, ◌⊎◌, inl, inr, refl, Bool, true, false, ◌&&◌, List, [], ◌∷◌, ◌++◌, arith,
}
use miner_alerts.MiningQuality.Delta.{Sample, QualityDelta, total_shares, is_comparable}
use miner_alerts.MiningQuality.Analyze.{
  stable, critical, Reason, Limits, safe_min_intervals, safe_percent, safe_hw, safe_no_share,
  recent, nonzero, note, critical_reasons, reaches, reaches_count, is_zero, watch_reasons, judge,
  judge_all, comparable_intervals_of, latest_delta, assess, analyze_mining_quality,
}

-- The newest sample has a chain with a fault, or one that does not mine.
abbrev pub IsBroken : Sample → Type 0
IsBroken s = (nonzero s.chain_fault_count ≡ true) ⊎ (nonzero s.chains_not_mining_count ≡ true)

-- Nothing in the newest sample and its delta reaches a limit.
pub record IsQuiet (l : Limits) (s : Sample) (d : QualityDelta) : Type 0 where
  pub settled : nonzero s.chains_transitioning_count ≡ false
  pub rejects : reaches (safe_percent l.reject_warning_percent) d.rejected_percent ≡ false
  pub stales : reaches (safe_percent l.stale_warning_percent) d.stale_percent ≡ false
  pub errors : reaches_count (safe_hw l) d.hw_errors ≡ false
  pub progress : (is_zero (total_shares d) && reaches (safe_no_share l) d.interval_seconds) ≡ false

notes-nil :
    (a b c d e : Bool) (p q r s t : Reason)
    → note a p ++ (note b q ++ (note c r ++ (note d s ++ note e t))) ≡ []
    → (a ≡ false) × ((b ≡ false) × ((c ≡ false) × ((d ≡ false) × (e ≡ false))))
notes-nil true b c d e p q r s t h = cc
notes-nil false true c d e p q r s t h = cc
notes-nil false false true d e p q r s t h = cc
notes-nil false false false true e p q r s t h = cc
notes-nil false false false false true p q r s t h = cc
notes-nil false false false false false p q r s t h = (refl, (refl, (refl, (refl, refl))))

nil-notes :
    (a b c d e : Bool) (p q r s t : Reason)
    → a ≡ false
    → b ≡ false
    → c ≡ false
    → d ≡ false
    → e ≡ false
    → note a p ++ (note b q ++ (note c r ++ (note d s ++ note e t))) ≡ []
nil-notes a b c d e p q r s t h i j k m = rw (h, i, j, k, m) refl

watch_reasons_iff :
    (l : Limits) (s : Sample) (d : QualityDelta) → (watch_reasons l s d ≡ []) ↔ IsQuiet l s d
unfolding watch_reasons
watch_reasons_iff l s d = (
  λ h.
      let (a, (b, (c, (e, f)))) = notes-nil _ _ _ _ _ _ _ _ _ _ h in
      record { settled = a; rejects = b; stales = c; errors = e; progress = f },
  λ q. nil-notes _ _ _ _ _ _ _ _ _ _ q.settled q.rejects q.stales q.errors q.progress,
)

critical_reasons_iff :
    (s : Sample)
    → (critical_reasons s ≡ [])
      ↔ ((nonzero s.chain_fault_count ≡ false) × (nonzero s.chains_not_mining_count ≡ false))
unfolding critical_reasons
critical_reasons_iff s =
    two_notes (nonzero s.chain_fault_count) (nonzero s.chains_not_mining_count) _ _
  where
    two_notes :
        (a b : Bool) (p q : Reason) → (note a p ++ note b q ≡ []) ↔ ((a ≡ false) × (b ≡ false))
    two_notes true b p q = (λ h. cc, λ h. cc)
    two_notes false true p q = (λ h. cc, λ h. cc)
    two_notes false false p q = (λ h. (refl, refl), λ h. refl)

judge_iff :
    (rs : List Reason) (n required : ℕ) (d : QualityDelta)
    → ((judge rs n required d).0 ≡ stable)
      ↔ ((rs ≡ []) × ((is_comparable d ≡ true) × (required ≤ n)))
unfolding judge is_comparable
judge_iff [] n required d = (λ h. ground arith, λ h. ground arith)
judge_iff (r ∷ rs) n required d = (λ h. cc, λ h. cc)

judge-critical :
    (rs : List Reason) (n required : ℕ) (d : QualityDelta)
    → (judge rs n required d).0 ≡ critical
    → ⊥
unfolding judge
judge-critical [] n required d h = ground arith
judge-critical (r ∷ rs) n required d h = cc

judge_all-critical :
    (rs ws : List Reason) (n required : ℕ) (d : QualityDelta)
    → ((judge_all rs ws n required d).0 ≡ critical) ↔ (rs ≡ [] → ⊥)
unfolding judge_all
judge_all-critical [] ws n required d =
    (λ h. absurd (judge-critical ws n required d h), λ h. absurd (h refl))
judge_all-critical (r ∷ rs) ws n required d = (λ h e. cc, λ h. refl)

judge_all-stable :
    (rs ws : List Reason) (n required : ℕ) (d : QualityDelta)
    → ((judge_all rs ws n required d).0 ≡ stable)
      ↔ ((rs ≡ []) × ((ws ≡ []) × ((is_comparable d ≡ true) × (required ≤ n))))
unfolding judge_all
judge_all-stable [] ws n required d =
    (λ h. (refl, (judge_iff ws n required d).0 h), λ h. (judge_iff ws n required d).1 h.1)
judge_all-stable (r ∷ rs) ws n required d = (λ h. cc, λ h. cc)

-- There are samples, and the newest one is broken.
abbrev pub Broken : List Sample → Type 0
Broken [] = ⊥
Broken (s ∷ rows) = IsBroken s

module _ (round4 : ℕ → ℕ → ℕ) where
  -- There are samples, nothing is wrong with the newest, and enough of the newest pairs can be compared.
  abbrev pub Steady : Limits → List Sample → Type 0
  Steady l [] = ⊥
  Steady l (s ∷ rows) =
      ((nonzero s.chain_fault_count ≡ false) × (nonzero s.chains_not_mining_count ≡ false))
      × (IsQuiet l s (latest_delta round4 s rows)
          × ((is_comparable (latest_delta round4 s rows) ≡ true)
              × (safe_min_intervals l ≤ comparable_intervals_of round4 (s ∷ rows))))

  assess_iff :
      (l : Limits) (rows : List Sample)
      → (((assess round4 l rows).status ≡ critical) ↔ Broken rows)
        × (((assess round4 l rows).status ≡ stable) ↔ Steady l rows)
  unfolding assess
  assess_iff l [] = ((λ h. cc, λ h. absurd h), (λ h. cc, λ h. absurd h))
  assess_iff l (s ∷ rows) =
      let d = latest_delta round4 s rows in
      let rs = critical_reasons s in
      let ws = watch_reasons l s d in
      let n = comparable_intervals_of round4 (s ∷ rows) in
      let required = safe_min_intervals l in
      let broken = critical_reasons_iff s in
      let quiet = watch_reasons_iff l s d in
      let c = judge_all-critical rs ws n required d in
      let t = judge_all-stable rs ws n required d in
      (
        (
          λ h.
              some_reason (nonzero s.chain_fault_count) (nonzero s.chains_not_mining_count)
                (λ a b. c.0 h (broken.1 (a, b))),
          λ h. c.1 (λ e. no_reason s (broken.0 e) h),
        ),
        (
          λ h. let (a, (b, k)) = t.0 h in (broken.0 a, (quiet.0 b, k)),
          λ h. t.1 (broken.1 h.0, (quiet.1 h.1.0, h.1.1)),
        ),
      )
    where
      some_reason : (a b : Bool) → (a ≡ false → b ≡ false → ⊥) → (a ≡ true) ⊎ (b ≡ true)
      some_reason true b h = inl refl
      some_reason false true h = inr refl
      some_reason false false h = absurd (h refl refl)

      no_reason :
          (s : Sample)
          → (nonzero s.chain_fault_count ≡ false) × (nonzero s.chains_not_mining_count ≡ false)
          → IsBroken s
          → ⊥
      no_reason s h (inl e) = ground (arith, h.0, e)
      no_reason s h (inr e) = ground (arith, h.1, e)

  -- However percentages are rounded: the assessment is CRITICAL exactly when the newest sample has a
  -- chain with a fault or one that does not mine; and it is STABLE exactly when there are samples, the
  -- newest has neither these nor a chain in transition, its delta reaches none of the four limits and can
  -- be compared, and so can at least the required number of the newest pairs in a row.
  pub analyze_mining_quality_iff :
      (l : Limits) (samples : List Sample)
      → (((analyze_mining_quality round4 l samples).status ≡ critical) ↔ Broken (recent samples))
        × (((analyze_mining_quality round4 l samples).status ≡ stable) ↔ Steady l (recent samples))
  unfolding analyze_mining_quality
  analyze_mining_quality_iff l samples = assess_iff l (recent samples)
