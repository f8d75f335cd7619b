-- ===== src/EvidenceFusion/Ceilings.antt =====
-- What the confidence ceilings of app/evidence_fusion.py let through.
use miner_alerts.Base.{
  ℕ, zero, suc, ◌≤◌, ◌≡◌, ◌↔◌, ◌⊎◌, refl, true, false, Option, none, some, List, [], ◌∷◌, String,
  all, All, arith,
}
use miner_alerts.EvidenceFusion.{
  Level, observed, suspected, confirmed, rank, level_of, Condition, ceiling_of, is_non_causal,
  Cause, needs_external, least_rank, lower_to, compute_confidence_ceiling, is_nil, max_cause_level,
  evaluate_hypothesis,
}

-- A ceiling, if there is one, does not lie under the level.
abbrev pub Allows : Level → Option Level → Type 0
Allows l none = Unit
Allows l (some k) = rank l ≤ rank k

lower_to_iff :
    (l : Level) (best : ℕ) (o : Option Level)
    → (rank l ≤ lower_to best o) ↔ ((rank l ≤ best) × Allows l o)
lower_to_iff l best none = (λ h. (h, tt), λ h. h.0)
lower_to_iff l best (some k) = (λ h. (ground arith, ground arith), λ h. ground arith)

least_rank_iff :
    (l : Level) (cs : List Condition) (best : ℕ)
    → (rank l ≤ least_rank cs best) ↔ ((rank l ≤ best) × All (λ c. Allows l (ceiling_of c)) cs)
unfolding least_rank
least_rank_iff l [] best = (λ h. (h, tt), λ h. h.0)
least_rank_iff l (c ∷ cs) best =
    let rest = least_rank_iff l cs (lower_to best (ceiling_of c)) in
    let here = lower_to_iff l best (ceiling_of c) in
    (
      λ h. let (low, all_cs) = rest.0 h in ((here.0 low).0, ((here.0 low).1, all_cs)),
      λ h. rest.1 (here.1 (h.0, h.1.0), h.1.1),
    )

least_rank-le : (cs : List Condition) (best : ℕ) → best ≤ 2 → least_rank cs best ≤ 2
unfolding least_rank
least_rank-le [] best h = h
least_rank-le (c ∷ cs) best h = least_rank-le cs _ (ground arith)

rank-level_of : (n : ℕ) → n ≤ 2 → rank (level_of n) ≡ n
rank-level_of zero h = refl
rank-level_of (suc zero) h = refl
rank-level_of (suc (suc n)) h = omega arith

rank-ceiling : (cs : List Condition) → rank (compute_confidence_ceiling cs) ≡ least_rank cs 2
unfolding compute_confidence_ceiling
rank-ceiling cs = rank-level_of (least_rank cs 2) (least_rank-le cs 2 (omega arith))

rank-le : (l : Level) → rank l ≤ 2
rank-le l = ground arith

-- The ceiling of some conditions is the highest level that none of their ceilings lies under;
-- conditions without a ceiling, their order and their repetition do not matter.
pub ceiling_iff :
    (l : Level) (cs : List Condition)
    → (rank l ≤ rank (compute_confidence_ceiling cs)) ↔ All (λ c. Allows l (ceiling_of c)) cs
ceiling_iff l cs =
    let iff = least_rank_iff l cs 2 in
    (
      λ h. (iff.0 (omega (arith, h, rank-ceiling cs))).1,
      λ h. omega (arith, iff.1 (rank-le l, h), rank-ceiling cs),
    )

-- No ceiling holds these conditions under `confirmed`.
abbrev pub AllowConfirmed : List Condition → Type 0
AllowConfirmed = All (λ c. Allows confirmed (ceiling_of c))

confirmed-rank : (l : Level) → (l ≡ confirmed) ↔ (2 ≤ rank l)
confirmed-rank observed = ground arith
confirmed-rank suspected = ground arith
confirmed-rank confirmed = ground arith

ceiling-confirmed :
    (cs : List Condition) → (compute_confidence_ceiling cs ≡ confirmed) ↔ AllowConfirmed cs
ceiling-confirmed cs =
    let top = confirmed-rank (compute_confidence_ceiling cs) in
    let iff = ceiling_iff confirmed cs in (λ h. iff.0 (top.0 h), λ h. top.1 (iff.1 h))

max_cause_level-top :
    (cause : Cause) (cs : List Condition)
    → (max_cause_level cause cs ≡ confirmed) ↔ (
        (needs_external cause ≡ false)
        × (compute_confidence_ceiling cs ≡ confirmed)
        × ((is_nil cs ≡ true) ⊎ (all is_non_causal cs ≡ false)))
unfolding max_cause_level
max_cause_level-top cause cs = (λ h. ground arith, λ h. ground arith)

-- A cause may be confirmed exactly when it needs no proof from outside, no ceiling of its conditions
-- lies under `confirmed`, and there are no conditions or one that is causal. A condition that is not
-- known has no ceiling and counts as causal, so no fact of a direct cause is asked for.
pub max_cause_level_iff :
    (cause : Cause) (cs : List Condition)
    → (max_cause_level cause cs ≡ confirmed) ↔ (
        (needs_external cause ≡ false)
        × AllowConfirmed cs
        × ((is_nil cs ≡ true) ⊎ (all is_non_causal cs ≡ false)))
max_cause_level_iff cause cs =
    let top = max_cause_level-top cause cs in
    let ceil = ceiling-confirmed cs in
    (λ h. let (a, b, c) = top.0 h in (a, ceil.0 b, c), λ h. top.1 (h.0, ceil.1 h.1, h.2))

evaluate-top :
    (supporting : List Condition) (contradicting missing : List String)
    → ((evaluate_hypothesis supporting contradicting missing).level ≡ confirmed) ↔ (
        (is_nil supporting ≡ false)
        × (compute_confidence_ceiling supporting ≡ confirmed)
        × (is_nil contradicting ≡ true)
        × (is_nil missing ≡ true))
unfolding evaluate_hypothesis
evaluate-top supporting contradicting missing = (λ h. ground arith, λ h. ground arith)

-- A hypothesis is confirmed exactly when it has supporting conditions, no ceiling of theirs lies
-- under `confirmed`, nothing contradicts it and nothing is missing.
pub evaluate_hypothesis_iff :
    (supporting : List Condition) (contradicting missing : List String)
    → ((evaluate_hypothesis supporting contradicting missing).level ≡ confirmed) ↔ (
        (is_nil supporting ≡ false)
        × AllowConfirmed supporting
        × (is_nil contradicting ≡ true)
        × (is_nil missing ≡ true))
evaluate_hypothesis_iff supporting contradicting missing =
    let top = evaluate-top supporting contradicting missing in
    let ceil = ceiling-confirmed supporting in
    (λ h. let (a, b, c, d) = top.0 h in (a, ceil.0 b, c, d), λ h. top.1 (h.0, ceil.1 h.1, h.2, h.3))
