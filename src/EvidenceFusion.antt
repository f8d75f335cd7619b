-- ===== src/EvidenceFusion.antt =====
-- app/evidence_fusion.py: how far evidence lets a cause be blamed, and when several miners are down
-- together. Conditions and causes are data: the texts that the tables name, and any other text.
pub mod Ceilings
pub mod Facts
pub mod Fleet
pub mod Agreement
pub mod Config
pub mod Concurrent
mod Examples
use miner_alerts.Base.{
  ℕ, zero, suc, Bool, true, false, ◌&&◌, not, Option, none, some, List, [], ◌∷◌, String, all, min,
  ltb, if◌then◌else◌,
}

pub data Level : Type 0 where
  observed suspected confirmed : Level

-- `_LEVEL_RANK` and `_RANK_LEVEL`
abbrev pub rank : Level → ℕ
rank observed = 0
rank suspected = 1
rank confirmed = 2

abbrev pub level_of : ℕ → Level
level_of zero = observed
level_of (suc zero) = suspected
level_of (suc (suc n)) = confirmed

pub data Condition : Type 0 where
  stale future_skew unparsed_clock partial_collector fresh_symptom : Condition
  temporal_proximity_only direct_cause_fresh_valid : Condition
  concurrent_degradation current_offline current_low : Condition
  unknown : String → Condition

-- `_CEILING_TABLE.get(condition)`
unfoldable pub ceiling_of : Condition → Option Level
ceiling_of stale = some observed
ceiling_of future_skew = some observed
ceiling_of unparsed_clock = some observed
ceiling_of partial_collector = some observed
ceiling_of fresh_symptom = some suspected
ceiling_of temporal_proximity_only = some suspected
ceiling_of direct_cause_fresh_valid = some confirmed
ceiling_of concurrent_degradation = none
ceiling_of current_offline = none
ceiling_of current_low = none
ceiling_of (unknown s) = none

-- `condition in _NON_CAUSAL_CONDITIONS`
unfoldable pub is_non_causal : Condition → Bool
is_non_causal direct_cause_fresh_valid = false
is_non_causal (unknown s) = false
is_non_causal _ = true

-- `power.electrical_fault` is the one cause that needs a proof from outside.
pub data Cause : Type 0 where
  electrical_fault : Cause
  other_cause : String → Cause

abbrev pub needs_external : Cause → Bool
needs_external electrical_fault = true
needs_external (other_cause s) = false

abbrev pub lower_to : ℕ → Option Level → ℕ
lower_to best none = best
lower_to best (some l) = if ltb (rank l) best then rank l else best

-- The loop over the conditions, with the least rank so far.
unfoldable pub least_rank : List Condition → ℕ → ℕ
least_rank [] best = best
least_rank (c ∷ cs) best = least_rank cs (lower_to best (ceiling_of c))

unfoldable pub compute_confidence_ceiling : List Condition → Level
compute_confidence_ceiling cs = level_of (least_rank cs (rank confirmed))

-- `_RANK_LEVEL[min(_LEVEL_RANK[level], _LEVEL_RANK["suspected"])]`
abbrev pub at_most_suspected : Level → Level
at_most_suspected l = level_of (min (rank l) (rank suspected))

abbrev pub is_nil {ℓ} : {A : Type ℓ} → List A → Bool
is_nil [] = true
is_nil (x ∷ xs) = false

unfoldable pub max_cause_level : Cause → List Condition → Level
max_cause_level cause cs =
    let ceiling = compute_confidence_ceiling cs in
    let capped = if needs_external cause then at_most_suspected ceiling else ceiling in
    if not (is_nil cs) && all is_non_causal cs then at_most_suspected capped else capped

pub record Evaluation : Type 0 where
  pub level : Level
  pub contradicting_fact_ids : List String
  pub missing_requirement_codes : List String

unfoldable pub evaluate_hypothesis : List Condition → List String → List String → Evaluation
evaluate_hypothesis supporting contradicting missing =
    let start = if is_nil supporting then observed else compute_confidence_ceiling supporting in
    let contradicted = if is_nil contradicting then start else at_most_suspected start in
    record {
      level = if is_nil missing then contradicted else at_most_suspected contradicted;
      contradicting_fact_ids = contradicting;
      missing_requirement_codes = missing;
    }
