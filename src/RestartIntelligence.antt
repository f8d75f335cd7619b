-- ===== src/RestartIntelligence.antt =====
-- app/restart_intelligence.py: who caused a restart. Times are natural numbers of one unit.
pub mod Attribution
mod Examples
use miner_alerts.Base.{
  ℕ, ◌+◌, ◌-◌, Bool, ◌&&◌, Option, none, some, List, [], ◌∷◌, ◌++◌, ltb, leb, not, if◌then◌else◌,
}

pub data ActionSource : Type 0 where
  manual auto : ActionSource

pub data Classification : Type 0 where
  unexpected : Classification
  expected : ActionSource → Classification

pub data Severity : Type 0 where
  critical info : Severity

pub record RestartClassification {ℓ} (R : Type ℓ) : Type ℓ where
  pub classification : Classification
  pub severity : Severity
  pub restart_reason : R
  pub action_source : Option ActionSource
  pub action_ts : Option ℕ
  pub action_age_seconds : Option ℕ

-- One round of the loop over the two action times: a time past the skew tolerance and a time
-- older than the window are no candidates. `-` stops at 0, as `max(0.0, …)` does.
unfoldable pub candidate : ActionSource → Option ℕ → ℕ → ℕ → ℕ → List (ℕ × ActionSource)
candidate source none detected window skew = []
candidate source (some ts) detected window skew =
    if ltb (detected + skew) ts
    then []
    else (if leb (detected - ts) window then (ts, source) ∷ [] else [])

-- `max(candidates, key=lambda item: item[0])`: the first of the largest.
unfoldable pub latest : ℕ × ActionSource → List (ℕ × ActionSource) → ℕ × ActionSource
latest best [] = best
latest best (c ∷ cs) = latest (if ltb best.0 c.0 then c else best) cs

module _ {ℓ} {R : Type ℓ} where
  -- The classification from the list of candidates.
  unfoldable pub attribute : R → ℕ → List (ℕ × ActionSource) → RestartClassification R
  unfolding latest
  attribute reason detected [] = record {
    classification = unexpected;
    severity = critical;
    restart_reason = reason;
    action_source = none;
    action_ts = none;
    action_age_seconds = none;
  }
  attribute reason detected (c ∷ cs) =
      let best = latest c cs in
      record {
        classification = expected best.1;
        severity = info;
        restart_reason = reason;
        action_source = some best.1;
        action_ts = some best.0;
        action_age_seconds = some (detected - best.0);
      }

  unfoldable pub classify_restart : R → ℕ → Option ℕ → Option ℕ → ℕ → ℕ → RestartClassification R
  unfolding attribute candidate
  classify_restart reason detected last_manual last_auto window skew = attribute reason detected (
      candidate manual last_manual detected window skew
      ++ candidate auto last_auto detected window skew)
