-- ===== src/EvidenceFusion/Fleet.antt =====
-- `detect_fleet_pattern` in app/evidence_fusion.py.
use miner_alerts.Base.{
  ℕ, ◌+◌, ◌-◌, Bool, ◌||◌, Option, none, some, List, [], ◌∷◌, String, map, keep, any, length, ltb,
  leb, same_text, if◌then◌else◌,
}
use miner_alerts.Base.Sort.{sort, le_string}
use miner_alerts.EvidenceFusion.Facts.{EvidenceFact}

pub record FleetPattern : Type 0 where
  pub miner_keys : List String
  pub window_span_s : ℕ
  pub first_fact_ids : List String

-- `f.code in _DEGRADATION_CODES`
unfoldable pub is_degradation : EvidenceFact → Bool
is_degradation f =
    same_text f.code "signal.current_offline" || same_text f.code "signal.current_low"

abbrev pub le_fact : EvidenceFact → EvidenceFact → Bool
le_fact f g = leb f.effective_ts g.effective_ts

-- The set of the keys, each once.
unfoldable pub distinct_keys : List EvidenceFact → List String
distinct_keys [] = []
distinct_keys (f ∷ fs) =
    let rest = distinct_keys fs in
    if any (same_text f.subject_key) rest then rest else f.subject_key ∷ rest

unfoldable pub facts_in_window : ℕ → EvidenceFact → List EvidenceFact → List EvidenceFact
facts_in_window window anchor fs = keep (λ f. leb f.effective_ts (anchor.effective_ts + window)) fs

-- `in_window[-1].effective_ts`; the anchor is always in its window.
abbrev last_ts : ℕ → List EvidenceFact → ℕ
last_ts t [] = t
last_ts t (f ∷ fs) = last_ts f.effective_ts fs

abbrev pattern_of : EvidenceFact → List EvidenceFact → FleetPattern
pattern_of anchor fs = record {
  miner_keys = sort le_string (distinct_keys fs);
  window_span_s = last_ts anchor.effective_ts fs - anchor.effective_ts;
  first_fact_ids = map (λ f. f.fact_id) fs;
}

-- The sliding window: the first anchor with two miners in its window.
unfoldable pub first_window : ℕ → List EvidenceFact → Option FleetPattern
first_window window [] = none
first_window window (f ∷ fs) =
    let rest = first_window window fs in
    let inside = facts_in_window window f (f ∷ fs) in
    if leb 2 (length (distinct_keys inside)) then some (pattern_of f inside) else rest

unfoldable pub detect_fleet_pattern : ℕ → List EvidenceFact → Option FleetPattern
detect_fleet_pattern window facts =
    let degraded = keep is_degradation facts in
    if ltb (length degraded) 2 then none else first_window window (sort le_fact degraded)
