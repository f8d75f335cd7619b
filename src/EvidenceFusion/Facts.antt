-- ===== src/EvidenceFusion/Facts.antt =====
-- The facts of app/evidence_fusion.py: freshness, clock quality, codes, and the attribution window.
use Prim.Native.Char.{Char, code}
use miner_alerts.Base.{
  ℕ, ◌+◌, Bool, false, ◌&&◌, Option, none, some, List, [], ◌∷◌, String, any, eqb, leb, same_text,
  if◌then◌else◌,
}
use miner_alerts.Base.Int.{ℤ, pos, ◌-ℤ◌, leb_ℤ, ltb_ℤ}
use miner_alerts.Base.Float.{Float, fin}
use miner_alerts.EvidenceFusion.{Level}

pub data Freshness : Type 0 where
  fresh stale future_skew unknown : Freshness

-- The comparisons for finite times: 5 s of skew are allowed.
abbrev finite_freshness : ℤ → ℤ → ℤ → Freshness
finite_freshness effective now threshold =
    if ltb_ℤ now (effective -ℤ pos 5000000)
    then future_skew
    else (if leb_ℤ (now -ℤ effective) threshold then fresh else stale)

unfoldable pub classify_freshness : Float → Float → Float → Freshness
classify_freshness (fin effective) (fin now) (fin threshold) =
    finite_freshness effective now threshold
classify_freshness _ _ _ = unknown

-- One evidence unit, with times in millionths of a second.
pub record EvidenceFact : Type 0 where
  pub fact_id : String
  pub subject_type : String
  pub subject_key : String
  pub source : String
  pub source_row_id : ℕ
  pub code : String
  pub effective_ts : ℕ
  pub ingested_ts : Option ℕ
  pub freshness : Freshness
  pub clock_quality : String
  pub authority : Option String
  pub quality : Option String
  pub reason_code : Option String
  pub value : Option Float
  pub units : Option String
  pub confidence_ceiling : Level

abbrev is_one_of : List String → String → Bool
is_one_of names s = any (same_text s) names

-- `map_clock_quality`; an empty source clock counts as none, and is in no table.
abbrev stored_clock : Option String → String
stored_clock none = "unparsed"
stored_clock (some clock) =
    if is_one_of ("system" ∷ "system_local" ∷ "fixed_utc_offset" ∷ "unparsed" ∷ "unknown" ∷ [])
      clock
    then clock
    else "unparsed"

unfoldable pub map_clock_quality : String → Option String → String
map_clock_quality table clock =
    if is_one_of
      ("telemetry_samples" ∷ "operational_events" ∷ "reboot_decisions" ∷ "collector_runs" ∷ [])
      table
    then "system"
    else (if same_text table "firmware_events" then stored_clock clock else "unknown")

abbrev behind : Char → Option String → Option String
behind c none = none
behind c (some s) = some (String.◌∷◌ c s)

-- `code.split(".", 1)[0]`, if the code has a point.
unfoldable pub family_of : String → Option String
family_of String.[] = none
family_of (String.◌∷◌ c s) =
    let rest = family_of s in if eqb (code c) b'.' then some String.[] else behind c rest

abbrev is_recognized : Option String → Bool
is_recognized none = false
is_recognized (some family) =
    is_one_of
      ("signal" ∷ "restart" ∷ "action" ∷ "firmware" ∷ "quality" ∷ "fleet" ∷ "collector"
        ∷ "acquisition" ∷ "power" ∷ [])
      family

unfoldable pub validate_fact_code : String → Bool
validate_fact_code text = is_recognized (family_of text)

-- The restart follows the action by no more than the window.
unfoldable pub is_within_attribution_window : ℕ → ℕ → ℕ → Bool
is_within_attribution_window action restart window =
    leb action restart && leb restart (action + window)
