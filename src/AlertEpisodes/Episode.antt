-- ===== src/AlertEpisodes/Episode.antt =====
-- Episodes and their history in app/alert_episodes.py. Labels and evidence are data in place of
-- the texts that the code formats from the same values, which distinct values make distinct.
use miner_alerts.Base.{
  ℕ, suc, zero, max, Bool, true, false, ◌&&◌, Option, none, some, List, [], ◌∷◌, String, length,
  ltb, eqb, if◌then◌else◌,
}
use miner_alerts.Base.Float.{Float, is_finite}
use miner_alerts.Monitor.State.{state_eqb, State, ok, low, offline, hashboard}
use miner_alerts.RestartIntelligence.{Classification}

-- `_safe_rate`
unfoldable pub safe_rate : Option Float → Option Float
safe_rate none = none
safe_rate (some r) = if is_finite r then some r else none

-- `_state_label`, and the label of a restart.
pub data Label : Type 0 where
  plain : State → Label
  boards : Option ℕ → ℕ → Label
  reinicio : Label

unfoldable pub state_label : State → Option ℕ → ℕ → Label
state_label hashboard active expected = boards active expected
state_label k active expected = plain k

-- `_state_evidence`, and the evidence of a restart.
pub data Evidence : Type 0 where
  nothing no_answer : Evidence
  board_count : Option ℕ → ℕ → Option Float → Evidence
  below : Option Float → Float → Evidence
  rate : Option Float → Evidence
  restarted : Classification → Option (ℕ × ℕ) → Evidence

abbrev answered_evidence : State → Option Float → Float → Option ℕ → ℕ → Evidence
answered_evidence offline r threshold active expected = no_answer
answered_evidence hashboard r threshold active expected = board_count active expected (safe_rate r)
answered_evidence low r threshold active expected = below (safe_rate r) threshold
answered_evidence ok r threshold active expected = rate (safe_rate r)

unfoldable pub state_evidence : State → Bool → Option Float → Float → Option ℕ → ℕ → Evidence
state_evidence k responded r threshold active expected =
    if responded then answered_evidence k r threshold active expected else no_answer

pub data Kind : Type 0 where
  state_kind restart_kind : Kind

pub record EpisodeStep : Type 0 where
  pub occurred_ts : ℕ
  pub kind : Kind
  pub label : Label
  pub evidence : Evidence
  pub event_id : Option ℕ

pub record IrregularEpisode : Type 0 where
  pub miner_key : String
  pub name_display : String
  pub host : String
  pub started_ts : ℕ
  pub current_state : State
  pub responded : Bool
  pub rate_ths : Option Float
  pub threshold_ths : Float
  pub active_boards : Option ℕ
  pub expected_boards : ℕ
  pub initial_due_ts : ℕ
  pub history : List EpisodeStep
  pub detail_event_id : Option ℕ
  pub restart_event_ids : List ℕ
  pub initial_notice_sent : Bool
  pub update_due_ts : Option ℕ
  pub reminder_index : ℕ
  pub repeat_index : ℕ
  pub closed_ts : Option ℕ
  pub recovery_due_ts : Option ℕ
  pub max_history_steps : ℕ

abbrev eqb_option : Option ℕ → Option ℕ → Bool
eqb_option none none = true
eqb_option (some a) (some b) = eqb a b
eqb_option _ _ = false

abbrev pub eqb_label : Label → Label → Bool
eqb_label (plain a) (plain b) = state_eqb a b
eqb_label (boards a m) (boards b n) = eqb_option a b && eqb m n
eqb_label reinicio reinicio = true
eqb_label _ _ = false

abbrev eqb_kind : Kind → Kind → Bool
eqb_kind state_kind state_kind = true
eqb_kind restart_kind restart_kind = true
eqb_kind _ _ = false

-- A step like the last one takes its place, any other is appended.
unfoldable pub put_step : EpisodeStep → List EpisodeStep → List EpisodeStep
put_step step [] = step ∷ []
put_step step (x ∷ []) =
    if eqb_kind x.kind step.kind && eqb_label x.label step.label then step ∷ [] else x ∷ step ∷ []
put_step step (x ∷ (y ∷ xs)) = x ∷ put_step step (y ∷ xs)

-- `history.pop(1)`
abbrev pub pop_second : List EpisodeStep → List EpisodeStep
pop_second [] = []
pop_second (x ∷ []) = x ∷ []
pop_second (x ∷ (y ∷ xs)) = x ∷ xs

-- `while len(history) > cap: history.pop(1)`; the length is enough fuel.
unfoldable pub trim : ℕ → ℕ → List EpisodeStep → List EpisodeStep
trim zero cap h = h
trim (suc fuel) cap h =
    let rest = trim fuel cap (pop_second h) in if ltb cap (length h) then rest else h

unfoldable pub add_step : EpisodeStep → IrregularEpisode → IrregularEpisode
add_step step e =
    let h = put_step step e.history in
    record e { history = trim (length h) (max 2 e.max_history_steps) h }

-- `history[-1].label`
abbrev pub last_label : List EpisodeStep → Option Label
last_label [] = none
last_label (x ∷ []) = some x.label
last_label (x ∷ (y ∷ xs)) = last_label (y ∷ xs)

-- `history[-1].event_id = id`
unfoldable pub mark_last : ℕ → List EpisodeStep → List EpisodeStep
mark_last id [] = []
mark_last id (x ∷ []) = record x { event_id = some id } ∷ []
mark_last id (x ∷ (y ∷ xs)) = x ∷ mark_last id (y ∷ xs)
