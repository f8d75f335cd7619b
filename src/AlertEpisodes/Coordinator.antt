-- ===== src/AlertEpisodes/Coordinator.antt =====
-- `IrregularEpisodeCoordinator` in app/alert_episodes.py up to `detail_event_id`. The episodes are
-- values: the coordinator's dict and its recovered list never hold the same episode.
use miner_alerts.Base.{
  ℕ, ◌*◌, ◌+◌, max, Bool, true, false, ◌&&◌, ◌||◌, not, Option, none, some, List, [], ◌∷◌, ◌++◌,
  String, map, any, eqb, leb, is_some, if◌then◌else◌,
}
use miner_alerts.Base.Float.{Float}
use miner_alerts.Base.Value.{unit}
use miner_alerts.Base.Sort.{sort}
use miner_alerts.Base.Dict.{Dict, lookup, insert, erase}
use miner_alerts.Monitor.State.{State, state_eqb, is_ok}
use miner_alerts.RestartIntelligence.{Classification}
use miner_alerts.AlertEpisodes.Episode.{
  Label, reinicio, nothing, restarted, state_kind, restart_kind, EpisodeStep, IrregularEpisode,
  safe_rate, state_label, state_evidence, eqb_label, add_step, last_label, mark_last,
}

-- The settings that the constructor keeps.
pub record Schedule : Type 0 where
  pub coalesce_seconds : ℕ
  pub reminder_schedule_seconds : List ℕ
  pub steady_repeat_seconds : ℕ
  pub max_history_steps : ℕ

pub record Coordinator : Type 0 where
  pub active : Dict IrregularEpisode
  pub recovered : List IrregularEpisode

-- The set of the values, each once.
unfoldable pub distinct : List ℕ → List ℕ
distinct [] = []
distinct (x ∷ xs) = let rest = distinct xs in if any (eqb x) rest then rest else x ∷ rest

abbrev or_default : List ℕ → List ℕ
or_default [] = (300 * unit) ∷ []
or_default (x ∷ xs) = x ∷ xs

-- `__init__`, for durations that are not negative.
unfoldable pub make_schedule : ℕ → List ℕ → ℕ → ℕ → Schedule
unfolding distinct
make_schedule coalesce reminders steady history = record {
  coalesce_seconds = coalesce;
  reminder_schedule_seconds = or_default (sort leb (distinct (map (max unit) reminders)));
  steady_repeat_seconds = max (60 * unit) steady;
  max_history_steps = max 4 history;
}

-- The `restart` dict of `observe`.
pub record Restart : Type 0 where
  pub event_id : Option ℕ
  pub classification : Classification
  pub previous_elapsed : Option ℕ
  pub current_elapsed : Option ℕ

-- The keyword arguments of `observe`; an empty previous state is `none`.
pub record Report : Type 0 where
  pub miner_key : String
  pub name_display : String
  pub host : String
  pub previous_state : Option State
  pub state : State
  pub responded : Bool
  pub rate_ths : Option Float
  pub threshold_ths : Float
  pub active_boards : Option ℕ
  pub expected_boards : ℕ
  pub now_ts : ℕ
  pub transition_event_id : Option ℕ
  pub restart : Option Restart

-- The step that shows the reported state.
unfoldable pub current_step : Report → EpisodeStep
current_step r = record {
  occurred_ts = r.now_ts;
  kind = state_kind;
  label = state_label r.state r.active_boards r.expected_boards;
  evidence =
      state_evidence r.state r.responded r.rate_ths r.threshold_ths r.active_boards
        r.expected_boards;
  event_id = r.transition_event_id;
}

abbrev previous_step : Report → State → EpisodeStep
previous_step r k = record {
  occurred_ts = r.now_ts;
  kind = state_kind;
  label = state_label k none r.expected_boards;
  evidence = nothing;
  event_id = none;
}

unfoldable pub add_previous : Report → Option State → IrregularEpisode → IrregularEpisode
add_previous r none e = e
add_previous r (some k) e = if state_eqb k r.state then e else add_step (previous_step r k) e

-- `_new_episode`, without the entry in the dict.
unfoldable pub new_episode : Schedule → Report → IrregularEpisode
unfolding current_step add_previous
new_episode c r =
    let e = add_previous r r.previous_state (record {
      miner_key = r.miner_key;
      name_display = r.name_display;
      host = r.host;
      started_ts = r.now_ts;
      current_state = r.state;
      responded = r.responded;
      rate_ths = safe_rate r.rate_ths;
      threshold_ths = r.threshold_ths;
      active_boards = r.active_boards;
      expected_boards = r.expected_boards;
      initial_due_ts = r.now_ts + c.coalesce_seconds;
      history = [];
      detail_event_id = r.transition_event_id;
      restart_event_ids = [];
      initial_notice_sent = false;
      update_due_ts = none;
      reminder_index = 0;
      repeat_index = 1;
      closed_ts = none;
      recovery_due_ts = none;
      max_history_steps = c.max_history_steps;
    }) in
    if is_some r.restart then e else add_step (current_step r) e

-- The fields that each report renews.
unfoldable pub refresh : Report → IrregularEpisode → IrregularEpisode
refresh r e = record e {
  name_display = r.name_display;
  host = r.host;
  current_state = r.state;
  responded = r.responded;
  rate_ths = safe_rate r.rate_ths;
  threshold_ths = r.threshold_ths;
  active_boards = r.active_boards;
  expected_boards = r.expected_boards;
}

abbrev remember_restart : Option ℕ → IrregularEpisode → IrregularEpisode
remember_restart none e = e
remember_restart (some id) e = record e {
  restart_event_ids =
      if any (eqb id) e.restart_event_ids
      then e.restart_event_ids
      else e.restart_event_ids ++ id ∷ [];
  detail_event_id = some id;
}

abbrev uptimes : Option ℕ → Option ℕ → Option (ℕ × ℕ)
uptimes (some p) (some q) = some (p, q)
uptimes _ _ = none

-- The branch on `restart`.
unfoldable pub note_restart :
    Schedule → Report → Option Restart → IrregularEpisode → IrregularEpisode
note_restart c r none e = e
note_restart c r (some x) e =
    let d =
      add_step
        (record {
          occurred_ts = r.now_ts;
          kind = restart_kind;
          label = reinicio;
          evidence = restarted x.classification (uptimes x.previous_elapsed x.current_elapsed);
          event_id = x.event_id;
        })
        (remember_restart x.event_id e) in
    record d {
      update_due_ts =
          if d.initial_notice_sent then some (r.now_ts + c.coalesce_seconds) else d.update_due_ts;
    }

abbrev pub same_label : Label → Option Label → Bool
same_label l none = false
same_label l (some k) = eqb_label l k

abbrev pub mark_event : Option ℕ → IrregularEpisode → IrregularEpisode
mark_event none e = e
mark_event (some id) e = record e { history = mark_last id e.history }

-- A new label makes a step, the same one takes the event.
unfoldable pub note_state : Report → IrregularEpisode → IrregularEpisode
unfolding current_step
note_state r e =
    if same_label (state_label r.state r.active_boards r.expected_boards) (last_label e.history)
    then mark_event r.transition_event_id e
    else add_step (current_step r) e

unfoldable pub note_detail : Report → IrregularEpisode → IrregularEpisode
note_detail r e =
    if is_some e.detail_event_id then e else record e { detail_event_id = r.transition_event_id }

unfoldable pub close : Schedule → Report → IrregularEpisode → IrregularEpisode
close c r e = record e {
  closed_ts = some r.now_ts;
  recovery_due_ts =
      some (
        max e.initial_due_ts
          (r.now_ts + (if e.initial_notice_sent then c.coalesce_seconds else 0)));
}

-- The episode after the report, before the test for OK.
unfoldable pub update_episode : Schedule → Report → IrregularEpisode → IrregularEpisode
update_episode c r e = note_detail r (note_state r (note_restart c r r.restart e))

abbrev pub begin : Schedule → Report → Option IrregularEpisode → IrregularEpisode
begin c r none = new_episode c r
begin c r (some e) = refresh r e

unfoldable pub store : Schedule → Report → IrregularEpisode → Coordinator → Coordinator
store c r e k =
    if is_ok r.state
    then record { active = erase r.miner_key k.active; recovered = k.recovered ++ close c r e ∷ [] }
    else record k { active = insert r.miner_key e k.active }

-- `observe`, without its result, which no caller reads.
unfoldable pub observe : Schedule → Report → Coordinator → Coordinator
observe c r k =
    let found = lookup r.miner_key k.active in
    if not (is_some found) && not (not (is_ok r.state) || is_some r.restart)
    then k
    else store c r (update_episode c r (begin c r found)) k

unfoldable pub acknowledge_active_initials : Coordinator → Coordinator
acknowledge_active_initials k = record k {
  active = map (λ item. (item.0, record item.1 { initial_notice_sent = true })) k.active;
}

abbrev detail_of : Option IrregularEpisode → Option ℕ
detail_of none = none
detail_of (some e) = e.detail_event_id

unfoldable pub detail_event_id : String → Coordinator → Option ℕ
detail_event_id key k = detail_of (lookup key k.active)
