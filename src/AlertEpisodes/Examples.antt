-- ===== src/AlertEpisodes/Examples.antt =====
-- Concrete reports and episodes for app/alert_episodes.py.
use miner_alerts.Base.{
  ◌*◌, ◌≤◌, ◌<◌, ◌≡◌, refl, true, false, none, some, [], ◌∷◌, length, last, if◌then◌else◌,
  same_text,
}
use miner_alerts.Base.Int.{pos}
use miner_alerts.Base.Float.{fin}
use miner_alerts.Base.Value.{unit}
use miner_alerts.Base.Dict.{lookup}
use miner_alerts.Monitor.State.{ok, offline}
use miner_alerts.AlertEpisodes.Episode.{
  restart_kind, reinicio, nothing, EpisodeStep, IrregularEpisode, add_step,
}
use miner_alerts.AlertEpisodes.Coordinator.{Schedule, Coordinator, Report, observe}
use miner_alerts.AlertEpisodes.PopDue.{reminder_at, advance_missed_schedule, pop_due}
use miner_alerts.AlertEpisodes.History.{cap, SameStart, add_step_lem}
use miner_alerts.AlertEpisodes.Active.{reported, lookup-observe}
use miner_alerts.AlertEpisodes.Bounded.{IsTidy, observe-IsTidy}
use miner_alerts.AlertEpisodes.Recovery.{Recovers}
use miner_alerts.AlertEpisodes.Batches.{
  Announces, pop_due_opens_all, pop_due_recovered, advance_missed_lem,
}

abbrev schedule : Schedule
schedule = record {
  coalesce_seconds = 60 * unit;
  reminder_schedule_seconds = (300 * unit) ∷ (900 * unit) ∷ (3600 * unit) ∷ [];
  steady_repeat_seconds = 3600 * unit;
  max_history_steps = 8;
}

abbrev down : Report
down = record {
  miner_key = "01|10.0.0.1:4028";
  name_display = "01";
  host = "10.0.0.1";
  previous_state = some ok;
  state = offline;
  responded = false;
  rate_ths = none;
  threshold_ths = fin (pos (100 * unit));
  active_boards = none;
  expected_boards = 3;
  now_ts = 1000 * unit;
  transition_event_id = some 5;
  restart = none;
}

abbrev up : Report
up = record down {
  previous_state = some offline;
  state = ok;
  responded = true;
  rate_ths = some (fin (pos (120 * unit)));
  now_ts = 1300 * unit;
}

abbrev empty : Coordinator
empty = record { active = []; recovered = [] }

-- One miner is down.
abbrev one_down : Coordinator
one_down = observe schedule down empty

empty-IsTidy : IsTidy empty
empty-IsTidy = record { active = tt; recovered = tt }

one_down-IsTidy : IsTidy one_down
one_down-IsTidy = observe-IsTidy schedule down empty empty-IsTidy

-- The episode of the miner that is down, told in two steps.
abbrev episode : IrregularEpisode
episode = reported schedule down empty

abbrev restarted_step : EpisodeStep
restarted_step = record {
  occurred_ts = 1100 * unit;
  kind = restart_kind;
  label = reinicio;
  evidence = nothing;
  event_id = some 6;
}

add_step_lem_example :
    let h = (add_step restarted_step episode).history in
    (last h ≡ some restarted_step)
    × (length h ≤ cap episode)
    × SameStart restarted_step episode.history h
add_step_lem_example = add_step_lem restarted_step episode

lookup-observe_example : lookup down.miner_key (observe schedule up one_down).active ≡ (
    if same_text down.miner_key down.miner_key then none else lookup down.miner_key one_down.active)
lookup-observe_example = lookup-observe schedule up one_down down.miner_key

pop_due_opens_all_example :
    let (after, batch) = pop_due schedule (1100 * unit) one_down in
    Announces schedule (1100 * unit) one_down after batch
pop_due_opens_all_example = pop_due_opens_all schedule (1100 * unit) one_down

-- The miner is back.
abbrev one_back : Coordinator
one_back = observe schedule up one_down

pop_due_recovered_example :
    let (after, batch) = pop_due schedule (1400 * unit) one_back in
    Recovers schedule (1400 * unit) one_back after batch
pop_due_recovered_example = pop_due_recovered schedule (1400 * unit) one_back

-- An episode that has been announced.
abbrev announced : IrregularEpisode
announced = record {
  miner_key = "01|10.0.0.1:4028";
  name_display = "01";
  host = "10.0.0.1";
  started_ts = 1000 * unit;
  current_state = offline;
  responded = false;
  rate_ths = none;
  threshold_ths = fin (pos (100 * unit));
  active_boards = none;
  expected_boards = 3;
  initial_due_ts = 1060 * unit;
  history = restarted_step ∷ [];
  detail_event_id = some 5;
  restart_event_ids = [];
  initial_notice_sent = true;
  update_due_ts = none;
  reminder_index = 0;
  repeat_index = 1;
  closed_ts = none;
  recovery_due_ts = none;
  max_history_steps = 8;
}

late_reminder :
    reminder_at schedule (advance_missed_schedule schedule (400 * unit) announced).reminder_index
    ≡ some (900 * unit)
unfolding advance_missed_schedule
late_reminder = refl

advance_missed_lem_example : 400 * unit < 900 * unit
advance_missed_lem_example =
    advance_missed_lem schedule (400 * unit) announced (900 * unit) late_reminder
