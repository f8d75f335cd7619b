-- ===== src/AlertEpisodes/PopDue.antt =====
-- `pop_due` in app/alert_episodes.py: which episodes are due for a notice.
use Prim.Native.Char.{code}
use miner_alerts.Base.{
  ℕ, zero, suc, ◌+◌, ◌-◌, ◌*◌, Bool, true, false, ◌&&◌, ◌||◌, not, Option, none, some, List, [],
  ◌∷◌, String, any, length, get_elem?, ltb, leb, is_some, if◌then◌else◌,
}
use miner_alerts.Base.Dict.{Dict}
use miner_alerts.Base.Sort.{sort, le_string}
use miner_alerts.AlertEpisodes.Episode.{IrregularEpisode}
use miner_alerts.AlertEpisodes.Coordinator.{Schedule, Coordinator}

pub record EpisodeNotificationBatch : Type 0 where
  pub opened : List IrregularEpisode
  pub persistent : List IrregularEpisode
  pub recovered : List IrregularEpisode

-- `schedule[index]`, if the index is in range.
abbrev pub reminder_at : Schedule → ℕ → Option ℕ
reminder_at c i = get_elem? c.reminder_schedule_seconds i

-- The rounds of `_advance_missed_schedule`: one for each entry from the index on, at most.
unfoldable pub advance : ℕ → ℕ → List ℕ → ℕ → ℕ
advance age zero [] i = i
advance age zero (t ∷ ts) i =
    let rest = advance age zero ts (i + 1) in if leb t age then rest else i
advance age (suc skip) [] i = i
advance age (suc skip) (t ∷ ts) i = advance age skip ts i

unfoldable pub advance_missed_schedule : Schedule → ℕ → IrregularEpisode → IrregularEpisode
unfolding advance
advance_missed_schedule c age e = record e {
  reminder_index = advance age e.reminder_index c.reminder_schedule_seconds e.reminder_index;
}

-- `schedule[-1]`; the constructor leaves no empty schedule.
abbrev last_or_zero : List ℕ → ℕ
last_or_zero [] = 0
last_or_zero (t ∷ []) = t
last_or_zero (t ∷ (u ∷ ts)) = last_or_zero (u ∷ ts)

abbrev due_by_index : Schedule → IrregularEpisode → Option ℕ → ℕ
due_by_index c e (some t) = e.started_ts + t
due_by_index c e none =
    e.started_ts
    + last_or_zero c.reminder_schedule_seconds
    + c.steady_repeat_seconds * e.repeat_index

unfoldable pub next_reminder_due_ts : Schedule → IrregularEpisode → Option ℕ
next_reminder_due_ts c e =
    if not e.initial_notice_sent || is_some e.update_due_ts
    then none
    else some (due_by_index c e (reminder_at c e.reminder_index))

-- `due_ts is not None and limit >= due_ts`
abbrev pub due_by : ℕ → Option ℕ → Bool
due_by limit none = false
due_by limit (some t) = leb t limit

unfoldable pub opening_due : ℕ → IrregularEpisode → Bool
opening_due now e =
    (not e.initial_notice_sent && leb e.initial_due_ts now) || due_by now e.update_due_ts

unfoldable pub leaves_recovered : Schedule → ℕ → Bool → IrregularEpisode → Bool
leaves_recovered c now due e = due && due_by (now + c.coalesce_seconds) e.recovery_due_ts

-- The loop over the closed episodes: those announced, and those that go on waiting.
unfoldable pub part_recovered :
    Schedule → ℕ → Bool → List IrregularEpisode → List IrregularEpisode × List IrregularEpisode
part_recovered c now due [] = ([], [])
part_recovered c now due (e ∷ es) =
    let (announced, remaining) = part_recovered c now due es in
    if leaves_recovered c now due e then (e ∷ announced, remaining) else (announced, e ∷ remaining)

pub data Bucket : Type 0 where
  no_notice opened persistent : Bucket

-- One round of the loop over the active episodes.
unfoldable pub visit : Schedule → ℕ → Bool → Bool → IrregularEpisode → IrregularEpisode × Bucket
unfolding next_reminder_due_ts advance_missed_schedule
visit c now opening reminding e =
    let age = now - e.started_ts in
    if not e.initial_notice_sent && opening
    then (
      advance_missed_schedule c age (record e { initial_notice_sent = true; update_due_ts = none }),
      opened,
    )
    else (if due_by now e.update_due_ts
        then (advance_missed_schedule c age (record e { update_due_ts = none }), opened)
        else (if not e.initial_notice_sent
            then (e, no_notice)
            else (if reminding && due_by (now + c.coalesce_seconds) (next_reminder_due_ts c e)
                then (if ltb e.reminder_index (length c.reminder_schedule_seconds)
                    then (
                      advance_missed_schedule c age
                          (record e { reminder_index = e.reminder_index + 1 }),
                      persistent,
                    )
                    else (record e { repeat_index = e.repeat_index + 1 }, persistent))
                else (e, no_notice))))

-- `int(name)` if the name is all digits, for the digits 0 to 9: other characters that `isdigit` accepts
-- are taken as no digits here, where `int` reads or refuses them.
abbrev is_digit : ℕ → Bool
is_digit c = leb b'0' c && leb c b'9'

abbrev only_digits : String → Bool
only_digits String.[] = true
only_digits (String.◌∷◌ c s) = is_digit (code c) && only_digits s

abbrev decimal : ℕ → String → ℕ
decimal acc String.[] = acc
decimal acc (String.◌∷◌ c s) = decimal (acc * 10 + (code c - b'0')) s

abbrev number_of : String → Option ℕ
number_of String.[] = none
number_of (String.◌∷◌ c s) =
    if only_digits (String.◌∷◌ c s) then some (decimal 0 (String.◌∷◌ c s)) else none

-- The sort key: numbers before other names.
abbrev le_key : Option ℕ → Option ℕ → String → String → Bool
le_key (some a) (some b) s t = leb a b
le_key (some a) none s t = true
le_key none (some b) s t = false
le_key none none s t = le_string s t

unfoldable pub le_episode : IrregularEpisode → IrregularEpisode → Bool
le_episode a b =
    le_key (number_of a.name_display) (number_of b.name_display) a.name_display b.name_display

abbrev pub is_opened : Bucket → Bool
is_opened opened = true
is_opened _ = false

abbrev pub is_persistent : Bucket → Bool
is_persistent persistent = true
is_persistent _ = false

-- The loop: each active episode in order, with its notice.
unfoldable pub visit_all :
    Schedule → ℕ → Bool → Bool → Dict IrregularEpisode → List (String × IrregularEpisode × Bucket)
visit_all c now opening reminding [] = []
visit_all c now opening reminding ((k, e) ∷ d) =
    let (e', b) = visit c now opening reminding e in
    (k, e', b) ∷ visit_all c now opening reminding d

unfoldable pub opening_batch_due : ℕ → Coordinator → Bool
opening_batch_due now k = any (λ item. opening_due now item.1) k.active

unfoldable pub persistent_batch_due : Schedule → ℕ → Coordinator → Bool
persistent_batch_due c now k = any (λ item. due_by now (next_reminder_due_ts c item.1)) k.active

unfoldable pub recovery_batch_due : ℕ → Coordinator → Bool
recovery_batch_due now k = any (λ e. due_by now e.recovery_due_ts) k.recovered

-- The episodes of a bucket, in the order of the loop.
unfoldable pub in_bucket :
    (Bucket → Bool) → List (String × IrregularEpisode × Bucket) → List IrregularEpisode
in_bucket p [] = []
in_bucket p ((k, e, b) ∷ vs) = let rest = in_bucket p vs in if p b then e ∷ rest else rest

-- The open episodes after the loop.
abbrev pub entries : List (String × IrregularEpisode × Bucket) → Dict IrregularEpisode
entries [] = []
entries ((k, e, b) ∷ vs) = (k, e) ∷ entries vs

unfoldable pub pop_due : Schedule → ℕ → Coordinator → Coordinator × EpisodeNotificationBatch
unfolding opening_batch_due persistent_batch_due recovery_batch_due part_recovered
pop_due c now k =
    let due = recovery_batch_due now k in
    let (announced, remaining) = part_recovered c now due k.recovered in
    let visited =
      visit_all c now (opening_batch_due now k) (persistent_batch_due c now k) k.active in
    (
      record { active = entries visited; recovered = remaining },
      record {
        opened = sort le_episode (in_bucket is_opened visited);
        persistent = sort le_episode (in_bucket is_persistent visited);
        recovered = sort le_episode announced;
      },
    )
