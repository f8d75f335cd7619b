-- ===== src/AlertEpisodes/Bounded.antt =====
-- The histories that the coordinator of app/alert_episodes.py keeps are never empty nor too long.
use miner_alerts.Base.{
  ℕ, ◌≤◌, ◌<◌, ◌≡◌, refl, subst, inl, inr, Bool, true, false, ◌&&◌, ◌||◌, not, Option, none, some,
  List, [], ◌∷◌, ◌++◌, String, same_text, is_some, length, last, All, if◌then◌else◌, arith,
  Bool-cases,
}
use miner_alerts.Base.Dict.{Dict, lookup, insert, erase}
use miner_alerts.Monitor.State.{State, is_ok}
use miner_alerts.AlertEpisodes.Episode.{
  IrregularEpisode, EpisodeStep, Label, add_step, mark_last, last_label, state_label,
}
use miner_alerts.AlertEpisodes.Coordinator.{
  same_label, mark_event, Schedule, Coordinator, Report, Restart, begin, update_episode, close,
  store, observe, new_episode, refresh, note_restart, note_state, note_detail, add_previous,
  current_step,
}
use miner_alerts.AlertEpisodes.History.{cap, add_step_lem}

-- The history is within its cap.
abbrev pub IsShort : IrregularEpisode → Type 0
IsShort e = length e.history ≤ cap e

-- The history is within its cap and not empty.
abbrev pub IsTold : IrregularEpisode → Type 0
IsTold e = (length e.history ≤ cap e) × (0 < length e.history)

last-length : (h : List EpisodeStep) (s : EpisodeStep) → last h ≡ some s → 0 < length h
last-length [] s e = cc
last-length (x ∷ xs) s e = omega arith

add_step-cap : (step : EpisodeStep) (e : IrregularEpisode) → cap (add_step step e) ≡ cap e
unfolding add_step
add_step-cap step e = refl

add_step-IsTold : (step : EpisodeStep) (e : IrregularEpisode) → IsTold (add_step step e)
add_step-IsTold step e =
    let h = add_step_lem step e in
    (omega (arith, h.1, add_step-cap step e), last-length (add_step step e).history step h.0)

length-mark_last : (id : ℕ) (h : List EpisodeStep) → length (mark_last id h) ≡ length h
unfolding mark_last
length-mark_last id [] = refl
length-mark_last id (x ∷ []) = refl
length-mark_last id (x ∷ (y ∷ xs)) = omega (arith, length-mark_last id (y ∷ xs))

IsShort-if :
    (b : Bool) (e f : IrregularEpisode) → IsShort e → IsShort f → IsShort (if b then e else f)
IsShort-if true e f h k = h
IsShort-if false e f h k = k

IsTold-if :
    (b : Bool) (e f : IrregularEpisode)
    → (b ≡ true → IsTold e)
    → IsTold f
    → IsTold (if b then e else f)
IsTold-if true e f h k = h refl
IsTold-if false e f h k = k

add_previous-IsShort :
    (r : Report) (o : Option State) (e : IrregularEpisode)
    → IsShort e
    → IsShort (add_previous r o e)
unfolding add_previous
add_previous-IsShort r none e h = h
add_previous-IsShort r (some k) e h = IsShort-if _ _ _ h (add_step-IsTold _ _).0

begin-IsShort :
    (c : Schedule) (r : Report) (o : Option IrregularEpisode)
    → ((e : IrregularEpisode) → o ≡ some e → IsTold e)
    → IsShort (begin c r o)
unfolding new_episode refresh
begin-IsShort c r none h =
    IsShort-if (is_some r.restart) _ _ (add_previous-IsShort r r.previous_state _ (omega arith))
      (add_step-IsTold _ _).0
begin-IsShort c r (some e) h = (h e refl).0

note_restart-IsShort :
    (c : Schedule) (r : Report) (o : Option Restart) (e : IrregularEpisode)
    → IsShort e
    → IsShort (note_restart c r o e)
unfolding note_restart
note_restart-IsShort c r none e h = h
note_restart-IsShort c r (some x) e h = (add_step-IsTold _ _).0

mark_event-IsTold : (o : Option ℕ) (e : IrregularEpisode) → IsTold e → IsTold (mark_event o e)
mark_event-IsTold none e h = h
mark_event-IsTold (some id) e h = omega (arith, length-mark_last id e.history)

same_label-length :
    (l : Label) (h : List EpisodeStep) → same_label l (last_label h) ≡ true → 0 < length h
same_label-length l [] e = cc
same_label-length l (x ∷ xs) e = omega arith

note_state-IsTold : (r : Report) (e : IrregularEpisode) → IsShort e → IsTold (note_state r e)
unfolding note_state
note_state-IsTold r e h =
    let l = state_label r.state r.active_boards r.expected_boards in
    IsTold-if (same_label l (last_label e.history)) _ _
      (λ same. mark_event-IsTold r.transition_event_id e (h, same_label-length l e.history same))
      (add_step-IsTold (current_step r) e)

note_detail-IsTold : (r : Report) (e : IrregularEpisode) → IsTold e → IsTold (note_detail r e)
unfolding note_detail
note_detail-IsTold r e h = IsTold-if _ _ _ (λ known. h) h

update_episode-IsTold :
    (c : Schedule) (r : Report) (e : IrregularEpisode) → IsShort e → IsTold (update_episode c r e)
unfolding update_episode
update_episode-IsTold c r e h =
    note_detail-IsTold r _ (note_state-IsTold r _ (note_restart-IsShort c r r.restart e h))

abbrev AllTold : Dict IrregularEpisode → Type 0
AllTold = All (λ item. IsTold item.1)

-- Every episode that the coordinator holds is told within its cap.
pub record IsTidy (k : Coordinator) : Type 0 where
  pub active : All (λ item. IsTold item.1) k.active
  pub recovered : All IsTold k.recovered

abbrev ToldIn : Option IrregularEpisode → Type 0
ToldIn none = Unit
ToldIn (some e) = IsTold e

first-IsTold :
    (b : Bool) (x e : IrregularEpisode) (rest : Option IrregularEpisode)
    → IsTold x
    → (rest ≡ some e → IsTold e)
    → (if b then some x else rest) ≡ some e
    → IsTold e
first-IsTold true x e rest h k found = subst ToldIn found h
first-IsTold false x e rest h k found = k found

lookup-AllTold :
    (j : String) (d : Dict IrregularEpisode)
    → AllTold d
    → (e : IrregularEpisode) → lookup j d ≡ some e
    → IsTold e
unfolding lookup
lookup-AllTold j [] h e found = cc
lookup-AllTold j ((i, x) ∷ d) h e found =
    first-IsTold (same_text i j) x e (lookup j d) h.0 (lookup-AllTold j d h.1 e) found

insert-AllTold :
    (j : String) (e : IrregularEpisode) (d : Dict IrregularEpisode)
    → IsTold e
    → AllTold d
    → AllTold (insert j e d)
unfolding insert
insert-AllTold j e [] t h = (t, tt)
insert-AllTold j e ((i, x) ∷ d) t h = elim (Bool-cases (same_text i j)) [
  | inl same ↦ rw same (t, h.1)
  | inr other ↦ rw other (h.0, insert-AllTold j e d t h.1)
]

erase-AllTold : (j : String) (d : Dict IrregularEpisode) → AllTold d → AllTold (erase j d)
unfolding erase
erase-AllTold j [] h = tt
erase-AllTold j ((i, x) ∷ d) h = elim (Bool-cases (same_text i j)) [
  | inl same ↦ rw same (erase-AllTold j d h.1)
  | inr other ↦ rw other (h.0, erase-AllTold j d h.1)
]

All-snoc :
    (es : List IrregularEpisode) (e : IrregularEpisode)
    → All IsTold es
    → IsTold e
    → All IsTold (es ++ e ∷ [])
All-snoc [] e h t = (t, tt)
All-snoc (x ∷ xs) e h t = (h.0, All-snoc xs e h.1 t)

store-IsTidy :
    (c : Schedule) (r : Report) (e : IrregularEpisode) (k : Coordinator)
    → IsTold e
    → IsTidy k
    → IsTidy (store c r e k)
unfolding store close
store-IsTidy c r e k t h = elim (Bool-cases (is_ok r.state)) [
  | inl over ↦ rw over (record {
    active = erase-AllTold r.miner_key k.active h.active;
    recovered = All-snoc k.recovered _ h.recovered t;
  })
  | inr on ↦ rw on (record {
    active = insert-AllTold r.miner_key e k.active t h.active;
    recovered = h.recovered;
  })
]

-- A report keeps every history of the coordinator within its cap and not empty.
pub observe-IsTidy :
    (c : Schedule) (r : Report) (k : Coordinator) → IsTidy k → IsTidy (observe c r k)
unfolding observe
observe-IsTidy c r k h =
    let found = lookup r.miner_key k.active in
    let told =
      update_episode-IsTold c r (begin c r found)
        (begin-IsShort c r found (lookup-AllTold r.miner_key k.active h.active)) in
    elim (Bool-cases (not (is_some found) && not (not (is_ok r.state) || is_some r.restart))) [
      | inl idle ↦ rw idle h
      | inr opens ↦ rw opens (store-IsTidy c r (update_episode c r (begin c r found)) k told h)
    ]
