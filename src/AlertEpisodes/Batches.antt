-- ===== src/AlertEpisodes/Batches.antt =====
-- What a call of `pop_due` in app/alert_episodes.py announces, and what it leaves.
use native.Mathlib.Nat.{suc-add}
use miner_alerts.Base.{
  ℕ, subst, zero, suc, ◌+◌, ◌-◌, ◌≤◌, ◌<◌, ◌≡◌, refl, ap, inl, inr, Bool, true, false, ◌||◌, not,
  some, ◌&&◌, ◌⊎◌, ◌∙◌, sym, count, String, List, [], ◌∷◌, any, get_elem?, leb, keep, All,
  if◌then◌else◌, arith, Bool-cases,
}
use miner_alerts.Base.Dict.{Dict, keys}
use miner_alerts.Base.Sort.{All-sort, count-sort, sort}
use miner_alerts.AlertEpisodes.Episode.{IrregularEpisode}
use miner_alerts.AlertEpisodes.Coordinator.{Schedule, Coordinator}
use miner_alerts.AlertEpisodes.PopDue.{
  reminder_at, advance, advance_missed_schedule, visit, visit_all, entries, in_bucket,
  EpisodeNotificationBatch, Bucket, due_by, next_reminder_due_ts, is_opened, persistent_batch_due,
  is_persistent, opening_batch_due, leaves_recovered, recovery_batch_due, le_episode, pop_due,
}
use miner_alerts.AlertEpisodes.Bounded.{IsTold, IsTidy}
use miner_alerts.AlertEpisodes.Recovery.{
  IsDue, IsLater, Recovers, count-split, All-leave, keep_none, none-due, due-none, leaves-IsDue,
  stays-IsLater, part_recovered-keep, none-leaves, All-stays,
}

advance-le : (age skip : ℕ) (ts : List ℕ) (i : ℕ) → i ≤ advance age skip ts i
unfolding advance
advance-le age zero [] i = omega arith
advance-le age zero (t ∷ ts) i = ground (arith, advance-le age zero ts (i + 1))
advance-le age (suc skip) [] i = omega arith
advance-le age (suc skip) (t ∷ ts) i = advance-le age skip ts i

advance_stops :
    (age skip : ℕ) (ts : List ℕ) (i : ℕ)
    → (t : ℕ) → get_elem? ts (skip + (advance age skip ts i - i)) ≡ some t
    → age < t
unfolding advance
advance_stops age zero [] i t e = cc
advance_stops age zero (u ∷ ts) i t e = elim (Bool-cases (leb u age)) [
  | inl passed ↦
      let r = advance age zero ts (i + 1) in
      let shift : 0 + (r - i) ≡ suc (0 + (r - (i + 1))) =
        omega (arith, advance-le age zero ts (i + 1)) in
      advance_stops age zero ts (i + 1) t (rw shift at (rw passed at e))
  | inr ahead ↦
      let here : 0 + (i - i) ≡ 0 = omega arith in
      let found : some u ≡ some t = rw here at (rw ahead at e) in ground arith
]
advance_stops age (suc skip) [] i t e = cc
advance_stops age (suc skip) (u ∷ ts) i t e = advance_stops age skip ts i t (rw suc-add at e)

visit-keeps :
    (c : Schedule) (now : ℕ) (opening reminding : Bool) (e : IrregularEpisode)
    → let v = visit c now opening reminding e in
      (v.0.history ≡ e.history)
      × (v.0.max_history_steps ≡ e.max_history_steps)
      × (e.initial_notice_sent ≡ true → v.0.initial_notice_sent ≡ true)
      × (opening ≡ true → v.0.initial_notice_sent ≡ true)
      × (is_persistent v.1 ≡ true → e.initial_notice_sent ≡ true)
unfolding visit
visit-keeps c now opening reminding e =
    (ground arith, ground arith, λ h. ground arith, λ h. ground arith, λ h. ground arith)

-- After the missed reminders are skipped, the next scheduled one is later than the age of the
-- episode.
pub advance_missed_lem :
    (c : Schedule) (age : ℕ) (e : IrregularEpisode) (t : ℕ)
    → reminder_at c (advance_missed_schedule c age e).reminder_index ≡ some t
    → age < t
unfolding advance_missed_schedule
advance_missed_lem c age e t h =
    let r = advance age e.reminder_index c.reminder_schedule_seconds e.reminder_index in
    let whole : r ≡ e.reminder_index + (r - e.reminder_index) =
      omega (arith, advance-le age e.reminder_index c.reminder_schedule_seconds e.reminder_index) in
    advance_stops age e.reminder_index c.reminder_schedule_seconds e.reminder_index t
      (rw whole at h)

visited-keys :
    (c : Schedule) (now : ℕ) (opening reminding : Bool) (d : Dict IrregularEpisode)
    → keys (entries (visit_all c now opening reminding d)) ≡ keys d
unfolding visit_all
visited-keys c now opening reminding [] = refl
visited-keys c now opening reminding ((k, e) ∷ d) =
    ap (◌∷◌ k) (visited-keys c now opening reminding d)

-- The first notice of an episode has been sent.
abbrev pub IsSent : IrregularEpisode → Type 0
IsSent e = e.initial_notice_sent ≡ true

abbrev pub AllSent : Dict IrregularEpisode → Type 0
AllSent [] = Unit
AllSent ((k, e) ∷ d) = IsSent e × AllSent d

visited-AllSent :
    (c : Schedule) (now : ℕ) (opening reminding : Bool) (d : Dict IrregularEpisode)
    → opening ≡ true
    → AllSent (entries (visit_all c now opening reminding d))
unfolding visit_all
visited-AllSent c now opening reminding [] h = tt
visited-AllSent c now opening reminding ((k, e) ∷ d) h =
    ((visit-keeps c now opening reminding e).3 h, visited-AllSent c now opening reminding d h)

-- Whether an open episode is due for its first notice, with the others, or for an update.
abbrev pub is_announced : ℕ → Bool → IrregularEpisode → Bool
is_announced now opening e = (opening && not e.initial_notice_sent) || due_by now e.update_due_ts

-- Whether an announced episode is due for a reminder, with the others.
abbrev pub is_reminded : Schedule → ℕ → Bool → Bool → IrregularEpisode → Bool
is_reminded c now opening reminding e =
    not (is_announced now opening e)
    && (e.initial_notice_sent
        && (reminding && due_by (now + c.coalesce_seconds) (next_reminder_due_ts c e)))

-- What `pop_due` makes of the open episodes: who is left, who has had the first notice, and, for every
-- set of miners, how many of theirs are in the batch as opened and how many as persistent.
pub record Announces (c : Schedule) (now : ℕ) (k after : Coordinator)
    (batch : EpisodeNotificationBatch) : Type 0 where
  pub same_miners : keys after.active ≡ keys k.active
  pub all_sent : (opening_batch_due now k ≡ false) ⊎ AllSent after.active
  pub opened :
      (q : String → Bool)
      → count (λ e. q e.miner_key) batch.opened
        ≡ count
            (λ item. is_announced now (opening_batch_due now k) item.1 && q item.1.miner_key)
            k.active
  pub persistent :
      (q : String → Bool)
      → count (λ e. q e.miner_key) batch.persistent
        ≡ count
            (λ item.
              is_reminded c now (opening_batch_due now k) (persistent_batch_due c now k) item.1
              && q item.1.miner_key)
            k.active

visit-bucket :
    (c : Schedule) (now : ℕ) (opening reminding : Bool) (e : IrregularEpisode)
    → let v = visit c now opening reminding e in
      (v.0.miner_key ≡ e.miner_key)
      × (is_opened v.1 ≡ is_announced now opening e)
      × (is_persistent v.1 ≡ is_reminded c now opening reminding e)
unfolding visit
visit-bucket c now opening reminding e = (ground arith, ground arith, ground arith)

count-in_bucket :
    (c : Schedule) (now : ℕ) (opening reminding : Bool) (p : Bucket → Bool)
    (spec : IrregularEpisode → Bool) (q : String → Bool) (d : Dict IrregularEpisode)
    → ((e : IrregularEpisode) → p (visit c now opening reminding e).1 ≡ spec e)
    → count (λ e. q e.miner_key) (in_bucket p (visit_all c now opening reminding d))
      ≡ count (λ item. spec item.1 && q item.1.miner_key) d
unfolding visit_all in_bucket
count-in_bucket c now opening reminding p spec q [] h = refl
count-in_bucket c now opening reminding p spec q ((k, e) ∷ d) h =
    let v = visit c now opening reminding e in
    one (p v.1) (spec e) v.0 e _ _ (h e) (visit-bucket c now opening reminding e).0
      (count-in_bucket c now opening reminding p spec q d h)
  where
    one :
        (b b' : Bool) (e' e : IrregularEpisode) (es : List IrregularEpisode) (n : ℕ)
        → b ≡ b'
        → e'.miner_key ≡ e.miner_key
        → count (λ e. q e.miner_key) es ≡ n
        → count (λ e. q e.miner_key) (if b then e' ∷ es else es)
          ≡ (if b' && q e.miner_key then suc n else n)
    one true b' e' e es n h k r = rw (sym h, k, r) refl
    one false b' e' e es n h k r = rw (sym h, r) refl

-- A call leaves the same miners with an open episode. Announced are exactly the open episodes that are
-- due for an update and, if one is due for its first notice or an update, all that had no first notice;
-- in this case every open episode has had its first notice afterwards. Reminded are exactly those of the
-- others that had theirs and, if one reminder is due, are due within the coalescing time.
pub pop_due_opens_all :
    (c : Schedule) (now : ℕ) (k : Coordinator)
    → let (after, batch) = pop_due c now k in Announces c now k after batch
unfolding pop_due
pop_due_opens_all c now k =
    let opening = opening_batch_due now k in
    let reminding = persistent_batch_due c now k in
    record {
      same_miners = visited-keys c now _ _ k.active;
      all_sent = elim (Bool-cases opening) [
        | inl due ↦ inr (visited-AllSent c now opening _ k.active due)
        | inr undue ↦ inl undue
      ];
      opened = λ q.
          count-sort le_episode (λ e. q e.miner_key) _
          ∙ count-in_bucket c now opening reminding is_opened (is_announced now opening) q k.active
              (λ e. (visit-bucket c now opening reminding e).1);
      persistent = λ q.
          count-sort le_episode (λ e. q e.miner_key) _
          ∙ count-in_bucket c now opening reminding is_persistent
              (is_reminded c now opening reminding) q k.active
              (λ e. (visit-bucket c now opening reminding e).2);
    }

IsSent-if :
    (b : Bool) (e : IrregularEpisode) (es : List IrregularEpisode)
    → (b ≡ true → IsSent e)
    → All IsSent es
    → All IsSent (if b then e ∷ es else es)
IsSent-if true e es h hs = (h refl, hs)
IsSent-if false e es h hs = hs

visited-persistent :
    (c : Schedule) (now : ℕ) (opening reminding : Bool) (d : Dict IrregularEpisode)
    → All IsSent (in_bucket is_persistent (visit_all c now opening reminding d))
unfolding visit_all in_bucket
visited-persistent c now opening reminding [] = tt
visited-persistent c now opening reminding ((k, e) ∷ d) =
    let v = visit c now opening reminding e in
    let keeps = visit-keeps c now opening reminding e in
    IsSent-if (is_persistent v.1) v.0 _ (λ h. keeps.2 (keeps.4 h))
      (visited-persistent c now opening reminding d)

-- A reminder is sent only for an episode whose first notice has been sent.
pub pop_due_reminds_announced :
    (c : Schedule) (now : ℕ) (k : Coordinator) → All IsSent (pop_due c now k).1.persistent
unfolding pop_due
pop_due_reminds_announced c now k =
    All-sort le_episode IsSent _ (visited-persistent c now _ _ k.active)

-- No closed episode is lost: for every test, those that waited and pass it are as many as those
-- announced as recovered and those that go on waiting. Those announced are due within the coalescing
-- time, and some are announced only if one was due now, with all who are due within the coalescing
-- time; nobody who is due now goes on waiting.
pub pop_due_recovered :
    (c : Schedule) (now : ℕ) (k : Coordinator)
    → let (after, batch) = pop_due c now k in Recovers c now k after batch
unfolding pop_due recovery_batch_due sort
pop_due_recovered c now k =
    let due = any (λ e. due_by now e.recovery_due_ts) k.recovered in
    let p = leaves_recovered c now due in
    let kept : (q : IrregularEpisode → Bool) → _ = λ q.
      count-split p q k.recovered
      ∙ ap (λ n. n + count q (keep (λ e. not (p e)) k.recovered))
          (sym (count-sort le_episode q (keep p k.recovered))) in
    let in_time =
      All-sort le_episode (IsDue (now + c.coalesce_seconds)) (keep p k.recovered)
        (All-leave p _ k.recovered (leaves-IsDue c now due)) in
    let visited =
      visit_all c now (opening_batch_due now k) (persistent_batch_due c now k) k.active in
    let Result : List IrregularEpisode × List IrregularEpisode → Type 0 = λ parts.
      Recovers c now k (record { active = entries visited; recovered = parts.1 })
        (record {
          opened = sort le_episode (in_bucket is_opened visited);
          persistent = sort le_episode (in_bucket is_persistent visited);
          recovered = sort le_episode parts.0;
        }) in
    subst Result (sym (part_recovered-keep c now due k.recovered)) (elim (Bool-cases due) [
      | inl some_due ↦
          let later =
            All-leave (λ e. not (p e)) (IsLater (now + c.coalesce_seconds)) k.recovered
              (λ e. stays-IsLater c now due e some_due) in
          record {
            kept = kept;
            in_time = in_time;
            caused = inr (λ all. true_not_false due some_due (due-none now k.recovered all));
            together = inr later;
            none_overdue =
                All-leave (λ e. not (p e)) (IsLater now) k.recovered
                  (λ e stays t found.
                    omega (arith, stays-IsLater c now due e some_due stays t found));
          }
      | inr none_due ↦
          let empty : sort le_episode (keep p k.recovered) ≡ [] =
            nothing _ (keep_none p k.recovered (λ e. none-leaves c now due e none_due)) in
          record {
            kept = kept;
            in_time = in_time;
            caused = inl empty;
            together = inl empty;
            none_overdue =
                All-stays (λ e. not (p e)) now k.recovered (none-due now k.recovered none_due);
          }
    ])
  where
    nothing : (es : List IrregularEpisode) → es ≡ [] → sort le_episode es ≡ []
    nothing es h = rw h refl

    true_not_false : (b : Bool) → b ≡ true → b ≡ false → ⊥
    true_not_false b h k = cc

visited-IsTold :
    (c : Schedule) (now : ℕ) (opening reminding : Bool) (d : Dict IrregularEpisode)
    → All (λ item. IsTold item.1) d
    → All (λ item. IsTold item.1) (entries (visit_all c now opening reminding d))
unfolding visit_all
visited-IsTold c now opening reminding [] h = tt
visited-IsTold c now opening reminding ((k, e) ∷ d) h =
    let keeps = visit-keeps c now opening reminding e in
    (rw (keeps.0, keeps.1) h.0, visited-IsTold c now opening reminding d h.1)

All-keep :
    (p : IrregularEpisode → Bool) (es : List IrregularEpisode)
    → All IsTold es
    → All IsTold (keep p es)
All-keep p [] h = tt
All-keep p (e ∷ es) h = elim (Bool-cases (p e)) [
  | inl stays ↦ rw stays (h.0, All-keep p es h.1)
  | inr leaves ↦ rw leaves (All-keep p es h.1)
]

-- A call keeps every history of the coordinator within its cap and not empty.
pub pop_due-IsTidy :
    (c : Schedule) (now : ℕ) (k : Coordinator) → IsTidy k → IsTidy (pop_due c now k).0
unfolding pop_due
pop_due-IsTidy c now k h = record {
  active = visited-IsTold c now _ _ k.active h.active;
  recovered =
      subst (λ parts. All IsTold parts.1)
        (sym (part_recovered-keep c now (recovery_batch_due now k) k.recovered))
        (All-keep _ k.recovered h.recovered);
}
