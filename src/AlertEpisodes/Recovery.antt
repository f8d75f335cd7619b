-- ===== src/AlertEpisodes/Recovery.antt =====
-- Which closed episodes `pop_due` in app/alert_episodes.py announces, and which go on waiting.
use miner_alerts.Base.{
  ℕ, ◌+◌, ◌≤◌, ◌<◌, ◌≡◌, refl, inl, inr, Bool, true, false, ◌||◌, not, Option, none, some, ◌⊎◌,
  count, List, [], ◌∷◌, any, leb, keep, All, arith, Bool-cases,
}
use miner_alerts.AlertEpisodes.Episode.{IrregularEpisode}
use miner_alerts.AlertEpisodes.Coordinator.{Schedule, Coordinator}
use miner_alerts.AlertEpisodes.PopDue.{
  part_recovered, EpisodeNotificationBatch, due_by, leaves_recovered,
}

pub count-split :
    (p q : IrregularEpisode → Bool) (es : List IrregularEpisode)
    → count q es ≡ count q (keep p es) + count q (keep (λ e. not (p e)) es)
count-split p q [] = omega arith
count-split p q (e ∷ es) = ground (arith, count-split p q es)

-- The recovery notice is due by the limit, or is not.
abbrev pub IsDue : ℕ → IrregularEpisode → Type 0
IsDue limit e = (t : ℕ) × ((e.recovery_due_ts ≡ some t) × (t ≤ limit))

abbrev pub IsLater : ℕ → IrregularEpisode → Type 0
IsLater limit e = (t : ℕ) → e.recovery_due_ts ≡ some t → limit < t

-- What `pop_due` makes of the closed episodes: each is announced or goes on waiting; those announced are
-- due within the coalescing time; if any is announced, then one was due now and all who are due within
-- the coalescing time are announced with it; and nobody who is due now goes on waiting.
pub record Recovers (c : Schedule) (now : ℕ) (k after : Coordinator)
    (batch : EpisodeNotificationBatch) : Type 0 where
  pub kept :
      (q : IrregularEpisode → Bool)
      → count q k.recovered ≡ count q batch.recovered + count q after.recovered
  pub in_time : All (IsDue (now + c.coalesce_seconds)) batch.recovered
  pub caused : (batch.recovered ≡ []) ⊎ ¬ All (IsLater now) k.recovered
  pub together : (batch.recovered ≡ []) ⊎ All (IsLater (now + c.coalesce_seconds)) after.recovered
  pub none_overdue : All (IsLater now) after.recovered

due_by-IsDue :
    (limit : ℕ) (e : IrregularEpisode) → due_by limit e.recovery_due_ts ≡ true → IsDue limit e
due_by-IsDue limit e h = of e.recovery_due_ts h
  where
    of : (o : Option ℕ) → due_by limit o ≡ true → (t : ℕ) × ((o ≡ some t) × (t ≤ limit))
    of none h = cc
    of (some t) h = (t, (refl, ground arith))

due_by-IsLater :
    (limit : ℕ) (e : IrregularEpisode) → due_by limit e.recovery_due_ts ≡ false → IsLater limit e
due_by-IsLater limit e h t found = later (rw found at h)
  where
    later : leb t limit ≡ false → limit < t
    later h = ground arith

IsLater-due_by :
    (limit : ℕ) (e : IrregularEpisode) → IsLater limit e → due_by limit e.recovery_due_ts ≡ false
IsLater-due_by limit e h = of e.recovery_due_ts h
  where
    of : (o : Option ℕ) → ((t : ℕ) → o ≡ some t → limit < t) → due_by limit o ≡ false
    of none h = refl
    of (some t) h = let later = h t refl in ground arith

-- Those that leave, those that stay, by a test.
pub All-leave :
    (p : IrregularEpisode → Bool) (P : IrregularEpisode → Type 0) (es : List IrregularEpisode)
    → ((e : IrregularEpisode) → p e ≡ true → P e)
    → All P (keep p es)
All-leave p P [] h = tt
All-leave p P (e ∷ es) h = elim (Bool-cases (p e)) [
  | inl leaves ↦ rw leaves (h e leaves, All-leave p P es h)
  | inr stays ↦ rw stays (All-leave p P es h)
]

pub keep_none :
    (p : IrregularEpisode → Bool) (es : List IrregularEpisode)
    → ((e : IrregularEpisode) → p e ≡ false)
    → keep p es ≡ []
keep_none p [] h = refl
keep_none p (e ∷ es) h = rw (h e) (keep_none p es h)

pub none-due :
    (now : ℕ) (es : List IrregularEpisode)
    → any (λ e. due_by now e.recovery_due_ts) es ≡ false
    → All (IsLater now) es
none-due now [] h = tt
none-due now (e ∷ es) h =
    let (here, rest) = neither (due_by now e.recovery_due_ts) _ h in
    (due_by-IsLater now e here, none-due now es rest)
  where
    neither : (b c : Bool) → (b || c) ≡ false → (b ≡ false) × (c ≡ false)
    neither b c h = ground arith

pub due-none :
    (now : ℕ) (es : List IrregularEpisode)
    → All (IsLater now) es
    → any (λ e. due_by now e.recovery_due_ts) es ≡ false
due-none now [] h = refl
due-none now (e ∷ es) h = rw (IsLater-due_by now e h.0) (due-none now es h.1)

pub leaves-IsDue :
    (c : Schedule) (now : ℕ) (due : Bool) (e : IrregularEpisode)
    → leaves_recovered c now due e ≡ true
    → IsDue (now + c.coalesce_seconds) e
unfolding leaves_recovered
leaves-IsDue c now due e h = due_by-IsDue (now + c.coalesce_seconds) e (ground arith)

pub stays-IsLater :
    (c : Schedule) (now : ℕ) (due : Bool) (e : IrregularEpisode)
    → due ≡ true
    → not (leaves_recovered c now due e) ≡ true
    → IsLater (now + c.coalesce_seconds) e
unfolding leaves_recovered
stays-IsLater c now due e h k = due_by-IsLater (now + c.coalesce_seconds) e (ground arith)

pub none-leaves :
    (c : Schedule) (now : ℕ) (due : Bool) (e : IrregularEpisode)
    → due ≡ false
    → leaves_recovered c now due e ≡ false
unfolding leaves_recovered
none-leaves c now due e h = rw h refl

pub All-stays :
    (p : IrregularEpisode → Bool) (now : ℕ) (es : List IrregularEpisode)
    → All (IsLater now) es
    → All (IsLater now) (keep p es)
All-stays p now [] h = tt
All-stays p now (e ∷ es) h = elim (Bool-cases (p e)) [
  | inl stays ↦ rw stays (h.0, All-stays p now es h.1)
  | inr leaves ↦ rw leaves (All-stays p now es h.1)
]

-- The loop is the choice by the test and by its negation.
pub part_recovered-keep :
    (c : Schedule) (now : ℕ) (due : Bool) (es : List IrregularEpisode)
    → part_recovered c now due es
      ≡ (keep (leaves_recovered c now due) es, keep (λ e. not (leaves_recovered c now due e)) es)
unfolding part_recovered
part_recovered-keep c now due [] = refl
part_recovered-keep c now due (e ∷ es) = elim (Bool-cases (leaves_recovered c now due e)) [
  | inl leaves ↦ rw (leaves, part_recovered-keep c now due es) refl
  | inr stays ↦ rw (stays, part_recovered-keep c now due es) refl
]
