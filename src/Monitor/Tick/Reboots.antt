-- ===== src/Monitor/Tick/Reboots.antt =====
-- The times of a miner's automatic reboots over a series of ticks of app/miner_monitor.py.
use mathlib.Core.List.{append-nil, append_assoc}
use miner_alerts.Base.{
  ℕ, ◌+◌, ◌≤◌, ◌<◌, ◌≡◌, refl, ap, subst, ◌∙◌, keep-append, keep-keep, ◌⊎◌, inl, inr, Bool, true,
  false, Option, none, some, List, [], ◌∷◌, ◌++◌, length, leb, keep, length-keep, length-append,
  if◌then◌else◌, arith, Bool-cases,
}
use miner_alerts.Monitor.State.{MinerState, Settings, Sample, Surroundings}
use miner_alerts.Monitor.Signal.{qa_sample}
use miner_alerts.Monitor.Policy.{drop_old_reboots}
use miner_alerts.Monitor.Policy.Effects.{rebooted}
use miner_alerts.Monitor.Policy.Gates.{IsOld}
use miner_alerts.Monitor.Tick.{tick_miner}
use miner_alerts.Monitor.Tick.Stages.{
  SameReboots, ready, before_policy-Aside, settled-SameReboots, tick-outcome, tick-MayReboot,
}

-- A reboot at `ts` lies in the window that ends at `now`.
abbrev pub recent : Settings → ℕ → ℕ → Bool
recent c now ts = leb now (ts + c.auto_reboot_window_seconds)

-- This tick sent a reboot with success.
unfoldable pub reboots_now : Settings → Surroundings → Sample → MinerState → Bool
reboots_now c w raw s = rebooted (tick_miner c w raw s).policy.actions

-- What a tick does to the two records of automatic reboots.
pub record Recorded (c : Settings) (w : Surroundings) (raw : Sample) (s : MinerState) : Type 0 where
  pub times : (tick_miner c w raw s).state.auto_reboot_timestamps ≡ (
      if reboots_now c w raw s
      then keep (recent c w.now_ts) s.auto_reboot_timestamps ++ w.now_ts ∷ []
      else keep (recent c w.now_ts) s.auto_reboot_timestamps)
  pub auto :
      (tick_miner c w raw s).state.last_auto_reboot_ts
      ≡ (if reboots_now c w raw s then some w.now_ts else s.last_auto_reboot_ts)
  pub room :
      reboots_now c w raw s ≡ true
      → length (keep (recent c w.now_ts) s.auto_reboot_timestamps) < c.max_reboots_per_window
  pub cooled :
      reboots_now c w raw s ≡ true
      → (c.reboot_cooldown_seconds ≡ 0) ⊎ IsOld c w.now_ts s.last_auto_reboot_ts

ready-SameReboots :
    (c : Settings) (w : Surroundings) (raw : Sample) (s : MinerState)
    → SameReboots (ready c w raw s) s
ready-SameReboots c w raw s =
    let m = qa_sample c raw in
    ground (arith, before_policy-Aside c w m s, settled-SameReboots c w.now_ts m s)

IsOld-of_same :
    (c : Settings) (now : ℕ) (m a b : Option ℕ)
    → a ≡ b
    → (c.reboot_cooldown_seconds ≡ 0) ⊎ (IsOld c now m × IsOld c now a)
    → (c.reboot_cooldown_seconds ≡ 0) ⊎ IsOld c now b
IsOld-of_same c now m a b e (inl h) = inl h
IsOld-of_same c now m a b e (inr h) = inr (subst (IsOld c now) e h.1)

pub tick-Recorded :
    (c : Settings) (w : Surroundings) (raw : Sample) (s : MinerState) → Recorded c w raw s
unfolding drop_old_reboots reboots_now
tick-Recorded c w raw s =
    let (late, policy) = tick-outcome c w raw s in
    let same = ready-SameReboots c w raw s in
    record {
      times =
          late.times
          ∙ policy.times
          ∙ ap
              (λ ts.
                if reboots_now c w raw s
                then keep (recent c w.now_ts) ts ++ w.now_ts ∷ []
                else keep (recent c w.now_ts) ts)
              same.times;
      auto =
          late.auto
          ∙ policy.auto
          ∙ ap (λ t. if reboots_now c w raw s then some w.now_ts else t) same.auto;
      room = λ h. rw (same.times) at ((tick-MayReboot c w raw s h).in_window);
      cooled = λ h.
          IsOld-of_same c w.now_ts (ready c w raw s).last_manual_reboot_ts
            (ready c w raw s).last_auto_reboot_ts s.last_auto_reboot_ts same.auto
            (tick-MayReboot c w raw s h).cooled;
    }

-- The times at which these ticks sent a reboot with success.
unfoldable pub reboots : Settings → List (Surroundings × Sample) → MinerState → List ℕ
reboots c [] s = []
reboots c ((w, raw) ∷ ticks) s =
    let rest = reboots c ticks (tick_miner c w raw s).state in
    if reboots_now c w raw s then w.now_ts ∷ rest else rest

-- Each time is at least `d` after the one before it, the first after `previous` if there is one.
abbrev pub IsSpaced : ℕ → Option ℕ → List ℕ → Type 0
IsSpaced d previous [] = Unit
IsSpaced d none (t ∷ ts) = IsSpaced d (some t) ts
IsSpaced d (some p) (t ∷ ts) = (p + d ≤ t) × IsSpaced d (some t) ts

IsSpaced-cons :
    (d : ℕ) (previous : Option ℕ) (t : ℕ) (ts : List ℕ)
    → ((p : ℕ) → previous ≡ some p → p + d ≤ t)
    → IsSpaced d (some t) ts
    → IsSpaced d previous (t ∷ ts)
IsSpaced-cons d none t ts h k = k
IsSpaced-cons d (some p) t ts h k = (h p refl, k)

IsSpaced-step :
    (sent : Bool) (d : ℕ) (previous next : Option ℕ) (t : ℕ) (ts : List ℕ)
    → next ≡ (if sent then some t else previous)
    → (sent ≡ true → (p : ℕ) → previous ≡ some p → p + d ≤ t)
    → IsSpaced d next ts
    → IsSpaced d previous (if sent then t ∷ ts else ts)
IsSpaced-step true d previous next t ts e h k =
    IsSpaced-cons d previous t ts (h refl) (subst (λ o. IsSpaced d o ts) e k)
IsSpaced-step false d previous next t ts e h k = subst (λ o. IsSpaced d o ts) e k

apart :
    (c : Settings) (now : ℕ) (o : Option ℕ) (p : ℕ)
    → 0 < c.reboot_cooldown_seconds
    → (c.reboot_cooldown_seconds ≡ 0) ⊎ IsOld c now o
    → o ≡ some p
    → p + c.reboot_cooldown_seconds ≤ now
apart c now o p pos h e = ground arith

-- With a cooldown that is not 0, the automatic reboots of a miner are at least the cooldown apart,
-- the first of them from the one that its state remembers, however the clock jumps between ticks.
pub reboots-IsSpaced :
    (c : Settings) (ticks : List (Surroundings × Sample)) (s : MinerState)
    → 0 < c.reboot_cooldown_seconds
    → IsSpaced c.reboot_cooldown_seconds s.last_auto_reboot_ts (reboots c ticks s)
unfolding reboots
reboots-IsSpaced c [] s pos = tt
reboots-IsSpaced c ((w, raw) ∷ ticks) s pos =
    let h = tick-Recorded c w raw s in
    let t = (tick_miner c w raw s).state in
    IsSpaced-step (reboots_now c w raw s) c.reboot_cooldown_seconds s.last_auto_reboot_ts
      t.last_auto_reboot_ts w.now_ts (reboots c ticks t) h.auto
      (λ sent p e. apart c w.now_ts s.last_auto_reboot_ts p pos (h.cooled sent) e)
      (reboots-IsSpaced c ticks t pos)

-- The clock does not go back over these ticks, from `from` on and up to `to`.
abbrev pub IsMonotone : ℕ → List (Surroundings × Sample) → ℕ → Type 0
IsMonotone from [] to = from ≤ to
IsMonotone from ((w, raw) ∷ ticks) to = (from ≤ w.now_ts) × IsMonotone w.now_ts ticks to

IsMonotone-le :
    (from to : ℕ) (ticks : List (Surroundings × Sample)) → IsMonotone from ticks to → from ≤ to
IsMonotone-le from to [] h = h
IsMonotone-le from to ((w, raw) ∷ ticks) h = omega (arith, IsMonotone-le w.now_ts to ticks h.1)

recent-keep :
    (c : Settings) (now to : ℕ) (xs : List ℕ)
    → now ≤ to
    → keep (recent c to) (keep (recent c now) xs) ≡ keep (recent c to) xs
recent-keep c now to xs le = keep-keep (recent c now) (recent c to) (λ x h. ground arith) xs

-- The window at a later time holds no more of the list that the tick kept.
recent-split :
    (c : Settings) (now to : ℕ) (sent : Bool) (xs ts ys rest : List ℕ)
    → now ≤ to
    → ys ≡ (if sent then keep (recent c now) xs ++ now ∷ [] else keep (recent c now) xs)
    → ts ≡ (if sent then now ∷ rest else rest)
    → keep (recent c to) (ys ++ rest) ≡ keep (recent c to) (xs ++ ts)
recent-split c now to true xs ts ys rest le e k =
    let kept = keep (recent c now) xs in
    rw (
      e,
      k,
      append_assoc kept (now ∷ []) rest,
      keep-append (recent c to) kept (now ∷ rest),
      keep-append (recent c to) xs (now ∷ rest),
      recent-keep c now to xs le,
    )
recent-split c now to false xs ts ys rest le e k =
    let kept = keep (recent c now) xs in
    rw (
      e,
      k,
      keep-append (recent c to) kept rest,
      keep-append (recent c to) xs rest,
      recent-keep c now to xs le,
    )

pub tick-room :
    (c : Settings) (w : Surroundings) (raw : Sample) (s : MinerState)
    → length s.auto_reboot_timestamps ≤ c.max_reboots_per_window
    → length (tick_miner c w raw s).state.auto_reboot_timestamps ≤ c.max_reboots_per_window
tick-room c w raw s h =
    let r = tick-Recorded c w raw s in
    let kept = keep (recent c w.now_ts) s.auto_reboot_timestamps in
    elim (Bool-cases (reboots_now c w raw s)) [
      | inl sent ↦
          rw (r.times, sent) (omega (arith, r.room sent, length-append kept (w.now_ts ∷ [])))
      | inr quiet ↦
          rw (r.times, quiet)
            (omega (arith, length-keep (recent c w.now_ts) s.auto_reboot_timestamps))
    ]

-- If the clock does not go back over the ticks, and the miner remembers no more automatic reboots
-- than the maximum before them, then the window that ends at any time after them holds no more than
-- the maximum of those it remembered and those that the ticks sent.
pub reboots_in_window :
    (c : Settings) (ticks : List (Surroundings × Sample)) (s : MinerState) (from to : ℕ)
    → IsMonotone from ticks to
    → length s.auto_reboot_timestamps ≤ c.max_reboots_per_window
    → length (keep (recent c to) (s.auto_reboot_timestamps ++ reboots c ticks s))
      ≤ c.max_reboots_per_window
unfolding reboots
reboots_in_window c [] s from to clock room =
    rw append-nil (omega (arith, length-keep (recent c to) s.auto_reboot_timestamps))
reboots_in_window c ((w, raw) ∷ ticks) s from to clock room =
    let t = (tick_miner c w raw s).state in
    subst (λ l. length l ≤ c.max_reboots_per_window)
      (recent-split c w.now_ts to (reboots_now c w raw s) s.auto_reboot_timestamps _
        t.auto_reboot_timestamps (reboots c ticks t) (IsMonotone-le w.now_ts to ticks clock.1)
        (tick-Recorded c w raw s).times refl)
      (reboots_in_window c ticks t w.now_ts to clock.1 (tick-room c w raw s room))
