-- ===== src/Acquisition/Scheduler/Pace.antt =====
-- How often `EpochScheduler` in app/acquisition.py gives an epoch, and which ones it skips.
use miner_alerts.Base.{
  ℕ, zero, suc, ◌+◌, ◌-◌, ◌*◌, ◌/◌, ◌%◌, ◌≤◌, ◌<◌, max, ◌≡◌, refl, sym, subst, inl, inr, true,
  false, Option, none, some, List, [], ◌∷◌, length, ltb, Bool-cases, arith,
}
use miner_alerts.Base.Int.{pos, negsuc}
use miner_alerts.Base.Float.{Float, fin}
use native.Mathlib.Omega.{div_any}
use native.Mathlib.Nat.{mod-lt}
use miner_alerts.Acquisition.Scheduler.{
  AcquisitionEpoch, EpochScheduler, make_scheduler, Poll, issue, skip, after_last, next_epoch,
  poll_all,
}

abbrev pub Later : ℕ → Option ℕ → ℕ → Type 0
Later period none t = Unit
Later period (some s) t = s + period ≤ t

-- The epochs are numbered on from `id`, each at least a period after the one before.
abbrev pub IsPaced : ℕ → Option ℕ → ℕ → List AcquisitionEpoch → Type 0
IsPaced period last id [] = Unit
IsPaced period last id (e ∷ es) =
    (e.epoch_id ≡ suc id)
    × (Later period last e.scheduled_monotonic
        × IsPaced period (some e.scheduled_monotonic) (suc id) es)

-- The first epoch's time, the last one's, the number of epochs after the first and of those skipped:
-- together they take up the time, up to less than a period for each epoch.
abbrev pub Accounts : ℕ → ℕ → ℕ → ℕ → ℕ → Type 0
Accounts period first last later skipped =
    (first + period * (later + skipped) ≤ last)
    × (last ≤ first + period * (later + skipped) + period * later)

max-suc : (q : ℕ) → max 1 (suc q) - 1 ≡ q
max-suc q = grind arith

quotient_time :
    (elapsed period q r : ℕ)
    → period * q + r ≡ elapsed
    → r < period
    → period ≤ elapsed
    → (period * suc (max 1 q - 1) ≤ elapsed) × (elapsed < period * suc (max 1 q - 1) + period)
quotient_time elapsed period zero r e lt le = (omega (arith, e, lt, le), omega (arith, e, lt, le))
quotient_time elapsed period (suc q) r e lt le =
    rw (max-suc q) (omega (arith, e), omega (arith, e, lt))

skip_time :
    (elapsed period : ℕ)
    → 0 < period
    → period ≤ elapsed
    → (period * suc (max 1 (elapsed / period) - 1) ≤ elapsed)
      × (elapsed < period * suc (max 1 (elapsed / period) - 1) + period)
skip_time elapsed period h le =
    quotient_time elapsed period (elapsed / period) (elapsed % period) (div_any elapsed period)
      (mod-lt elapsed h) le

Accounts-step :
    (period first t now later skipped n : ℕ)
    → Accounts period first t later skipped
    → t + period * suc n ≤ now
    → now < t + period * suc n + period
    → Accounts period first now (suc later) (skipped + n)
Accounts-step period first t now later skipped n h lo hi = (omega (arith, h), omega (arith, h))

next_epoch-early :
    (q : Poll) (s : EpochScheduler) (t : ℕ)
    → s.last_scheduled_monotonic ≡ some t
    → ltb (q.now_monotonic - t) s.period_seconds ≡ true
    → next_epoch q s ≡ (none, s)
unfolding next_epoch after_last
next_epoch-early q s t e h = rw e (rw h refl)

next_epoch-due :
    (q : Poll) (s : EpochScheduler) (t : ℕ)
    → s.last_scheduled_monotonic ≡ some t
    → ltb (q.now_monotonic - t) s.period_seconds ≡ false
    → next_epoch q s ≡ let (e, s') = issue q (skip (q.now_monotonic - t) s) in (some e, s')
unfolding next_epoch after_last issue
next_epoch-due q s t e h = rw e (rw h refl)

next_epoch-first :
    (q : Poll) (s : EpochScheduler)
    → s.last_scheduled_monotonic ≡ none
    → next_epoch q s ≡ let (e, s') = issue q s in (some e, s')
unfolding next_epoch after_last
next_epoch-first q s e = rw e refl

poll_all-IsPaced :
    (qs : List Poll) (s : EpochScheduler) (last : Option ℕ)
    → 0 < s.period_seconds
    → s.last_scheduled_monotonic ≡ last
    → IsPaced s.period_seconds last s.last_epoch_id (poll_all qs s).0
unfolding poll_all issue skip
poll_all-IsPaced [] s last h e = tt
poll_all-IsPaced (q ∷ qs) s none h e =
    rw (next_epoch-first q s e)
      (refl, (tt, poll_all-IsPaced qs (issue q s).1 (some q.now_monotonic) h refl))
poll_all-IsPaced (q ∷ qs) s (some t) h e =
    elim (Bool-cases (ltb (q.now_monotonic - t) s.period_seconds)) [
      | inl early ↦ rw (next_epoch-early q s t e early) (poll_all-IsPaced qs s (some t) h e)
      | inr due ↦ rw (next_epoch-due q s t e due) (
        refl,
        (
          ground (arith, due, h),
          poll_all-IsPaced qs (issue q (skip (q.now_monotonic - t) s)).1 (some q.now_monotonic) h
              refl,
        ),
      )
    ]

-- The account of a scheduler after its first epoch.
abbrev pub Balanced : ℕ → ℕ → EpochScheduler → Type 0
Balanced first later s =
    (t : ℕ) × ((s.last_scheduled_monotonic ≡ some t)
      × Accounts s.period_seconds first t later s.skipped_epoch_count)

zero_plus : (n : ℕ) → 0 + n ≡ n
zero_plus n = omega arith

plus_suc : (m n : ℕ) → suc m + n ≡ m + suc n
plus_suc m n = omega arith

due_account :
    (q : Poll) (s : EpochScheduler) (t first later : ℕ)
    → 0 < s.period_seconds
    → Accounts s.period_seconds first t later s.skipped_epoch_count
    → ltb (q.now_monotonic - t) s.period_seconds ≡ false
    → Accounts s.period_seconds first q.now_monotonic
        (suc later)
        (skip (q.now_monotonic - t) s).skipped_epoch_count
unfolding skip
due_account q s t first later h a due =
    let gone = q.now_monotonic - t in
    let enough : s.period_seconds ≤ gone = ground (arith, due) in
    let later_than : t + gone ≡ q.now_monotonic = omega (arith, h, enough) in
    let (lo, hi) = skip_time gone s.period_seconds h enough in
    Accounts-step s.period_seconds first t q.now_monotonic later s.skipped_epoch_count
      (max 1 (gone / s.period_seconds) - 1) a (omega (arith, lo, later_than))
      (omega (arith, hi, later_than))

poll_all-Balanced :
    (qs : List Poll) (s : EpochScheduler) (first later : ℕ)
    → 0 < s.period_seconds
    → Balanced first later s
    → Balanced first (later + length (poll_all qs s).0) (poll_all qs s).1
unfolding poll_all issue skip
poll_all-Balanced [] s first later h (t, (e, a)) =
    (t, (e, (omega (arith, a.0), omega (arith, a.1))))
poll_all-Balanced (q ∷ qs) s first later h (t, (e, a)) =
    elim (Bool-cases (ltb (q.now_monotonic - t) s.period_seconds)) [
      | inl early ↦
          rw (next_epoch-early q s t e early) (poll_all-Balanced qs s first later h (t, (e, a)))
      | inr due ↦
          let s' = (issue q (skip (q.now_monotonic - t) s)).1 in
          let es = (poll_all qs s').0 in
          rw (next_epoch-due q s t e due) (
            subst (λ n. Balanced first n (poll_all qs s').1) (plus_suc later (length es))
              (poll_all-Balanced qs s' first (suc later) h
                (q.now_monotonic, (refl, due_account q s t first later h a due))))
    ]

-- What a run of calls gives: no epoch, or a first one and the account of the others.
abbrev pub IsAccounted : List AcquisitionEpoch × EpochScheduler → Type 0
IsAccounted ([], s) = s.skipped_epoch_count ≡ 0
IsAccounted (e ∷ es, s) = Balanced e.scheduled_monotonic (length es) s

no_account : (period t k : ℕ) → k ≡ 0 → Accounts period t t 0 k
no_account period t k e = subst (λ n. Accounts period t t 0 n) (sym e) (omega arith, omega arith)

first-IsAccounted :
    (qs : List Poll) (s : EpochScheduler)
    → 0 < s.period_seconds
    → s.last_scheduled_monotonic ≡ none
    → s.skipped_epoch_count ≡ 0
    → IsAccounted (poll_all qs s)
unfolding poll_all issue
first-IsAccounted [] s h e k = k
first-IsAccounted (q ∷ qs) s h e k =
    let (es, s') = poll_all qs (issue q s).1 in
    rw (next_epoch-first q s e) (
      subst (λ n. Balanced q.now_monotonic n s') (zero_plus (length es))
        (poll_all-Balanced qs (issue q s).1 q.now_monotonic 0 h
          (q.now_monotonic, (refl, no_account s.period_seconds q.now_monotonic _ k))))

none_not_some : {s : EpochScheduler} → none ≡ some s → ⊥
none_not_some e = cc

make_scheduler-cases :
    (x : Float) (s : EpochScheduler)
    → make_scheduler x ≡ some s
    → (0 < s.period_seconds)
      × ((s.last_scheduled_monotonic ≡ none)
          × ((s.skipped_epoch_count ≡ 0) × (s.last_epoch_id ≡ 0)))
unfolding make_scheduler
make_scheduler-cases Float.nan s e = absurd (none_not_some e)
make_scheduler-cases Float.neg_inf s e = absurd (none_not_some e)
make_scheduler-cases Float.pos_inf s e = absurd (none_not_some e)
make_scheduler-cases (fin (negsuc n)) s e = absurd (none_not_some e)
make_scheduler-cases (fin (pos zero)) s e = absurd (none_not_some e)
make_scheduler-cases (fin (pos (suc n))) s e = ground arith

-- A scheduler that can be made, over any calls and whatever the clock reads: the epochs are numbered
-- 1, 2, ... and each is at least a period after the one before; and the time from the first epoch
-- to the last is at least a period for each later epoch and each skipped one, and at most a further
-- period for each later epoch.
pub poll_all_lem :
    (x : Float) (s : EpochScheduler) (qs : List Poll)
    → make_scheduler x ≡ some s
    → IsPaced s.period_seconds none 0 (poll_all qs s).0 × IsAccounted (poll_all qs s)
poll_all_lem x s qs e =
    let (h, (l, (k, i))) = make_scheduler-cases x s e in
    (
      subst (λ n. IsPaced s.period_seconds none n (poll_all qs s).0) i
          (poll_all-IsPaced qs s none h l),
      first-IsAccounted qs s h l k,
    )
