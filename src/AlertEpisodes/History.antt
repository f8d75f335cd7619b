-- ===== src/AlertEpisodes/History.antt =====
-- The bounded history of an episode in app/alert_episodes.py.
use miner_alerts.Base.{
  ℕ, zero, suc, ◌+◌, ◌≤◌, ◌<◌, max, ◌⊎◌, ◌≡◌, refl, ◌∙◌, true, Option, none, some, List, [], ◌∷◌,
  length, last, ltb, arith, Bool-cases, inl, inr,
}
use miner_alerts.AlertEpisodes.Episode.{
  EpisodeStep, IrregularEpisode, eqb_label, put_step, pop_second, trim, add_step,
}

-- The step that the history begins with.
abbrev pub first : List EpisodeStep → Option EpisodeStep
first [] = none
first (x ∷ xs) = some x

length-pop_second : (h : List EpisodeStep) → 2 ≤ length h → length (pop_second h) + 1 ≡ length h
length-pop_second [] big = omega arith
length-pop_second (x ∷ []) big = omega arith
length-pop_second (x ∷ (y ∷ xs)) big = omega arith

first-pop_second : (h : List EpisodeStep) → first (pop_second h) ≡ first h
first-pop_second [] = refl
first-pop_second (x ∷ []) = refl
first-pop_second (x ∷ (y ∷ xs)) = refl

last-pop_second : (h : List EpisodeStep) → 3 ≤ length h → last (pop_second h) ≡ last h
last-pop_second [] big = refl
last-pop_second (x ∷ []) big = refl
last-pop_second (x ∷ (y ∷ [])) big = absurd (omega arith)
last-pop_second (x ∷ (y ∷ (z ∷ xs))) big = refl

length-trim :
    (fuel cap : ℕ) (h : List EpisodeStep)
    → 2 ≤ cap
    → length h ≤ fuel + cap
    → length (trim fuel cap h) ≤ cap
unfolding trim
length-trim zero cap h two enough = omega arith
length-trim (suc fuel) cap h two enough = elim (Bool-cases (ltb cap (length h))) [
  | inl long ↦
      rw long (length-trim fuel cap (pop_second h) two (ground (arith, length-pop_second h)))
  | inr short ↦ rw short (ground arith)
]

first-trim : (fuel cap : ℕ) (h : List EpisodeStep) → first (trim fuel cap h) ≡ first h
unfolding trim
first-trim zero cap h = refl
first-trim (suc fuel) cap h = elim (Bool-cases (ltb cap (length h))) [
  | inl long ↦ rw long (first-trim fuel cap (pop_second h) ∙ first-pop_second h)
  | inr short ↦ rw short refl
]

last-trim : (fuel cap : ℕ) (h : List EpisodeStep) → 2 ≤ cap → last (trim fuel cap h) ≡ last h
unfolding trim
last-trim zero cap h two = refl
last-trim (suc fuel) cap h two = elim (Bool-cases (ltb cap (length h))) [
  | inl long ↦ rw long (last-trim fuel cap (pop_second h) two ∙ last-pop_second h (ground arith))
  | inr short ↦ rw short refl
]

last-cons :
    (x : EpisodeStep) (h : List EpisodeStep) (s : EpisodeStep)
    → last h ≡ some s
    → last (x ∷ h) ≡ some s
last-cons x [] s e = cc
last-cons x (y ∷ ys) s e = e

last-put_step : (step : EpisodeStep) (h : List EpisodeStep) → last (put_step step h) ≡ some step
unfolding put_step
last-put_step step [] = refl
last-put_step step (x ∷ []) = ground arith
last-put_step step (x ∷ (y ∷ xs)) =
    last-cons x (put_step step (y ∷ xs)) step (last-put_step step (y ∷ xs))

-- The history begins as it did, or with the new step in place of the only one, which was like it.
abbrev pub SameStart : EpisodeStep → List EpisodeStep → List EpisodeStep → Type 0
SameStart step [] h = first h ≡ some step
SameStart step (x ∷ []) h =
    (first h ≡ some x)
    ⊎ ((first h ≡ some step) × (x.kind ≡ step.kind) × (eqb_label x.label step.label ≡ true))
SameStart step (x ∷ (y ∷ xs)) h = first h ≡ some x

put_step-SameStart :
    (step : EpisodeStep) (h : List EpisodeStep) → SameStart step h (put_step step h)
unfolding put_step
put_step-SameStart step [] = refl
put_step-SameStart step (x ∷ []) = ground arith
put_step-SameStart step (x ∷ (y ∷ xs)) = refl

SameStart-eq :
    (step : EpisodeStep) (h a b : List EpisodeStep)
    → first b ≡ first a
    → SameStart step h a
    → SameStart step h b
SameStart-eq step [] a b e s = e ∙ s
SameStart-eq step (x ∷ []) a b e s = ground arith
SameStart-eq step (x ∷ (y ∷ xs)) a b e s = e ∙ s

length-put_step :
    (step : EpisodeStep) (h : List EpisodeStep)
    → (length h ≤ length (put_step step h))
      × (0 < length (put_step step h))
      × (length (put_step step h) ≤ length h + 1)
unfolding put_step
length-put_step step [] = omega arith
length-put_step step (x ∷ []) = (ground arith, ground arith, ground arith)
length-put_step step (x ∷ (y ∷ xs)) = omega (arith, length-put_step step (y ∷ xs))

-- The cap of the history of an episode.
abbrev pub cap : IrregularEpisode → ℕ
cap e = max 2 e.max_history_steps

-- After a step is added the history ends with it, is not longer than the cap, and begins as it did
-- before: with its first step, with the new step if it was empty, or with the new step in place of
-- a single step of the same kind and label.
pub add_step_lem :
    (step : EpisodeStep) (e : IrregularEpisode)
    → let h = (add_step step e).history in
      (last h ≡ some step) × (length h ≤ cap e) × SameStart step e.history h
unfolding add_step
add_step_lem step e =
    let h = put_step step e.history in
    (
      last-trim (length h) (cap e) h (omega arith) ∙ last-put_step step e.history,
      length-trim (length h) (cap e) h (omega arith) (omega arith),
      SameStart-eq step e.history h (trim (length h) (cap e) h) (first-trim (length h) (cap e) h)
          (put_step-SameStart step e.history),
    )
