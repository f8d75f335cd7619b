-- ===== src/RestartIntelligence/Attribution.antt =====
-- What the classification of app/restart_intelligence.py says of the action times.
use miner_alerts.Base.{
  ℕ, refl, ◌+◌, ◌≤◌, ◌≡◌, Option, ltb, max, ◌↔◌, if◌then◌else◌, none, some, arith,
}
use miner_alerts.RestartIntelligence.{manual, auto, unexpected, classify_restart}

-- An action time that can explain a restart: not ahead of the clock by more than the tolerance,
-- and no older than the window.
abbrev pub Explains : ℕ → ℕ → ℕ → ℕ → Type 0
Explains detected window skew ts = (ts ≤ detected + skew) × (detected ≤ ts + window)

abbrev pub Explained : ℕ → ℕ → ℕ → Option ℕ → Type 0
Explained detected window skew none = ⊥
Explained detected window skew (some ts) = Explains detected window skew ts

module _ {ℓ} {R : Type ℓ} (reason : R) (detected window skew : ℕ) where
  -- A restart is unexpected exactly when neither the last manual nor the last automatic action
  -- lies in the attribution window: not ahead of the clock by more than the tolerance, and no
  -- older than the window.
  pub unexpected_iff :
      (m a : Option ℕ)
      → ((classify_restart reason detected m a window skew).classification ≡ unexpected)
        ↔ (¬ Explained detected window skew m × ¬ Explained detected window skew a)
  unfolding classify_restart
  unexpected_iff none none = (λ h. (λ e. e, λ e. e), λ h. refl)
  unexpected_iff none (some u) = (λ h. ground arith, λ h. ground arith)
  unexpected_iff (some t) none = (λ h. ground arith, λ h. ground arith)
  unexpected_iff (some t) (some u) = (λ h. ground arith, λ h. ground arith)

  -- When both actions lie in the window the later one is named, and a tie goes to the manual one.
  pub expected_latest :
      (t u : ℕ)
      → Explains detected window skew t
      → Explains detected window skew u
      → let r = classify_restart reason detected (some t) (some u) window skew in
        (r.action_ts ≡ some (max t u)) × (r.action_source ≡ some (if ltb t u then auto else manual))
  unfolding classify_restart
  expected_latest t u h k = ground arith

  -- An age that is reported is within the window.
  pub age_in_window :
      (m a : Option ℕ) (age : ℕ)
      → (classify_restart reason detected m a window skew).action_age_seconds ≡ some age
      → age ≤ window
  unfolding classify_restart
  age_in_window none none age h = ground arith
  age_in_window none (some u) age h = ground arith
  age_in_window (some t) none age h = ground arith
  age_in_window (some t) (some u) age h = ground arith
