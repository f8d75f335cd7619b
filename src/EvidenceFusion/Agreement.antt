-- ===== src/EvidenceFusion/Agreement.antt =====
-- The attribution window of app/evidence_fusion.py against app/restart_intelligence.py.
use miner_alerts.Base.{ℕ, ◌+◌, ◌≤◌, ◌≡◌, ◌↔◌, Bool, false, ◌||◌, refl, Option, none, some, arith}
use miner_alerts.RestartIntelligence.{auto, unexpected, expected, classify_restart}
use miner_alerts.EvidenceFusion.Facts.{is_within_attribution_window}

-- The last action of a kind, if there is one, is not after the restart.
abbrev pub NotAfter : ℕ → Option ℕ → Type 0
NotAfter restart none = Unit
NotAfter restart (some action) = action ≤ restart

-- Whether the fusion finds the restart within the window of the last action of a kind.
abbrev pub is_attributed : ℕ → ℕ → Option ℕ → Bool
is_attributed restart window none = false
is_attributed restart window (some action) = is_within_attribution_window action restart window

module _ {ℓ} {R : Type ℓ} (reason : R) (restart window : ℕ) where
  -- For a last manual and a last automatic action, each if there is one and neither after the restart,
  -- the monitor classifies the restart as unexpected exactly when the fusion finds it within the
  -- window of neither.
  pub attribution_agrees :
      (skew : ℕ) (m a : Option ℕ)
      → NotAfter restart m
      → NotAfter restart a
      → ((classify_restart reason restart m a window skew).classification ≡ unexpected)
        ↔ ((is_attributed restart window m || is_attributed restart window a) ≡ false)
  unfolding is_within_attribution_window classify_restart
  attribution_agrees skew none none h k = (λ e. refl, λ e. refl)
  attribution_agrees skew none (some u) h k = (λ e. ground arith, λ e. ground arith)
  attribution_agrees skew (some t) none h k = (λ e. ground arith, λ e. ground arith)
  attribution_agrees skew (some t) (some u) h k = (λ e. ground arith, λ e. ground arith)

  -- An action that the clock puts after the restart is never within the fusion's window, although
  -- the monitor blames it up to the tolerance.
  pub attribution_differs :
      (skew action : ℕ)
      → restart + 1 ≤ action
      → action ≤ restart + skew
      → (is_within_attribution_window action restart window ≡ false)
        × ((classify_restart reason restart none (some action) window skew).classification
            ≡ expected auto)
  unfolding is_within_attribution_window classify_restart
  attribution_differs skew action h k = (ground arith, ground arith)
