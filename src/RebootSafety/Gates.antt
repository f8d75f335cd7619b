-- ===== src/RebootSafety/Gates.antt =====
-- When the interlocks of app/reboot_safety.py let a reboot pass, and what a stale fleet snapshot
-- can do.
use miner_alerts.Base.{
  ℕ, List, Bool, ◌≤◌, ◌<◌, length-map, ◌≡◌, ◌≢◌, ◌⊎◌, true, false, none, some, [], ◌∷◌, String, map,
  keep, length, length-keep, arith,
}
use miner_alerts.Base.Int.{ℤ, ◌≤ℤ◌}
use miner_alerts.Base.Value.{finite_number, nonnegative_integer}
use miner_alerts.Base.Dict.{insert}
use miner_alerts.Base.Sort.{sort, le_string, length-sort}
use miner_alerts.RebootSafety.{
  Signal, fleet_incident, Evidence, is_affected, safe_thermal_limit, snapshot_fresh, latest_signals,
  affected, thermal_block, transition_block, fleet_block, evaluate_auto_reboot_interlocks,
}

-- What an allowed reboot guarantees about the evidence.
pub record IsClear (e : Evidence) : Type 0 where
  pub cool :
      e.thermal_guard_enabled ≡ true
      → (t : ℤ) → finite_number e.max_temp_c ≡ some t
      → ¬ (safe_thermal_limit e ≤ℤ t)
  pub settled :
      e.firmware_transition_guard_enabled ≡ true
      → (n : ℕ) → nonnegative_integer e.chains_transitioning_count ≡ some n
      → n ≡ 0
  pub isolated :
      e.fleet_guard_enabled ≡ true
      → (length (affected e) < 2) ⊎ (length (affected e) < e.fleet_min_affected)

thermal_block-clear :
    (e : Evidence)
    → thermal_block e ≡ false
    → e.thermal_guard_enabled ≡ true
    → (t : ℤ) → finite_number e.max_temp_c ≡ some t
    → ¬ (safe_thermal_limit e ≤ℤ t)
unfolding thermal_block
thermal_block-clear e h on t m le = ground arith

transition_block-clear :
    (e : Evidence)
    → transition_block e ≡ false
    → e.firmware_transition_guard_enabled ≡ true
    → (n : ℕ) → nonnegative_integer e.chains_transitioning_count ≡ some n
    → n ≡ 0
unfolding transition_block
transition_block-clear e h on n m = ground arith

fleet_block-clear :
    (e : Evidence)
    → fleet_block e ≡ false
    → e.fleet_guard_enabled ≡ true
    → (length (affected e) < 2) ⊎ (length (affected e) < e.fleet_min_affected)
unfolding fleet_block
fleet_block-clear e h on = ground arith

blocks_of_allowed :
    (e : Evidence)
    → (evaluate_auto_reboot_interlocks e).allowed ≡ true
    → (thermal_block e ≡ false) × (transition_block e ≡ false) × (fleet_block e ≡ false)
unfolding evaluate_auto_reboot_interlocks
blocks_of_allowed e h = ground arith

-- An allowed reboot is one for which every enabled guard has nothing against it: no finite
-- temperature at or over the limit, no chain in transition, and fewer affected miners than the
-- larger of 2 and the configured minimum.
pub allowed-IsClear :
    (e : Evidence) → (evaluate_auto_reboot_interlocks e).allowed ≡ true → IsClear e
allowed-IsClear e h =
    let (a, b, c) = blocks_of_allowed e h in
    record {
      cool = thermal_block-clear e a;
      settled = transition_block-clear e b;
      isolated = fleet_block-clear e c;
    }

-- The decision is allowed exactly when it carries no reason.
pub allowed_iff_no_reason :
    (e : Evidence)
    → ((evaluate_auto_reboot_interlocks e).allowed ≡ true
        → (evaluate_auto_reboot_interlocks e).reason ≡ none)
      × ((evaluate_auto_reboot_interlocks e).reason ≡ none
          → (evaluate_auto_reboot_interlocks e).allowed ≡ true)
unfolding evaluate_auto_reboot_interlocks
allowed_iff_no_reason e = (λ h. ground arith, λ h. ground arith)

length-sorted_keys :
    (p : String × Signal → Bool) (d : List (String × Signal))
    → length (sort le_string (map (λ item. item.0) (keep p d))) ≤ length d
length-sorted_keys p d = omega (
  arith,
  length-sort le_string (map (λ item. item.0) (keep p d)),
  length-map (λ (item : String × Signal). item.0) (keep p d),
  length-keep p d,
)

affected_alone : (e : Evidence) → snapshot_fresh e ≡ false → length (affected e) ≤ 1
unfolding affected latest_signals insert
affected_alone e h =
    rw h (
      length-sorted_keys (λ item. is_affected item.1)
        ((e.current_miner_key, e.current_signal) ∷ []))

-- A fleet snapshot that is stale, undated or of unknown age never blocks a reboot.
pub stale_snapshot_never_blocks :
    (e : Evidence)
    → snapshot_fresh e ≡ false
    → (evaluate_auto_reboot_interlocks e).reason ≢ some fleet_incident
unfolding evaluate_auto_reboot_interlocks fleet_block
stale_snapshot_never_blocks e h k = ground (arith, affected_alone e h)
