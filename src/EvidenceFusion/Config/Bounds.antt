-- ===== src/EvidenceFusion/Config/Bounds.antt =====
-- The bounds on the configuration of app/evidence_fusion.py, and when it is read at all.
use miner_alerts.Base.{
  ℕ, ◌≤◌, ◌≡◌, ◌↔◌, refl, Bool, true, false, Option, none, some, List, is_some, if◌then◌else◌,
  arith,
}
use miner_alerts.Base.Int.{ℤ, pos, negsuc}
use miner_alerts.Base.Float.{Float, nan, neg_inf, pos_inf, fin}
use miner_alerts.Base.Value.{exceeds_float}
use miner_alerts.Base.Json.{
  Json, null, boolean, integer, real, text, list, dict, Conversions, to_float, to_int,
}
use miner_alerts.EvidenceFusion.Config.{
  Converted, number, invalid, overflow, or_invalid, or_given, Mapping, FusionConfig, Warning,
  in_range, float_of, int_of, bounded, given, read_bounded, or_default, or_false, bool_of,
  int_default, build, from_mapping,
}

in_range-bounds :
    (low high : ℕ) (x : Float) (n : ℕ) → in_range low high x ≡ some n → (low ≤ n) × (n ≤ high)
unfolding in_range
in_range-bounds low high nan n e = cc
in_range-bounds low high neg_inf n e = cc
in_range-bounds low high pos_inf n e = cc
in_range-bounds low high (fin (negsuc k)) n e = cc
in_range-bounds low high (fin (pos k)) n e = ground arith

-- A number that is read, or the default, is in the range.
abbrev InRange : ℕ → ℕ → ℕ → Option (Option ℕ) → Type 0
InRange low high default none = Unit
InRange low high default (some o) = (low ≤ or_default default o) × (or_default default o ≤ high)

bounded-InRange :
    (low high default : ℕ) (o : Converted Float)
    → (low ≤ default) × (default ≤ high)
    → InRange low high default (bounded low high o)
bounded-InRange low high default invalid h = h
bounded-InRange low high default overflow h = tt
bounded-InRange low high default (number x) h =
    of (in_range low high x) (λ n e. in_range-bounds low high x n e)
  where
    of :
        (o : Option ℕ)
        → ((n : ℕ) → o ≡ some n → (low ≤ n) × (n ≤ high))
        → (low ≤ or_default default o) × (or_default default o ≤ high)
    of none k = h
    of (some n) k = k n refl

read_bounded-InRange :
    (c : Conversions) (low high default : ℕ) (v : Option Json)
    → (low ≤ default) × (default ≤ high)
    → InRange low high default (read_bounded c low high default v)
unfolding read_bounded
read_bounded-InRange c low high default v h =
    bounded-InRange low high default (float_of c (given default v)) h

-- `int` does not meet an infinity, and `float` no integer that is too large for it.
abbrev pub AvoidsInfinity : Option Json → Type 0
AvoidsInfinity (some (real neg_inf)) = ⊥
AvoidsInfinity (some (real pos_inf)) = ⊥
AvoidsInfinity _ = Unit

abbrev pub AvoidsHuge : Option Json → Type 0
AvoidsHuge (some (integer z)) = exceeds_float z ≡ false
AvoidsHuge _ = Unit

-- A configuration that the code may use.
pub record IsBounded (m : Mapping) (c : FusionConfig) : Type 0 where
  pub hours : (1 ≤ c.context_hours) × (c.context_hours ≤ 168)
  pub window : (30 ≤ c.fleet_window_seconds) × (c.fleet_window_seconds ≤ 300)
  pub opted_in : c.enabled ≡ true → m.incident_fusion_enabled ≡ some (boolean true)

-- What was read, if anything, is a configuration that the code may use.
abbrev pub ReadBounded : Mapping → Option (FusionConfig × List Warning) → Type 0
ReadBounded m none = Unit
ReadBounded m (some (c, ws)) = IsBounded m c

opted_in_bool : (o : Option Json) → or_false (bool_of o) ≡ true → o ≡ some (boolean true)
opted_in_bool o h = ground arith

build-ReadBounded :
    (m : Mapping) (x y : Option (Option ℕ)) (a b d e : Option ℤ)
    → InRange 1 168 24 x
    → InRange 30 300 60 y
    → ReadBounded m (build (bool_of m.incident_fusion_enabled) x y a b d e)
build-ReadBounded m none y a b d e h k = tt
build-ReadBounded m (some x) none a b d e h k = tt
build-ReadBounded m (some x) (some y) none b d e h k = tt
build-ReadBounded m (some x) (some y) (some a) none d e h k = tt
build-ReadBounded m (some x) (some y) (some a) (some b) none e h k = tt
build-ReadBounded m (some x) (some y) (some a) (some b) (some d) none h k = tt
build-ReadBounded m (some x) (some y) (some a) (some b) (some d) (some e) h k = record {
  hours = h;
  window = k;
  opted_in = opted_in_bool m.incident_fusion_enabled;
}

-- Whatever the mapping holds, a configuration that is read has from 1 to 168 hours of context and a
-- fleet window of 30 to 300 seconds, and enables the fusion only if the mapping says so with a bool.
pub from_mapping-ReadBounded : (c : Conversions) (m : Mapping) → ReadBounded m (from_mapping c m)
unfolding from_mapping
from_mapping-ReadBounded c m =
    build-ReadBounded m _ _ _ _ _ _
      (read_bounded-InRange c 1 168 24 m.incident_fusion_context_hours (omega arith, omega arith))
      (read_bounded-InRange c 30 300 60 m.incident_fusion_fleet_window_seconds
        (omega arith, omega arith))

given_number : (default : ℕ) (o : Option ℤ) → is_some (or_given default (or_invalid o)) ≡ true
given_number default none = refl
given_number default (some z) = refl

bounded_number :
    (low high : ℕ) (o : Option Float) → is_some (bounded low high (or_invalid o)) ≡ true
bounded_number low high none = refl
bounded_number low high (some x) = refl

int_default_iff :
    (c : Conversions) (default : ℕ) (o : Option Json)
    → (is_some (int_default c default o) ≡ true) ↔ AvoidsInfinity o
unfolding int_default int_of to_int
int_default_iff c default none = (λ h. tt, λ h. refl)
int_default_iff c default (some (real neg_inf)) = (λ h. cc, λ h. absurd h)
int_default_iff c default (some (real pos_inf)) = (λ h. cc, λ h. absurd h)
int_default_iff c default (some (real nan)) =
    (λ h. tt, λ h. given_number default (to_int c (real nan)))
int_default_iff c default (some (real (fin z))) =
    (λ h. tt, λ h. given_number default (to_int c (real (fin z))))
int_default_iff c default (some null) = (λ h. tt, λ h. refl)
int_default_iff c default (some (boolean b)) =
    (λ h. tt, λ h. given_number default (to_int c (boolean b)))
int_default_iff c default (some (integer z)) = (λ h. tt, λ h. refl)
int_default_iff c default (some (text t)) = (λ h. tt, λ h. given_number default (to_int c (text t)))
int_default_iff c default (some (list js)) = (λ h. tt, λ h. refl)
int_default_iff c default (some (dict d)) = (λ h. tt, λ h. refl)

huge_iff :
    (low high : ℕ) (b : Bool) (o : Option Float)
    → (is_some (bounded low high (if b then overflow else or_invalid o)) ≡ true) ↔ (b ≡ false)
huge_iff low high true o = (λ h. cc, λ h. cc)
huge_iff low high false o = (λ h. refl, λ h. bounded_number low high o)

read_bounded_iff :
    (c : Conversions) (low high default : ℕ) (o : Option Json)
    → exceeds_float (pos default) ≡ false
    → (is_some (read_bounded c low high default o) ≡ true) ↔ AvoidsHuge o
unfolding read_bounded float_of to_float
read_bounded_iff c low high default none h = (
  λ k. tt,
  λ k. (huge_iff low high (exceeds_float (pos default)) (to_float c (integer (pos default)))).1 h,
)
read_bounded_iff c low high default (some (integer z)) h =
    huge_iff low high (exceeds_float z) (to_float c (integer z))
read_bounded_iff c low high default (some (real x)) h = (λ k. tt, λ k. refl)
read_bounded_iff c low high default (some null) h = (λ k. tt, λ k. refl)
read_bounded_iff c low high default (some (boolean b)) h =
    (λ k. tt, λ k. bounded_number low high (to_float c (boolean b)))
read_bounded_iff c low high default (some (text t)) h =
    (λ k. tt, λ k. bounded_number low high (c.float_text t))
read_bounded_iff c low high default (some (list js)) h = (λ k. tt, λ k. refl)
read_bounded_iff c low high default (some (dict d)) h = (λ k. tt, λ k. refl)

build_iff :
    (enabled : Option Bool) (x y : Option (Option ℕ)) (a b d e : Option ℤ)
    → (is_some (build enabled x y a b d e) ≡ true) ↔ (
        (is_some x ≡ true)
        × (is_some y ≡ true)
        × (is_some a ≡ true)
        × (is_some b ≡ true)
        × (is_some d ≡ true)
        × (is_some e ≡ true))
build_iff enabled x y a b d e = (λ h. ground arith, λ h. ground arith)

small : (exceeds_float (pos 24) ≡ false) × (exceeds_float (pos 60) ≡ false)
unfolding exceeds_float
small = (refl, refl)

-- The configuration is read, without an exception, exactly when the hours and the fleet window are no
-- integer that is too large for a float, and none of the four diagnosis and restart entries is an
-- infinity.
pub from_mapping_iff :
    (c : Conversions) (m : Mapping)
    → (is_some (from_mapping c m) ≡ true) ↔ (
        AvoidsHuge m.incident_fusion_context_hours
        × AvoidsHuge m.incident_fusion_fleet_window_seconds
        × AvoidsInfinity m.diagnosis_stale_seconds
        × AvoidsInfinity m.diagnosis_firmware_window_hours
        × AvoidsInfinity m.diagnosis_collector_stale_seconds
        × AvoidsInfinity m.restart_attribution_window_seconds)
unfolding from_mapping
from_mapping_iff c m =
    let parts = build_iff (bool_of m.incident_fusion_enabled) _ _ _ _ _ _ in
    let x = read_bounded_iff c 1 168 24 m.incident_fusion_context_hours small.0 in
    let y = read_bounded_iff c 30 300 60 m.incident_fusion_fleet_window_seconds small.1 in
    let a = int_default_iff c 900 m.diagnosis_stale_seconds in
    let b = int_default_iff c 24 m.diagnosis_firmware_window_hours in
    let d = int_default_iff c 3600 m.diagnosis_collector_stale_seconds in
    let e = int_default_iff c 900 m.restart_attribution_window_seconds in
    (
      λ h. let (o, p, q, r, s, t) = parts.0 h in (x.0 o, y.0 p, a.0 q, b.0 r, d.0 s, e.0 t),
      λ h. parts.1 (x.1 h.0, y.1 h.1, a.1 h.2, b.1 h.3, d.1 h.4, e.1 h.5),
    )
