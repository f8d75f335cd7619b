-- ===== src/Acquisition/Config/Bounds.antt =====
-- The bounds that the settings of app/acquisition.py are held to.
use miner_alerts.Base.{
  ℕ, ◌*◌, ◌≤◌, ◌≡◌, refl, Bool, true, false, ◌↔◌, is_some, inl, inr, Bool-cases, if◌then◌else◌,
  List, Option, none, some, String, arith,
}
use miner_alerts.Base.Int.{pos, negsuc}
use miner_alerts.Base.Float.{Float, fin}
use miner_alerts.Base.Value.{Value, null, boolean, integer, real, other, unit, exceeds_float}
use miner_alerts.Base.Dict.{Dict, lookup}
use miner_alerts.Acquisition.Config.{
  AcquisitionConfig, Setting, overflows, capped, ◌>>=◌, setting, accepted, within, read_int,
  read_float, int_config, float_config, from_mapping, validate_acquisition_config_dict,
}

-- From `low` to `high`.
abbrev pub In : ℕ → ℕ → ℕ → Type 0
In low high n = (low ≤ n) × (n ≤ high)

accepted-In :
    (low high default : ℕ) (key : String) (o : Option ℕ)
    → In low high default
    → ((n : ℕ) → o ≡ some n → In low high n)
    → In low high (accepted key default o).0
accepted-In low high default key none h k = h
accepted-In low high default key (some n) h k = k n refl

setting-In :
    (read : Value → Option ℕ) (low high default : ℕ) (key : String) (v : Option Value)
    → In low high default
    → ((v : Value) (n : ℕ) → read v ≡ some n → In low high n)
    → In low high (setting read key default v).0
setting-In read low high default key none h k = h
setting-In read low high default key (some v) h k =
    accepted-In low high default key (read v) h (k v)

within-In : (low high : ℕ) (x : Option Float) (n : ℕ) → within low high x ≡ some n → In low high n
within-In low high none n e = cc
within-In low high (some Float.nan) n e = cc
within-In low high (some Float.neg_inf) n e = cc
within-In low high (some Float.pos_inf) n e = cc
within-In low high (some (fin (negsuc k))) n e = cc
within-In low high (some (fin (pos k))) n e = ground arith

read_int-In : (low high : ℕ) (v : Value) (n : ℕ) → read_int low high v ≡ some n → In low high n
unfolding read_int
read_int-In low high null n e = cc
read_int-In low high (boolean b) n e = cc
read_int-In low high (integer (pos k)) n e = ground arith
read_int-In low high (integer (negsuc k)) n e = cc
read_int-In low high (real x) n e = cc
read_int-In low high (other o) n e = cc

read_float-In : (low high : ℕ) (v : Value) (n : ℕ) → read_float low high v ≡ some n → In low high n
unfolding read_float
read_float-In low high v n e = within-In low high _ n e

int_config-In :
    (config : Dict Value) (key : String) (default low high : ℕ)
    → In low high default
    → In low high (int_config config key default low high).0
unfolding int_config
int_config-In config key default low high h =
    setting-In (read_int low high) low high default key (lookup key config) h (read_int-In low high)

-- What an option holds, if anything, has a property.
abbrev pub Given {ℓ κ} : {A : Type ℓ} → (A → Type κ) → Option A → Type κ
Given P none = Unit
Given P (some a) = P a

bind-Given {ℓ κ μ} :
    {A : Type ℓ} {B : Type κ} (Q : A → Type μ) (P : B → Type μ) (o : Option A) (f : A → Option B)
    → Given Q o
    → ((a : A) → Q a → Given P (f a))
    → Given P (o >>= f)
bind-Given Q P none f h k = tt
bind-Given Q P (some a) f h k = k a h

bind_iff {ℓ κ μ ν} :
    {A : Type ℓ} {B : Type κ} (R : Type μ) (Q : Type ν) (o : Option A) (f : A → Option B)
    → (is_some o ≡ true) ↔ R
    → ((a : A) → (is_some (f a) ≡ true) ↔ Q)
    → (is_some (o >>= f) ≡ true) ↔ (R × Q)
bind_iff R Q none f r h = (λ e. cc, λ e. r.1 e.0)
bind_iff R Q (some a) f r h = (λ e. (r.0 refl, (h a).0 e), λ e. (h a).1 e.1)

ends_iff {ℓ κ μ} :
    {A : Type ℓ} {B : Type κ} (R : Type μ) (o : Option A) (g : A → B)
    → (is_some o ≡ true) ↔ R
    → (is_some (o >>= λ a. some (g a)) ≡ true) ↔ R
ends_iff R none g r = r
ends_iff R (some a) g r = r

float_config-In :
    (config : Dict Value) (key : String) (default low high : ℕ)
    → In low high default
    → Given (λ s. In low high s.0) (float_config config key default low high)
unfolding float_config
float_config-In config key default low high h = elim (Bool-cases (overflows (lookup key config))) [
  | inl huge ↦ rw huge tt
  | inr small ↦ rw small (
      setting-In (read_float low high) low high default key (lookup key config) h
        (read_float-In low high))
]

-- `float` can read the entry, if there is one.
abbrev pub IsReadable : Option Value → Type 0
IsReadable (some (integer z)) = exceeds_float z ≡ false
IsReadable _ = Unit

overflows_iff : (v : Option Value) → (overflows v ≡ false) ↔ IsReadable v
unfolding overflows
overflows_iff none = (λ h. tt, λ h. refl)
overflows_iff (some null) = (λ h. tt, λ h. refl)
overflows_iff (some (boolean b)) = (λ h. tt, λ h. refl)
overflows_iff (some (integer z)) = (λ h. h, λ h. h)
overflows_iff (some (real x)) = (λ h. tt, λ h. refl)
overflows_iff (some (other o)) = (λ h. tt, λ h. refl)

float_config_iff :
    (config : Dict Value) (key : String) (default low high : ℕ)
    → (is_some (float_config config key default low high) ≡ true) ↔ IsReadable (lookup key config)
unfolding float_config
float_config_iff config key default low high =
    let o = overflows_iff (lookup key config) in (λ h. o.0 (small _ _ h), λ h. rw (o.1 h) refl)
  where
    small : (b : Bool) (a : Option (Setting ℕ)) → is_some (if b then none else a) ≡ true → b ≡ false
    small b a h = ground arith

-- What the acquirer may be started with, under caps on the workers, the timeout and the deadline.
pub record IsUsable (workers timeout deadline : ℕ) (c : AcquisitionConfig) : Type 0 where
  pub some_workers : In 1 workers c.workers
  pub timed : In unit timeout c.timeout_seconds
  pub interval : In (5 * unit) (60 * unit) c.diagnostic_interval_seconds
  pub opted_in : c.diagnostics_enabled ≡ true → c.enabled ≡ true
  pub deadline_after : c.timeout_seconds ≤ c.deadline_seconds
  pub deadline_cap : c.deadline_seconds ≤ deadline

capped-IsUsable :
    (c : AcquisitionConfig)
    → IsUsable 4 (10 * unit) (30 * unit) c
    → IsUsable 2 (5 * unit) (12 * unit) (capped c)
unfolding capped
capped-IsUsable c h =
    let workers = h.some_workers in
    let timed = h.timed in
    let after = h.deadline_after in
    record {
      some_workers = ground arith;
      timed = ground arith;
      interval = h.interval;
      opted_in = h.opted_in;
      deadline_after = ground arith;
      deadline_cap = ground arith;
    }

from_mapping-Given :
    (config : Dict Value)
    → Given (λ read. IsUsable 4 (10 * unit) (30 * unit) read.0) (from_mapping config)
unfolding from_mapping
from_mapping-Given config =
    let workers =
      int_config-In config "adaptive_acquisition_workers" 2 1 4 (omega arith, omega arith) in
    let P : AcquisitionConfig × List String → Type 0 =
      λ read. IsUsable 4 (10 * unit) (30 * unit) read.0 in
    bind-Given (λ s. In unit (10 * unit) s.0) P _ _
      (float_config-In config "adaptive_acquisition_timeout_seconds" (5 * unit) unit (10 * unit)
        (omega arith, omega arith))
      (λ t timed.
        bind-Given (λ s. In t.0 (30 * unit) s.0) P _ _
          (float_config-In config "adaptive_acquisition_deadline_seconds" (12 * unit) t.0
            (30 * unit) (omega (arith, timed), omega arith))
          (λ d deadline.
            bind-Given (λ s. In (5 * unit) (60 * unit) s.0) P _ _
              (float_config-In config "adaptive_diagnostic_interval_seconds" (10 * unit) (5 * unit)
                (60 * unit) (omega arith, omega arith))
              (λ i interval. record {
                some_workers = workers;
                timed = timed;
                interval = interval;
                opted_in = λ h. ground arith;
                deadline_after = deadline.0;
                deadline_cap = deadline.1;
              })))

-- The three durations can be read.
abbrev pub AllReadable : Dict Value → Type 0
AllReadable config =
    IsReadable (lookup "adaptive_acquisition_timeout_seconds" config)
    × (IsReadable (lookup "adaptive_acquisition_deadline_seconds" config)
        × IsReadable (lookup "adaptive_diagnostic_interval_seconds" config))

from_mapping_readable :
    (config : Dict Value) → (is_some (from_mapping config) ≡ true) ↔ AllReadable config
unfolding from_mapping
from_mapping_readable config =
    bind_iff _ _ _ _
      (float_config_iff config "adaptive_acquisition_timeout_seconds" (5 * unit) unit (10 * unit))
      (λ t.
        bind_iff _ _ _ _
          (float_config_iff config "adaptive_acquisition_deadline_seconds" (12 * unit) t.0
            (30 * unit))
          (λ d. ends_iff _ _ _ (
            float_config_iff config "adaptive_diagnostic_interval_seconds" (10 * unit) (5 * unit)
              (60 * unit))))

-- A mapping is read, without an exception, exactly when none of the three durations is an integer that
-- is too large for a float, and so is its validated dictionary. A configuration that is read has from 1
-- to 4 workers, a timeout of 1 to 10 seconds, a deadline from the timeout to 30 seconds and an interval
-- of 5 to 60 seconds, and diagnostics only if acquisition is enabled; the validated dictionary has all
-- this with at most 2 workers, 5 seconds and 12 seconds.
pub from_mapping-IsUsable :
    (config : Dict Value)
    → ((is_some (from_mapping config) ≡ true) ↔ AllReadable config)
      × ((is_some (validate_acquisition_config_dict config) ≡ true) ↔ AllReadable config)
      × Given (λ read. IsUsable 4 (10 * unit) (30 * unit) read.0) (from_mapping config)
      × Given (IsUsable 2 (5 * unit) (12 * unit)) (validate_acquisition_config_dict config)
unfolding validate_acquisition_config_dict
from_mapping-IsUsable config = (
  from_mapping_readable config,
  ends_iff _ (from_mapping config) (λ read. capped read.0) (from_mapping_readable config),
  from_mapping-Given config,
  bind-Given (λ read. IsUsable 4 (10 * unit) (30 * unit) read.0) (IsUsable 2 (5 * unit) (12 * unit))
      (from_mapping config) (λ read. some (capped read.0)) (from_mapping-Given config)
      (λ read h. capped-IsUsable read.0 h),
)
