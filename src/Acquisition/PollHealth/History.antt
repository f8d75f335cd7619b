-- ===== src/Acquisition/PollHealth/History.antt =====
-- What `PollHealth` in app/acquisition.py knows of the epochs that were recorded.
use miner_alerts.Base.{
  ℕ, zero, suc, ◌+◌, ◌-◌, ◌≤◌, ◌≡◌, ◌↔◌, refl, subst, sym, ap, ◌∙◌, Bool, true, Option, none, some,
  List, [], ◌∷◌, ◌++◌, String, length, All, drop, map, keep, all, any, length-append, length-drop,
  inl, inr, same_text, same_text_iff, Bool-cases, ltb, if◌then◌else◌, arith,
}
use mathlib.Core.List.{append-nil, append_assoc}
use miner_alerts.Base.Float.{Float, is_finite, at_least_zero}
use miner_alerts.Base.Dict.{Dict, lookup, insert, lookup-insert}
use miner_alerts.Acquisition.Scheduler.{AcquisitionEpoch}
use miner_alerts.Acquisition.Sample.{MinerSampleEnvelope}
use miner_alerts.Acquisition.PollHealth.{
  PollHealth, fleet_transport_failure, make_poll_health, quality_value, or_zero, nonzero,
  count_qualities, all_transport_failed, is_transport_failure, append_bounded, add_latencies,
  record_epoch,
}

-- How many of the envelopes have the quality.
abbrev pub count_of : String → List MinerSampleEnvelope → ℕ
count_of t es = length (keep (λ e. same_text (quality_value e.quality) t) es)

count_qualities-lookup :
    (es : List MinerSampleEnvelope) (t : String) (d : Dict ℕ)
    → or_zero (lookup t (count_qualities es d)) ≡ or_zero (lookup t d) + count_of t es
unfolding count_qualities
count_qualities-lookup [] t d = omega arith
count_qualities-lookup (e ∷ es) t d =
    let key = quality_value e.quality in
    let n = suc (or_zero (lookup key d)) in
    ground (
      arith,
      count_qualities-lookup es t (insert key n d),
      lookup-insert key t n d,
      same_text_iff key t,
    )

nonzero-or_zero : (o : Option ℕ) → nonzero o ≡ ltb 0 (or_zero o)
nonzero-or_zero none = ground arith
nonzero-or_zero (some zero) = ground arith
nonzero-or_zero (some (suc n)) = ground arith

drop_zero : (xs : List Float) → drop 0 xs ≡ xs
drop_zero [] = refl
drop_zero (x ∷ xs) = refl

drop-append : (n : ℕ) (xs ys : List Float) → n ≤ length xs → drop n xs ++ ys ≡ drop n (xs ++ ys)
drop-append zero [] ys h = sym (drop_zero ys)
drop-append (suc n) [] ys h = ground arith
drop-append zero (x ∷ xs) ys h = refl
drop-append (suc n) (x ∷ xs) ys h = drop-append n xs ys (omega (arith, h))

drop-drop : (m n : ℕ) (xs : List Float) → drop m (drop n xs) ≡ drop (n + m) xs
drop-drop m n [] = refl
drop-drop m zero (x ∷ xs) = ap (λ k. drop k (x ∷ xs)) (omega arith)
drop-drop m (suc n) (x ∷ xs) = drop-drop m n xs ∙ ap (λ k. drop k (x ∷ xs)) (suc_plus n m)
  where
    suc_plus : (i j : ℕ) → suc (i + j) ≡ suc i + j
    suc_plus i j = omega arith

-- The last `size` of the list.
abbrev pub keep_last : ℕ → List Float → List Float
keep_last size xs = drop (length xs - size) xs

append_bounded-keep_last :
    (size : ℕ) (xs : List Float) (x : Float)
    → append_bounded size (keep_last size xs) x ≡ keep_last size (xs ++ x ∷ [])
unfolding append_bounded
append_bounded-keep_last size xs x =
    let n = length xs - size in
    let zs = xs ++ x ∷ [] in
    let same = drop-append n xs (x ∷ []) (omega arith) in
    rw same (
      drop-drop (length (drop n zs) - size) n zs
      ∙ ap (λ k. drop k zs) (omega (arith, length-drop n zs, length-append xs (x ∷ []))))

-- The latencies of an epoch that are finite, negative ones as 0.
abbrev pub recorded : List MinerSampleEnvelope → List Float
recorded es = map (λ e. at_least_zero e.latency_ms) (keep (λ e. is_finite e.latency_ms) es)

add_latencies-keep_last :
    (size : ℕ) (es : List MinerSampleEnvelope) (xs : List Float)
    → add_latencies size es (keep_last size xs) ≡ keep_last size (xs ++ recorded es)
unfolding add_latencies
add_latencies-keep_last size [] xs = ap (keep_last size) (sym (append-nil xs))
add_latencies-keep_last size (e ∷ es) xs = elim (Bool-cases (is_finite e.latency_ms)) [
  | inl f ↦ rw f (
      ap (add_latencies size es) (append_bounded-keep_last size xs (at_least_zero e.latency_ms))
      ∙ (add_latencies-keep_last size es (xs ++ at_least_zero e.latency_ms ∷ [])
          ∙ ap (keep_last size) (append_assoc xs (at_least_zero e.latency_ms ∷ []) (recorded es))))
  | inr f ↦ rw f (add_latencies-keep_last size es xs)
]

-- The epochs and their envelopes, the newest first.
abbrev pub History : Type 0
History = List (AcquisitionEpoch × List MinerSampleEnvelope)

abbrev pub after_epochs : PollHealth → History → PollHealth
after_epochs h [] = h
after_epochs h ((epoch, es) ∷ older) = record_epoch epoch es (after_epochs h older)

abbrev pub all_latencies : History → List Float
all_latencies [] = []
all_latencies ((epoch, es) ∷ older) = all_latencies older ++ recorded es

abbrev pub has_timeout : List MinerSampleEnvelope → Bool
has_timeout es = any (λ e. same_text (quality_value e.quality) "timeout") es

-- The newest epochs in a row that had a timeout.
abbrev pub timeouts_in_row : History → ℕ
timeouts_in_row [] = 0
timeouts_in_row ((epoch, es) ∷ older) =
    let rest = timeouts_in_row older in if has_timeout es then suc rest else 0

zero_plus : (n : ℕ) → 0 + n ≡ n
zero_plus n = omega arith

any-count_of :
    (t : String) (es : List MinerSampleEnvelope)
    → ltb 0 (count_of t es) ≡ any (λ e. same_text (quality_value e.quality) t) es
any-count_of t [] = refl
any-count_of t (e ∷ es) = ground (arith, any-count_of t es)

counts-timeout :
    (es : List MinerSampleEnvelope)
    → nonzero (lookup "timeout" (count_qualities es [])) ≡ has_timeout es
unfolding lookup
counts-timeout es =
    nonzero-or_zero (lookup "timeout" (count_qualities es []))
    ∙ (ap (ltb 0) (count_qualities-lookup es "timeout" [])
        ∙ (ap (ltb 0) (zero_plus (count_of "timeout" es)) ∙ any-count_of "timeout" es))

after_epochs-window :
    (h : PollHealth) (history : History)
    → (after_epochs h history).latency_window_size ≡ h.latency_window_size
unfolding record_epoch
after_epochs-window h [] = refl
after_epochs-window h ((epoch, es) ∷ older) = after_epochs-window h older

-- How many envelopes of the newest epoch have the quality.
abbrev pub newest_count : String → History → ℕ
newest_count t [] = 0
newest_count t ((epoch, es) ∷ older) = count_of t es

-- The newest epoch has envelopes, and all of them are transport failures.
abbrev pub IsFleetFailure : History → Type 0
IsFleetFailure [] = ⊥
IsFleetFailure ((epoch, []) ∷ older) = ⊥
IsFleetFailure ((epoch, e ∷ es) ∷ older) =
    All (λ d. is_transport_failure d.reason_code ≡ true) (e ∷ es)

all-All :
    (es : List MinerSampleEnvelope)
    → (all (λ e. is_transport_failure e.reason_code) es ≡ true)
      ↔ All (λ e. is_transport_failure e.reason_code ≡ true) es
all-All [] = (λ h. tt, λ h. refl)
all-All (e ∷ es) = (
  λ h. (ground (arith, h), (all-All es).0 (ground (arith, h))),
  λ h. ground (arith, h.0, (all-All es).1 h.1),
)

-- What the health shows of the epochs that were recorded.
pub record Shows (size : ℕ) (history : History) (h : PollHealth) : Type 0 where
  pub window : h.latencies ≡ keep_last size (all_latencies history)
  pub timeouts : h.consecutive_timeouts ≡ timeouts_in_row history
  pub counts :
      (t : String) → or_zero (lookup t h.last_epoch_quality_counts) ≡ newest_count t history
  pub fleet : (h.fleet_reason_code ≡ fleet_transport_failure) ↔ IsFleetFailure history

none_not_some : {h : PollHealth} → none ≡ some h → ⊥
none_not_some e = cc

some_injective : {h k : PollHealth} → some h ≡ some k → h ≡ k
some_injective e = cc

fresh-Shows :
    (size : ℕ) (h : PollHealth)
    → make_poll_health size ≡ some h
    → (h.latency_window_size ≡ size) × Shows size [] h
unfolding make_poll_health lookup
fresh-Shows zero h e = absurd (none_not_some e)
fresh-Shows (suc n) h e =
    subst (λ k. (k.latency_window_size ≡ suc n) × Shows (suc n) [] k) (some_injective e)
      (
        refl,
        record {
          window = refl;
          timeouts = refl;
          counts = λ t. refl;
          fleet = (λ f. cc, λ b. absurd b);
        },
      )

failed-fleet :
    (epoch : AcquisitionEpoch) (es : List MinerSampleEnvelope) (h : PollHealth) (older : History)
    → ((record_epoch epoch es h).fleet_reason_code ≡ fleet_transport_failure)
      ↔ IsFleetFailure ((epoch, es) ∷ older)
unfolding record_epoch all_transport_failed
failed-fleet epoch [] h older = (λ e. cc, λ b. absurd b)
failed-fleet epoch (e ∷ es) h older =
    let (to, from) = all-All (e ∷ es) in (λ f. to (ground arith), λ a. ground (arith, from a))

after_epochs-Shows :
    (size : ℕ) (h : PollHealth) (history : History)
    → h.latency_window_size ≡ size
    → Shows size [] h
    → Shows size history (after_epochs h history)
unfolding record_epoch lookup
after_epochs-Shows size h [] e start = start
after_epochs-Shows size h ((epoch, es) ∷ older) e start =
    let before = after_epochs h older in
    let shown = after_epochs-Shows size h older e start in
    record {
      window =
          rw (after_epochs-window h older, e, shown.window)
            (add_latencies-keep_last size es (all_latencies older));
      timeouts = rw (counts-timeout es, shown.timeouts) refl;
      counts = λ t. count_qualities-lookup es t [] ∙ zero_plus (count_of t es);
      fleet = failed-fleet epoch es before older;
    }

-- After any epochs recorded from the start, the latency window holds exactly the last finite
-- latencies of all epochs, no more than its size; the consecutive timeouts are the number of newest
-- epochs in a row with a timeout; the quality counts are those of the newest epoch; and the fleet's
-- reason is a transport failure exactly when the newest epoch has envelopes and all failed so.
pub after_epochs_lem :
    (size : ℕ) (h : PollHealth) (history : History)
    → make_poll_health size ≡ some h
    → Shows size history (after_epochs h history)
after_epochs_lem size h history e =
    let (w, start) = fresh-Shows size h e in after_epochs-Shows size h history w start
