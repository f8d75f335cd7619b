-- ===== src/MetricsSnapshot/RoundTrip.antt =====
-- That a snapshot of app/metrics_snapshot.py that was accepted is written and read back unchanged.
use miner_alerts.Base.{
  ◌≡◌, refl, subst, Bool, true, false, Option, none, some, List, [], String, arith,
}
use miner_alerts.Base.Int.{ℤ, pos, negsuc}
use miner_alerts.Base.Value.{scale}
use miner_alerts.Base.Json.{Json, integer, text, dict, Entries, get, truncate}
use miner_alerts.MetricsSnapshot.Schema.{
  MonitorMetrics, MinerMetrics, TelegramMetrics, CollectorMetrics, AcquisitionMetrics,
  MetricsSnapshot, optional_float, monitor_dict, telegram_dict, collector_dict, acquisition_dict,
  to_dict, one_of, collector_statuses,
}
use miner_alerts.MetricsSnapshot.Validate.{
  Checked, good, Reason, collector_invalid_status, payload_not_dict, telegram_invalid,
  invalid_generated_ts, Texts, number, whole, is_positive, is_nonnegative, nonnegative, or_bad,
  require, optional_number, member_of, field, dict_of, items_of, read_monitor, total,
  assemble_telegram, read_telegram, read_collector, read_acquisition, positive_number, assemble,
  read_snapshot, validate_snapshot_data,
}
use miner_alerts.MetricsSnapshot.Miners.{
  bind-good, optional_number_back, member_of-good, AreMiners, read_miners-AreMiners,
  read_miners_back,
}

-- No total is negative.
pub record AreTotals (t : TelegramMetrics) : Type 0 where
  pub enqueued : is_nonnegative t.enqueued_total ≡ true
  pub sent : is_nonnegative t.sent_total ≡ true
  pub errors : is_nonnegative t.send_error_total ≡ true
  pub dropped : is_nonnegative t.dropped_total ≡ true
  pub bypass : is_nonnegative t.bypass_total ≡ true
  pub fallback : is_nonnegative t.fallback_total ≡ true

-- What a snapshot that was accepted has.
pub record IsAccepted (t : Texts) (s : MetricsSnapshot) : Type 0 where
  pub generated : is_positive s.generated_ts ≡ true
  pub totals : AreTotals s.telegram
  pub known_status : one_of collector_statuses s.collector.status ≡ true
  pub miners : AreMiners t [] s.miners

number_back : (o : Option ℤ) → number (optional_float o) ≡ o
unfolding number
number_back none = refl
number_back (some z) = refl

read_monitor_back : (m : MonitorMetrics) → read_monitor (monitor_dict m) ≡ good m
unfolding read_monitor monitor_dict get number whole
read_monitor_back m = rw (number_back m.telegram_poller_ts, number_back m.telegram_sender_ts) refl

scale-nonnegative : (z : ℤ) → is_nonnegative (scale z) ≡ is_nonnegative z
scale-nonnegative (pos n) = refl
scale-nonnegative (negsuc n) = refl

whole-nonnegative :
    (v : Json) (z : ℤ) → nonnegative (number v) ≡ true → whole v ≡ some z → is_nonnegative z ≡ true
unfolding whole number truncate
whole-nonnegative v z h k = ground arith

require-true : (b : Bool) (r : Reason) (u : Unit {0}) → require b r ≡ good u → b ≡ true
require-true true r u h = refl
require-true false r u h = cc

or_bad-some {ℓ} :
    {A : Type ℓ} (r : Reason) (o : Option A) (a : A) → or_bad r o ≡ good a → o ≡ some a
or_bad-some r none a h = cc
or_bad-some r (some b) a h = cc

total-good : (d : Entries) (key : String) (z : ℤ) → total d key ≡ good z → is_nonnegative z ≡ true
unfolding total
total-good d key z h =
    let r = telegram_invalid key in
    let (u, (e, h1)) = bind-good (require (nonnegative (number (field key d))) r) _ z h in
    whole-nonnegative (field key d) z (require-true _ r u e)
      (or_bad-some r (whole (field key d)) z h1)

assemble_telegram-good :
    (c1 c2 c3 c4 c5 c6 : Checked ℤ) (t : TelegramMetrics)
    → assemble_telegram c1 c2 c3 c4 c5 c6 ≡ good t
    → ((c1 ≡ good t.enqueued_total) × ((c2 ≡ good t.sent_total) × (c3 ≡ good t.send_error_total)))
      × ((c4 ≡ good t.dropped_total) × ((c5 ≡ good t.bypass_total) × (c6 ≡ good t.fallback_total)))
unfolding assemble_telegram
assemble_telegram-good c1 c2 c3 c4 c5 c6 t h = ground arith

read_telegram-AreTotals :
    (d : Entries) (t : TelegramMetrics) → read_telegram d ≡ good t → AreTotals t
unfolding read_telegram
read_telegram-AreTotals d t h =
    let ((a, (b, c)), (e, (f, g))) = assemble_telegram-good _ _ _ _ _ _ t h in
    record {
      enqueued = total-good d "enqueued_total" _ a;
      sent = total-good d "sent_total" _ b;
      errors = total-good d "send_error_total" _ c;
      dropped = total-good d "dropped_total" _ e;
      bypass = total-good d "bypass_total" _ f;
      fallback = total-good d "fallback_total" _ g;
    }

total_back :
    (d : Entries) (key : String) (z : ℤ)
    → field key d ≡ integer z
    → is_nonnegative z ≡ true
    → total d key ≡ good z
unfolding total number whole
total_back d key z e h = rw (e, scale-nonnegative z, h) refl

read_telegram_back : (t : TelegramMetrics) → AreTotals t → read_telegram (telegram_dict t) ≡ good t
unfolding read_telegram telegram_dict get assemble_telegram
read_telegram_back t h =
    let d = telegram_dict t in
    rw
      (
        total_back d "enqueued_total" t.enqueued_total refl h.enqueued,
        total_back d "sent_total" t.sent_total refl h.sent,
        total_back d "send_error_total" t.send_error_total refl h.errors,
        total_back d "dropped_total" t.dropped_total refl h.dropped,
        total_back d "bypass_total" t.bypass_total refl h.bypass,
        total_back d "fallback_total" t.fallback_total refl h.fallback,
      )
      refl

read_collector-status :
    (d : Entries) (c : CollectorMetrics)
    → read_collector d ≡ good c
    → one_of collector_statuses c.status ≡ true
unfolding read_collector
read_collector-status d c h =
    let read = member_of collector_statuses collector_invalid_status (field "status" d) in
    let (status, (e, h1)) = bind-good read _ c h in
    let (age, (f, h2)) =
      bind-good (optional_number Reason.collector_invalid_age (field "age_seconds" d)) _ c h1 in
    subst (λ k. one_of collector_statuses k.status ≡ true) (good_injective h2)
      (member_of-good collector_statuses collector_invalid_status (field "status" d) status e)
  where
    good_injective : {a b : CollectorMetrics} → good a ≡ good b → a ≡ b
    good_injective e = cc

read_collector_back :
    (c : CollectorMetrics)
    → one_of collector_statuses c.status ≡ true
    → read_collector (collector_dict c) ≡ good c
unfolding read_collector collector_dict get
read_collector_back c h = rw (h, optional_number_back) refl

read_acquisition_back : (a : AcquisitionMetrics) → read_acquisition (acquisition_dict a) ≡ good a
unfolding read_acquisition acquisition_dict get
read_acquisition_back a = rw optional_number_back refl

assemble-good :
    (c1 : Checked (Unit {0})) (c2 : Checked ℤ) (c3 : Checked MonitorMetrics)
    (c4 : Checked TelegramMetrics) (c5 : Checked CollectorMetrics) (c6 : Checked AcquisitionMetrics)
    (c7 : Checked (List MinerMetrics)) (s : MetricsSnapshot)
    → assemble c1 c2 c3 c4 c5 c6 c7 ≡ good s
    → ((c2 ≡ good s.generated_ts) × (c4 ≡ good s.telegram))
      × ((c5 ≡ good s.collector) × (c7 ≡ good s.miners))
unfolding assemble
assemble-good c1 c2 c3 c4 c5 c6 c7 s h = ground arith

positive_number-good :
    (r : Reason) (o : Option ℤ) (z : ℤ)
    → or_bad r (positive_number o) ≡ good z
    → is_positive z ≡ true
positive_number-good r o z h = ground arith

module _ (t : Texts) (strips : (x : String) → t.strip (t.strip x) ≡ t.strip x)
    (shows : (x : String) → t.shown (text x) ≡ x) where
  validate-dict :
      (v : Json) (s : MetricsSnapshot)
      → validate_snapshot_data t v ≡ good s
      → (d : Entries) × (read_snapshot t d ≡ good s)
  unfolding validate_snapshot_data
  validate-dict v s h =
      let (d, (e, h1)) = bind-good (or_bad payload_not_dict (dict_of v)) _ s h in (d, h1)

  read_snapshot-IsAccepted :
      (d : Entries) (s : MetricsSnapshot) → read_snapshot t d ≡ good s → IsAccepted t s
  unfolding read_snapshot
  read_snapshot-IsAccepted d s h =
      let ((a, b), (c, e)) = assemble-good _ _ _ _ _ _ _ s h in
      let (tel, (b1, b2)) =
        bind-good (or_bad Reason.telegram_not_dict (dict_of (field "telegram" d))) _ _ b in
      let (col, (c1, c2)) =
        bind-good (or_bad Reason.collector_not_dict (dict_of (field "collector" d))) _ _ c in
      let (items, (e1, e2)) =
        bind-good (or_bad Reason.miners_not_list (items_of (field "miners" d))) _ _ e in
      record {
        generated =
            positive_number-good invalid_generated_ts (number (field "generated_ts" d))
              s.generated_ts a;
        totals = read_telegram-AreTotals tel s.telegram b2;
        known_status = read_collector-status col s.collector c2;
        miners = read_miners-AreMiners t strips shows items 0 [] s.miners e2;
      }

  read_snapshot_back : (s : MetricsSnapshot) → IsAccepted t s → read_snapshot t (to_dict s) ≡ good s
  unfolding read_snapshot to_dict get number assemble
  read_snapshot_back s h =
      rw
        (
          h.generated,
          read_monitor_back s.monitor,
          read_telegram_back s.telegram h.totals,
          read_collector_back s.collector h.known_status,
          read_acquisition_back s.acquisition,
          read_miners_back t strips shows s.miners 0 [] h.miners,
        )
        refl

  -- If stripping a stripped text changes nothing and `str` gives a text itself: a snapshot that is
  -- accepted has a positive time, no negative total, known statuses, states and qualities and a positive
  -- number of boards for each miner, and its miners' ids are new in their turn, not empty and without
  -- an address; and the dict that `to_dict` makes of it is accepted again, as the same snapshot.
  pub validate_snapshot_data_back :
      (v : Json) (s : MetricsSnapshot)
      → validate_snapshot_data t v ≡ good s
      → IsAccepted t s × (validate_snapshot_data t (dict (to_dict s)) ≡ good s)
  unfolding validate_snapshot_data
  validate_snapshot_data_back v s h =
      let (d, e) = validate-dict v s h in
      let k = read_snapshot-IsAccepted d s e in (k, read_snapshot_back s k)
