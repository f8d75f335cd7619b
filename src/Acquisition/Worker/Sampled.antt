-- ===== src/Acquisition/Worker/Sampled.antt =====
-- The envelopes that the normalisation in app/acquisition.py makes.
use miner_alerts.Base.{ℕ, ◌≤◌, ◌≡◌, ◌≢◌, refl, true, Option, none, some, is_some, arith}
use miner_alerts.Base.Int.{ℤ, pos, ◌+ℤ◌}
use miner_alerts.Base.Float.{
  Float, nan, neg_inf, pos_inf, fin, lt_float, le_float, add_float, max_float, at_least_zero,
}
use miner_alerts.Base.Json.{Entries, Conversions}
use miner_alerts.Acquisition.Json.{extract_rate_ths}
use miner_alerts.Acquisition.Sample.{
  Quality, valid, Reason, ok, TransportStatus, success, empty_answer, invalid_json, timeout,
  failure, TransportOutcome, MinerSampleEnvelope, Subject, base_envelope, status_reason, answered,
  rated, summarized, with_payload, by_status, normalize_summary, with_stats, as_late,
}

abbrev Nonnegative : Float → Type 0
Nonnegative x = le_float (fin (pos 0)) x ≡ true

at_least_zero-Nonnegative : (x : Float) → Nonnegative (at_least_zero x)
unfolding max_float lt_float le_float
at_least_zero-Nonnegative nan = refl
at_least_zero-Nonnegative neg_inf = refl
at_least_zero-Nonnegative pos_inf = refl
at_least_zero-Nonnegative (fin z) = ground arith

add_float-Nonnegative : (x y : Float) → Nonnegative x → Nonnegative y → Nonnegative (add_float x y)
unfolding add_float le_float ◌+ℤ◌
add_float-Nonnegative (fin a) (fin b) h k = ground arith
add_float-Nonnegative (fin a) pos_inf h k = refl
add_float-Nonnegative pos_inf (fin b) h k = refl
add_float-Nonnegative pos_inf pos_inf h k = refl
add_float-Nonnegative (fin a) nan h k = cc
add_float-Nonnegative (fin a) neg_inf h k = cc
add_float-Nonnegative pos_inf nan h k = cc
add_float-Nonnegative pos_inf neg_inf h k = cc
add_float-Nonnegative nan y h k = cc
add_float-Nonnegative neg_inf y h k = cc

-- An envelope of the subject: what it must be to be VALID, and the requests it may count.
pub record IsSampleOf (s : Subject) (e : MinerSampleEnvelope) : Type 0 where
  pub key : e.miner_key ≡ s.miner_key
  pub source : e.authority ≡ s.authority
  pub epoch : e.epoch_id ≡ s.epoch_id
  pub observed : e.observed_ts ≡ s.observed_ts
  pub latency : le_float (fin (pos 0)) e.latency_ms ≡ true
  pub valid_rate : e.quality ≡ valid → (is_some e.rate_ths ≡ true) × (e.reason_code ≡ ok)
  pub answers : is_some e.rate_ths ≡ true → e.responded ≡ true
  pub one_summary : e.summary_requests ≤ 1
  pub stats_after : e.stats_requests ≤ e.summary_requests

pub base_envelope-IsSampleOf :
    (s : Subject) (completed : Float) (quality : Quality) (reason : Reason) (latency : Float)
    (n : ℕ)
    → quality ≢ valid
    → n ≤ 1
    → IsSampleOf s (base_envelope s completed quality reason latency n)
unfolding base_envelope
base_envelope-IsSampleOf s completed quality reason latency n other le = record {
  key = refl;
  source = refl;
  epoch = refl;
  observed = refl;
  latency = at_least_zero-Nonnegative latency;
  valid_rate = λ h. absurd (other h);
  answers = λ h. cc;
  one_summary = le;
  stats_after = omega arith;
}

rated-IsSampleOf :
    (c : Conversions) (s : Subject) (o : TransportOutcome) (d : Entries) (rate : Option ℤ)
    → IsSampleOf s (rated c s o d rate)
unfolding rated answered base_envelope
rated-IsSampleOf c s o d none = record {
  key = refl;
  source = refl;
  epoch = refl;
  observed = refl;
  latency = at_least_zero-Nonnegative o.latency_ms;
  valid_rate = λ h. cc;
  answers = λ h. refl;
  one_summary = omega arith;
  stats_after = omega arith;
}
rated-IsSampleOf c s o d (some rate) = record {
  key = refl;
  source = refl;
  epoch = refl;
  observed = refl;
  latency = at_least_zero-Nonnegative o.latency_ms;
  valid_rate = λ h. (refl, refl);
  answers = λ h. refl;
  one_summary = omega arith;
  stats_after = omega arith;
}

responded-IsSampleOf :
    (s : Subject) (e : MinerSampleEnvelope)
    → IsSampleOf s e
    → IsSampleOf s (record e { responded = true })
responded-IsSampleOf s e h = record {
  key = h.key;
  source = h.source;
  epoch = h.epoch;
  observed = h.observed;
  latency = h.latency;
  valid_rate = h.valid_rate;
  answers = λ k. refl;
  one_summary = h.one_summary;
  stats_after = h.stats_after;
}

answered-IsSampleOf :
    (s : Subject) (o : TransportOutcome) (quality : Quality) (reason : Reason)
    → quality ≢ valid
    → IsSampleOf s (answered s o quality reason)
unfolding answered
answered-IsSampleOf s o quality reason other =
    base_envelope-IsSampleOf s o.completed_monotonic quality reason o.latency_ms 1 other
      (omega arith)

summarized-IsSampleOf :
    (c : Conversions) (s : Subject) (o : TransportOutcome) (d : Option Entries)
    → IsSampleOf s (summarized c s o d)
unfolding summarized
summarized-IsSampleOf c s o none = responded-IsSampleOf s _ (answered-IsSampleOf s o _ _ (λ h. cc))
summarized-IsSampleOf c s o (some d) = rated-IsSampleOf c s o d (extract_rate_ths c d)

with_payload-IsSampleOf :
    (c : Conversions) (s : Subject) (o : TransportOutcome) (d : Option Entries)
    → IsSampleOf s (with_payload c s o d)
unfolding with_payload
with_payload-IsSampleOf c s o none = answered-IsSampleOf s o _ _ (λ h. cc)
with_payload-IsSampleOf c s o (some d) = summarized-IsSampleOf c s o _

by_status-IsSampleOf :
    (c : Conversions) (s : Subject) (o : TransportOutcome) (status : TransportStatus)
    → IsSampleOf s (by_status c s o status)
unfolding by_status status_reason
by_status-IsSampleOf c s o success = with_payload-IsSampleOf c s o o.payload
by_status-IsSampleOf c s o empty_answer = answered-IsSampleOf s o _ _ (λ h. cc)
by_status-IsSampleOf c s o invalid_json = answered-IsSampleOf s o _ _ (λ h. cc)
by_status-IsSampleOf c s o timeout = answered-IsSampleOf s o _ _ (λ h. cc)
by_status-IsSampleOf c s o failure = answered-IsSampleOf s o _ _ (λ h. cc)

pub normalize_summary-asks :
    (c : Conversions) (s : Subject) (o : TransportOutcome)
    → (normalize_summary c s o).summary_requests ≡ 1
unfolding normalize_summary by_status answered status_reason with_payload summarized rated
    base_envelope
normalize_summary-asks c s o = ground arith

pub with_stats-IsSampleOf :
    (c : Conversions) (s : Subject) (e : MinerSampleEnvelope) (o : TransportOutcome)
    → IsSampleOf s e
    → e.quality ≡ valid
    → e.summary_requests ≡ 1
    → IsSampleOf s (with_stats c e o)
unfolding with_stats
with_stats-IsSampleOf c s e o h v one = record {
  key = h.key;
  source = h.source;
  epoch = h.epoch;
  observed = h.observed;
  latency = add_float-Nonnegative e.latency_ms _ h.latency (at_least_zero-Nonnegative o.latency_ms);
  valid_rate = λ k. ((h.valid_rate v).0, ground arith);
  answers = h.answers;
  one_summary = h.one_summary;
  stats_after = omega (arith, one);
}

pub with_stats-boards :
    (c : Conversions) (e : MinerSampleEnvelope) (o : TransportOutcome)
    → (with_stats c e o).quality ≡ valid
    → is_some (with_stats c e o).active_boards ≡ true
unfolding with_stats
with_stats-boards c e o h = ground arith

pub late-IsSampleOf :
    (s : Subject) (e : MinerSampleEnvelope) → IsSampleOf s e → IsSampleOf s (as_late e)
unfolding as_late
late-IsSampleOf s e h = record {
  key = h.key;
  source = h.source;
  epoch = h.epoch;
  observed = h.observed;
  latency = h.latency;
  valid_rate = λ k. cc;
  answers = h.answers;
  one_summary = h.one_summary;
  stats_after = h.stats_after;
}

pub normalize_summary-IsSampleOf :
    (c : Conversions) (s : Subject) (o : TransportOutcome) → IsSampleOf s (normalize_summary c s o)
unfolding normalize_summary
normalize_summary-IsSampleOf c s o = by_status-IsSampleOf c s o o.status
