-- ===== src/Acquisition/Worker/Polled.antt =====
-- What a poll of `BoundedAcquirer` in app/acquisition.py gives, whatever the transport answers.
use miner_alerts.Base.{
  ℕ, ◌≤◌, ◌≡◌, ◌≢◌, refl, inl, inr, Bool, true, false, ◌||◌, not, is_some, leb, Bool-cases,
  if◌then◌else◌, arith,
}
use miner_alerts.Base.Int.{pos}
use miner_alerts.Base.Float.{fin, lt_float}
use miner_alerts.Base.Json.{Conversions}
use miner_alerts.Acquisition.Sample.{
  Quality, valid, late, epoch_deadline_exceeded, TransportOutcome, MinerSampleEnvelope, Subject,
  base_envelope, normalize_summary, with_stats, as_late,
}
use miner_alerts.Acquisition.Worker.{Job, clock_time, safe_transport, is_valid, in_time, poll_miner}
use miner_alerts.Acquisition.Worker.Sampled.{
  IsSampleOf, base_envelope-IsSampleOf, with_stats-IsSampleOf, with_stats-boards, late-IsSampleOf,
  normalize_summary-IsSampleOf, normalize_summary-asks,
}

-- What holds of the envelope of a poll.
pub record IsPolled (s : Subject) (deadline : ℕ) (include_stats : Bool) (e : MinerSampleEnvelope)
    : Type 0 where
  pub sample : IsSampleOf s e
  pub in_deadline : e.quality ≢ late → lt_float (clock_time deadline) e.completed_monotonic ≡ false
  pub boards : include_stats ≡ true → e.quality ≡ valid → is_some e.active_boards ≡ true

in_time-IsPolled :
    (s : Subject) (deadline : ℕ) (include_stats : Bool) (e next : MinerSampleEnvelope)
    → IsSampleOf s e
    → (lt_float (clock_time deadline) e.completed_monotonic ≡ false
        → IsPolled s deadline include_stats next)
    → IsPolled s deadline include_stats (in_time deadline e next)
unfolding as_late
in_time-IsPolled s deadline include_stats e next h k =
    elim (Bool-cases (lt_float (clock_time deadline) e.completed_monotonic)) [
      | inl l ↦ rw l (record {
        sample = late-IsSampleOf s e h;
        in_deadline = λ other. absurd (other refl);
        boards = λ i v. cc;
      })
      | inr l ↦ rw l (k l)
    ]

is_valid-eq : (q : Quality) → is_valid q ≡ true → q ≡ valid
is_valid-eq q h = ground arith

-- The poll after its summary came in time.
after_summary :
    (c : Conversions) (s : Subject) (deadline : ℕ) (include_stats : Bool) (e : MinerSampleEnvelope)
    (o : TransportOutcome)
    → IsSampleOf s e
    → e.summary_requests ≡ 1
    → lt_float (clock_time deadline) e.completed_monotonic ≡ false
    → let f = with_stats c e o in
      IsPolled s deadline include_stats
        (if not (is_valid e.quality) || not include_stats then e else in_time deadline f f)
after_summary c s deadline include_stats e o h one l = elim (Bool-cases (is_valid e.quality)) [
  | inr other ↦
      rw other
        (record { sample = h; in_deadline = λ k. l; boards = λ i v. ground (arith, v, other) })
  | inl v ↦
      rw v
        (elim include_stats
          as (λ b.
            IsPolled s deadline b
              (if not b then e else in_time deadline (with_stats c e o) (with_stats c e o))) [
                | false ↦ record { sample = h; in_deadline = λ k. l; boards = λ i k. cc }
                | true ↦
                    let f = with_stats c e o in
                    let g = with_stats-IsSampleOf c s e o h (is_valid-eq e.quality v) one in
                    in_time-IsPolled s deadline true f f g (λ k. record {
                      sample = g;
                      in_deadline = λ n. k;
                      boards = λ i w. with_stats-boards c e o w;
                    })
              ])
]

refused-IsPolled :
    (s : Subject) (deadline : ℕ) (include_stats : Bool) (at : ℕ)
    → IsPolled s deadline include_stats
        (base_envelope s (clock_time at) late epoch_deadline_exceeded (fin (pos 0)) 0)
unfolding base_envelope
refused-IsPolled s deadline include_stats at = record {
  sample = base_envelope-IsSampleOf s _ late _ _ 0 (λ h. cc) (omega arith);
  in_deadline = λ k. absurd (k refl);
  boards = λ i v. cc;
}

-- Whatever the transport answers and the clock shows, the envelope of a poll is of its miner, epoch and
-- authority, with a latency that is a number and not negative; it is VALID only with a rate and, when
-- stats are included, a count of boards; one that is not LATE was completed by the deadline; a
-- request for stats follows one for the summary, one of each at most; and a worker that starts at
-- the deadline or after makes no request.
pub poll_miner-IsPolled :
    (c : Conversions) (s : Subject) (deadline : ℕ) (include_stats : Bool) (job : Job)
    → IsPolled s deadline include_stats (poll_miner c s deadline include_stats job)
      × (deadline ≤ job.entered → (poll_miner c s deadline include_stats job).summary_requests ≡ 0)
unfolding poll_miner base_envelope
poll_miner-IsPolled c s deadline include_stats job = elim (Bool-cases (leb deadline job.entered)) [
  | inl l ↦ rw l (refused-IsPolled s deadline include_stats job.refused, λ h. refl)
  | inr l ↦
      let o = safe_transport job.summary in
      let e = normalize_summary c s o in
      let h = normalize_summary-IsSampleOf c s o in
      rw l (
        in_time-IsPolled s deadline include_stats e _ h (
            after_summary c s deadline include_stats e (safe_transport job.stats) h
              (normalize_summary-asks c s o)),
        λ k. ground (arith, l),
      )
]
