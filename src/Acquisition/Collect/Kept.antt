-- ===== src/Acquisition/Collect/Kept.antt =====
-- What the collections in app/acquisition.py do to the leases of others.
use miner_alerts.Base.{
  ℕ, suc, ◌≤◌, sym, ◌-◌, ◌≡◌, ◌≢◌, inl, inr, refl, ap, ◌∙◌, Bool, false, not, Option, none, some,
  List, [], ◌∷◌, ◌++◌, String, map, keep, same_text, same_text_iff, subst, length, ◌+◌, All,
  Bool-cases, Option-cases, arith,
}
use miner_alerts.Base.Dict.{lookup, lookup-insert, lookup-erase}
use miner_alerts.Acquisition.Registry.{
  InFlightLease, InFlightRegistry, Request, lease_of, acquire, held_by, release, same_lease,
}
use miner_alerts.Acquisition.Registry.Refinement.{acquire-free, acquire-busy}
use miner_alerts.Base.Json.{Conversions}
use miner_alerts.Acquisition.Worker.{MinerEndpoint, BoundedAcquirer, acquire_one}
use miner_alerts.Acquisition.Collect.{
  Fate, finished, raised, unfinished, is_done, Round, SubmittedRequest, Collection, enlist, submit,
  settle_done, settle_late, settle_all_done, settle_all_late, has_duplicate, settle, collect,
  Meanwhile, end_worker, end_others, overrun, cancelled, starting, working, ended, Outcome,
  or_missing, in_order,
}
use miner_alerts.Acquisition.Collect.Answered.{guarded_neither}
use miner_alerts.Acquisition.Collect.Running.{
  add_working, still_working, add_working-plus, still_working-keep, left_working, submit-working,
}

-- The miner's lease is as it was, no submitted request has a lease of that miner, and the number of
-- active workers is as it was.
record Untouched (at : String) (l : InFlightLease) (n : ℕ) (k : Collection) : Type 0 where
  held : lookup at k.acquirer.leases.leases ≡ some l
  others : All (λ q. q.lease.miner_key ≢ at) k.submitted
  active : k.acquirer.active_workers ≡ n

release-others :
    (at : String) (l q : InFlightLease) (r : InFlightRegistry)
    → q.miner_key ≢ at
    → lookup at r.leases ≡ some l
    → lookup at (release (some q) r).1.leases ≡ some l
unfolding release
release-others at l q r other h = elim (Bool-cases (held_by q (lookup q.miner_key r.leases))) [
  | inl e ↦
      rw e (
        ground
          (arith, lookup-erase q.miner_key at r.leases, same_text_iff q.miner_key at, other, h))
  | inr e ↦ rw e h
]

All-end :
    (P : SubmittedRequest → Type 0) (qs : List SubmittedRequest) (q : SubmittedRequest)
    → All P qs
    → P q
    → All P (qs ++ q ∷ [])
All-end P [] q h p = (p, tt)
All-end P (x ∷ qs) q h p = (h.0, All-end P qs q h.1 p)

All-keep :
    (P : SubmittedRequest → Type 0) (p : SubmittedRequest → Bool) (qs : List SubmittedRequest)
    → All P qs
    → All P (keep p qs)
All-keep P p [] h = tt
All-keep P p (x ∷ qs) h = elim (Bool-cases (p x)) [
  | inl e ↦ rw e (h.0, All-keep P p qs h.1)
  | inr e ↦ rw e (All-keep P p qs h.1)
]

some_not_none : {l : InFlightLease} {o : Option InFlightLease} → o ≡ none → o ≡ some l → ⊥
some_not_none e h = cc

enlist-Untouched :
    (r : Round) (at_time : ℕ) (fate : String → Fate) (m : MinerEndpoint) (q : Request) (at : String)
    (l : InFlightLease) (n : ℕ) (k : Collection)
    → q.miner_key ≡ m.key
    → Untouched at l n k
    → Untouched at l n (enlist r at_time fate m (acquire q k.acquirer.leases) k)
enlist-Untouched r at_time fate m q at l n k same h =
    let reg = k.acquirer.leases in
    elim (Option-cases (lookup q.miner_key reg.leases)) [
      | inr (b, busy) ↦
          rw (acquire-busy q reg b busy)
            (record { held = h.held; others = h.others; active = h.active })
      | inl free ↦
          let other : q.miner_key ≢ at =
            λ e. some_not_none free (ap (λ key. lookup key reg.leases) e ∙ h.held) in
          rw (acquire-free q reg free) (record {
            held = ground (
              arith,
              lookup-insert q.miner_key at (lease_of reg.next_id q) reg.leases,
              same_text_iff q.miner_key at,
              other,
              h.held,
            );
            others = All-end (λ p. p.lease.miner_key ≢ at) k.submitted _ h.others other;
            active = h.active;
          })
    ]

submit-Untouched :
    (r : Round) (at_time : ℕ) (fate : String → Fate) (ms : List MinerEndpoint) (at : String)
    (l : InFlightLease) (n : ℕ) (k : Collection)
    → Untouched at l n k
    → Untouched at l n (submit r at_time fate ms k)
unfolding submit
submit-Untouched r at_time fate [] at l n k h = h
submit-Untouched r at_time fate (m ∷ ms) at l n k h =
    submit-Untouched r at_time fate ms at l n _
      (enlist-Untouched r at_time fate m _ at l n k refl h)

suc_minus : (n : ℕ) → suc n - 1 ≡ n
suc_minus n = omega arith

settle_done-Untouched :
    (c : Conversions) (r : Round) (q : SubmittedRequest) (fate : Fate) (at : String)
    (l : InFlightLease) (n : ℕ) (k : Collection)
    → q.lease.miner_key ≢ at
    → Untouched at l n k
    → Untouched at l n (settle_done c r q fate k)
unfolding settle_done acquire_one
settle_done-Untouched c r q (finished job) at l n k other h = record {
  held = release-others at l q.lease k.acquirer.leases other h.held;
  others = h.others;
  active = suc_minus k.acquirer.active_workers ∙ h.active;
}
settle_done-Untouched c r q (raised t) at l n k other h = record {
  held = release-others at l q.lease k.acquirer.leases other h.held;
  others = h.others;
  active = suc_minus k.acquirer.active_workers ∙ h.active;
}
settle_done-Untouched c r q (unfinished running p) at l n k other h = h

settle_late-Untouched :
    (r : Round) (q : SubmittedRequest) (fate : Fate) (at : String) (l : InFlightLease) (n : ℕ)
    (k : Collection)
    → q.lease.miner_key ≢ at
    → Untouched at l n k
    → Untouched at l (add_working fate n) (settle_late r q fate k)
unfolding settle_late overrun end_worker
settle_late-Untouched r q (unfinished running cancelled) at l n k other h = record {
  held = release-others at l q.lease k.acquirer.leases other h.held;
  others = h.others;
  active = h.active;
}
settle_late-Untouched r q (unfinished running starting) at l n k other h = record {
  held = h.held;
  others = h.others;
  active = h.active;
}
settle_late-Untouched r q (unfinished running working) at l n k other h = record {
  held = h.held;
  others = h.others;
  active = ap suc h.active;
}
settle_late-Untouched r q (unfinished running ended) at l n k other h = record {
  held = release-others at l q.lease k.acquirer.leases other h.held;
  others = h.others;
  active = suc_minus k.acquirer.active_workers ∙ h.active;
}
settle_late-Untouched r q (finished job) at l n k other h = h
settle_late-Untouched r q (raised t) at l n k other h = h

settle_all_done-Untouched :
    (c : Conversions) (r : Round) (qs : List SubmittedRequest) (at : String) (l : InFlightLease)
    (n : ℕ) (k : Collection)
    → All (λ q. q.lease.miner_key ≢ at) qs
    → Untouched at l n k
    → Untouched at l n (settle_all_done c r qs k)
unfolding settle_all_done
settle_all_done-Untouched c r [] at l n k others h = h
settle_all_done-Untouched c r (q ∷ qs) at l n k others h =
    settle_all_done-Untouched c r qs at l n _ others.1
      (settle_done-Untouched c r q q.future at l n k others.0 h)

settle_all_late-Untouched :
    (r : Round) (qs : List SubmittedRequest) (at : String) (l : InFlightLease) (n : ℕ)
    (k : Collection)
    → All (λ q. q.lease.miner_key ≢ at) qs
    → Untouched at l n k
    → Untouched at l (n + still_working qs) (settle_all_late r qs k)
unfolding settle_all_late
settle_all_late-Untouched r [] at l n k others h = subst (λ m. Untouched at l m k) (omega arith) h
settle_all_late-Untouched r (q ∷ qs) at l n k others h =
    subst (λ m. Untouched at l m (settle_all_late r qs (settle_late r q q.future k)))
      (add_working-plus q.future n (still_working qs))
      (settle_all_late-Untouched r qs at l (add_working q.future n) _ others.1
        (settle_late-Untouched r q q.future at l n k others.0 h))

-- A lease of another poll is not given back by those that end.
release_keeps :
    (at : String) (l q : InFlightLease) (r : InFlightRegistry)
    → same_lease l q ≡ false
    → lookup at r.leases ≡ some l
    → lookup at (release (some q) r).1.leases ≡ some l
unfolding release
release_keeps at l q r others_lease h = elim (Bool-cases (same_text q.miner_key at)) [
  | inr e ↦ release-others at l q r (λ same. ground (arith, same_text_iff q.miner_key at)) h
  | inl e ↦
      let same : q.miner_key ≡ at = ground (arith, same_text_iff q.miner_key at) in
      let kept : held_by q (lookup q.miner_key r.leases) ≡ false =
        subst (λ key. held_by q (lookup key r.leases) ≡ false) (sym same) (rw h others_lease) in
      rw kept h
]

end_others-keeps :
    (at : String) (l : InFlightLease) (qs : List InFlightLease) (a : BoundedAcquirer)
    → All (λ q. same_lease l q ≡ false) qs
    → lookup at a.leases.leases ≡ some l
    → (lookup at (end_others qs a).leases.leases ≡ some l)
      × ((end_others qs a).active_workers ≡ a.active_workers - length qs)
unfolding end_others end_worker
end_others-keeps at l [] a others h = (h, omega arith)
end_others-keeps at l (q ∷ qs) a others h =
    let (held, active) =
      end_others-keeps at l qs (end_worker q a) others.1
        (release_keeps at l q a.leases others.0 h) in
    (held, active ∙ minus_suc a.active_workers (length qs))
  where
    minus_suc : (n m : ℕ) → n - 1 - m ≡ n - suc m
    minus_suc n m = omega arith

zero_plus : (n : ℕ) → 0 + n ≡ n
zero_plus n = omega arith

settle-Untouched :
    (c : Conversions) (r : Round) (at_time : ℕ) (w : Meanwhile) (ms : List MinerEndpoint)
    (a : BoundedAcquirer) (at : String) (l : InFlightLease)
    → lookup at a.leases.leases ≡ some l
    → All (λ q. same_lease l q ≡ false) w.others_ended
    → has_duplicate (map (λ m. m.key) ms) ≡ false
    → Untouched at l
        (a.active_workers - length w.others_ended + left_working a.leases w.fate ms)
        (settle c r at_time w ms a)
unfolding settle
settle-Untouched c r at_time w ms a at l h others once =
    let start : Collection = record { envelopes = []; submitted = []; acquirer = a } in
    let n = a.active_workers - length w.others_ended in
    let k = submit r at_time w.fate ms start in
    let u =
      submit-Untouched r at_time w.fate ms at l a.active_workers start
        (record { held = h; others = tt; active = refl }) in
    let (held, active) = end_others-keeps at l w.others_ended k.acquirer others u.held in
    let k1 : Collection = record k { acquirer = end_others w.others_ended k.acquirer } in
    let u1 : Untouched at l n k1 = record {
      held = held;
      others = u.others;
      active = active ∙ ap (λ m. m - length w.others_ended) u.active;
    } in
    let P : SubmittedRequest → Type 0 = λ q. q.lease.miner_key ≢ at in
    let late_ones = keep (λ q. not (is_done q.future)) k.submitted in
    let ended = settle_all_done c r (keep (λ q. is_done q.future) k.submitted) k1 in
    subst (λ m. Untouched at l (n + m) (settle_all_late r late_ones ended))
      (still_working-keep k.submitted
        ∙ (submit-working r at_time w.fate ms start once
            ∙ zero_plus (left_working a.leases w.fate ms)))
      (settle_all_late-Untouched r late_ones at l n ended
        (All-keep P (λ q. not (is_done q.future)) k.submitted u.others)
        (settle_all_done-Untouched c r _ at l n k1
          (All-keep P (λ q. is_done q.future) k.submitted u.others) u1))

-- A miner whose lease another poll holds, and does not give back in the meantime, keeps that lease
-- through a collection by an acquirer that is not closed, of miners that are not named twice, also one
-- that polls this miner. After it the count of active workers is what it was, less the other polls that
-- ended, of which there are no more than were counted, and with those of the collection's own polls
-- whose workers still run.
pub collect_keeps_lease :
    (c : Conversions) (r : Round) (at_time : ℕ) (w : Meanwhile) (ms : List MinerEndpoint)
    (a : BoundedAcquirer) (at : String) (l : InFlightLease)
    → lookup at a.leases.leases ≡ some l
    → All (λ q. same_lease l q ≡ false) w.others_ended
    → a.closed ≡ false
    → has_duplicate (map (λ m. m.key) ms) ≡ false
    → length w.others_ended ≤ a.active_workers
    → let after = (collect c r at_time w ms a).1 in
      (lookup at after.leases.leases ≡ some l)
      × (after.active_workers + length w.others_ended
          ≡ a.active_workers + left_working a.leases w.fate ms)
unfolding collect
collect_keeps_lease c r at_time w ms a at l h others still once few =
    let u = settle-Untouched c r at_time w ms a at l h others once in
    let twice = has_duplicate (map (λ m. m.key) ms) in
    let k = settle c r at_time w ms a in
    let result : Outcome × BoundedAcquirer = (or_missing (in_order ms k.envelopes), k.acquirer) in
    subst
      (λ x.
        (lookup at x.1.leases.leases ≡ some l)
        × (x.1.active_workers + length w.others_ended
            ≡ a.active_workers + left_working a.leases w.fate ms))
      (sym (guarded_neither a.closed twice a result still once))
      (
        u.held,
        whole k.acquirer.active_workers a.active_workers (length w.others_ended) _ u.active few,
      )
  where
    whole : (x n e l : ℕ) → x ≡ n - e + l → e ≤ n → x + e ≡ n + l
    whole x n e l h k = omega (arith, h, k)
