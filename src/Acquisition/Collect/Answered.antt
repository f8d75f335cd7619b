-- ===== src/Acquisition/Collect/Answered.antt =====
-- What the collections in app/acquisition.py return.
use miner_alerts.Base.{
  ℕ, ◌≤◌, ◌≡◌, inl, inr, refl, subst, ap, ◌∙◌, Bool, true, false, Option, none, some, List, [], ◌∷◌,
  String, map, is_some, same_text, same_text_iff, Member, Bool-cases, Option-cases, if◌then◌else◌,
  arith,
}
use miner_alerts.Base.Dict.{Dict, lookup, insert, lookup-insert}
use miner_alerts.Acquisition.Registry.{InFlightLease, InFlightRegistry}
use miner_alerts.Base.Json.{Conversions}
use miner_alerts.Acquisition.Sample.{MinerSampleEnvelope, base_envelope, late, error}
use miner_alerts.Acquisition.Worker.{MinerEndpoint, BoundedAcquirer, acquire_one}
use miner_alerts.Acquisition.Worker.Sampled.{IsSampleOf, base_envelope-IsSampleOf}
use miner_alerts.Acquisition.Worker.Polled.{poll_miner-IsPolled}
use miner_alerts.Acquisition.Collect.{
  Meanwhile, runs_on, Fate, finished, raised, unfinished, Round, subject, SubmittedRequest,
  Collection, enlist, submit, or_raised, settle_done, settle_late, settle_all_done, settle_all_late,
  in_order, has_duplicate, acquirer_closed, keys_not_unique, Outcome, collected, refused, settle,
  collect, guarded, or_missing,
}
use miner_alerts.Acquisition.Collect.Covered.{settle-Has}

-- Every envelope of the dictionary is of the round and of the miner under whose key it stands.
abbrev pub AllOf : Round → Dict MinerSampleEnvelope → Type 0
AllOf r d =
    (key : String) (e : MinerSampleEnvelope) → lookup key d ≡ some e → IsSampleOf (subject r key) e

insert-AllOf :
    (r : Round) (key : String) (e : MinerSampleEnvelope) (d : Dict MinerSampleEnvelope)
    → IsSampleOf (subject r key) e
    → AllOf r d
    → AllOf r (insert key e d)
insert-AllOf r key e d h hs at f k = elim (Bool-cases (same_text key at)) [
  | inl same ↦
      let e' : some e ≡ some f = ground (arith, lookup-insert key at e d, same, k) in
      subst (λ t. IsSampleOf (subject r t) f) ((same_text_iff key at).0 same)
        (subst (IsSampleOf (subject r key)) (some_injective e') h)
  | inr other ↦ hs at f (ground (arith, lookup-insert key at e d, other, k))
]
  where
    some_injective : {e f : MinerSampleEnvelope} → some e ≡ some f → e ≡ f
    some_injective e = cc

or_raised-IsSampleOf :
    (r : Round) (key : String) (at_time : ℕ) (body : Option MinerSampleEnvelope)
    → ((e : MinerSampleEnvelope) → body ≡ some e → IsSampleOf (subject r key) e)
    → IsSampleOf (subject r key) (or_raised r key at_time body)
unfolding base_envelope
or_raised-IsSampleOf r key at_time none h =
    base_envelope-IsSampleOf (subject r key) _ error _ _ 1 (λ k. cc) (omega arith)
or_raised-IsSampleOf r key at_time (some e) h = h e refl

settle_done-AllOf :
    (c : Conversions) (r : Round) (q : SubmittedRequest) (fate : Fate) (k : Collection)
    → AllOf r k.envelopes
    → AllOf r (settle_done c r q fate k).envelopes
unfolding settle_done acquire_one base_envelope
settle_done-AllOf c r q (finished job) k h =
    insert-AllOf r q.endpoint.key _ k.envelopes
      (poll_miner-IsPolled c (subject r q.endpoint.key) r.deadline_monotonic r.include_stats
        job).0.sample
      h
settle_done-AllOf c r q (raised t) k h =
    insert-AllOf r q.endpoint.key _ k.envelopes
      (base_envelope-IsSampleOf (subject r q.endpoint.key) _ error _ _ 1 (λ k. cc) (omega arith)) h
settle_done-AllOf c r q (unfinished running p) k h = h

few : (b : Bool) → (if b then 1 else 0) ≤ 1
few b = ground arith

settle_late-AllOf :
    (r : Round) (q : SubmittedRequest) (fate : Fate) (k : Collection)
    → AllOf r k.envelopes
    → AllOf r (settle_late r q fate k).envelopes
unfolding settle_late base_envelope
settle_late-AllOf r q (unfinished running p) k h =
    insert-AllOf r q.endpoint.key _ k.envelopes
      (base_envelope-IsSampleOf (subject r q.endpoint.key) _ late _ _ _ (λ k. cc)
        (few (runs_on running p)))
      h
settle_late-AllOf r q (finished job) k h = h
settle_late-AllOf r q (raised t) k h = h

settle_all_done-AllOf :
    (c : Conversions) (r : Round) (qs : List SubmittedRequest) (k : Collection)
    → AllOf r k.envelopes
    → AllOf r (settle_all_done c r qs k).envelopes
unfolding settle_all_done
settle_all_done-AllOf c r [] k h = h
settle_all_done-AllOf c r (q ∷ qs) k h =
    settle_all_done-AllOf c r qs _ (settle_done-AllOf c r q q.future k h)

settle_all_late-AllOf :
    (r : Round) (qs : List SubmittedRequest) (k : Collection)
    → AllOf r k.envelopes
    → AllOf r (settle_all_late r qs k).envelopes
unfolding settle_all_late
settle_all_late-AllOf r [] k h = h
settle_all_late-AllOf r (q ∷ qs) k h =
    settle_all_late-AllOf r qs _ (settle_late-AllOf r q q.future k h)

enlist-AllOf :
    (r : Round) (at_time : ℕ) (fate : String → Fate) (m : MinerEndpoint)
    (got : Option InFlightLease × InFlightRegistry) (k : Collection)
    → AllOf r k.envelopes
    → AllOf r (enlist r at_time fate m got k).envelopes
unfolding base_envelope
enlist-AllOf r at_time fate m (none, ls) k h =
    insert-AllOf r m.key _ k.envelopes
      (base_envelope-IsSampleOf (subject r m.key) _ error _ _ 0 (λ k. cc) (omega arith)) h
enlist-AllOf r at_time fate m (some lease, ls) k h = h

submit-AllOf :
    (r : Round) (at_time : ℕ) (fate : String → Fate) (ms : List MinerEndpoint) (k : Collection)
    → AllOf r k.envelopes
    → AllOf r (submit r at_time fate ms k).envelopes
unfolding submit
submit-AllOf r at_time fate [] k h = h
submit-AllOf r at_time fate (m ∷ ms) k h =
    submit-AllOf r at_time fate ms _ (enlist-AllOf r at_time fate m _ k h)

settle-AllOf :
    (c : Conversions) (r : Round) (at_time : ℕ) (w : Meanwhile) (ms : List MinerEndpoint)
    (a : BoundedAcquirer)
    → AllOf r (settle c r at_time w ms a).envelopes
unfolding settle lookup
settle-AllOf c r at_time w ms a =
    settle_all_late-AllOf r _ _
      (settle_all_done-AllOf c r _ _ (submit-AllOf r at_time w.fate ms _ (λ key e h. cc)))

-- The dictionary has the miners' keys, in their order, each with an envelope of its miner.
abbrev pub Answers : Round → List MinerEndpoint → Dict MinerSampleEnvelope → Type 0
Answers r [] [] = Unit
Answers r (m ∷ ms) ((key, e) ∷ d) =
    (key ≡ m.key) × (IsSampleOf (subject r m.key) e × Answers r ms d)
Answers r [] (p ∷ d) = ⊥
Answers r (m ∷ ms) [] = ⊥

in_order-Answers :
    (r : Round) (ms : List MinerEndpoint) (d : Dict MinerSampleEnvelope)
    → AllOf r d
    → ((key : String) → Member key (map (λ m. m.key) ms) → is_some (lookup key d) ≡ true)
    → (d' : Dict MinerSampleEnvelope) × ((in_order ms d ≡ some d') × Answers r ms d')
unfolding in_order
in_order-Answers r [] d h k = ([], (refl, tt))
in_order-Answers r (m ∷ ms) d h k =
    let (d', (e, rest)) = in_order-Answers r ms d h (λ key n. k key (inr n)) in
    elim (Option-cases (lookup m.key d)) [
      | inl missing ↦ absurd (none_false (lookup m.key d) missing (k m.key (inl refl)))
      | inr (s, found) ↦ ((m.key, s) ∷ d', (rw (found, e) refl, (refl, (h m.key s found, rest))))
    ]
  where
    none_false : (o : Option MinerSampleEnvelope) → o ≡ none → is_some o ≡ true → ⊥
    none_false o e h = ground arith

guarded-closed :
    (closed twice : Bool) (a : BoundedAcquirer) (x : Outcome × BoundedAcquirer)
    → closed ≡ true
    → guarded closed twice a x ≡ (refused acquirer_closed, a)
guarded-closed closed twice a x h = rw h refl

guarded_twice :
    (closed twice : Bool) (a : BoundedAcquirer) (x : Outcome × BoundedAcquirer)
    → closed ≡ false
    → twice ≡ true
    → guarded closed twice a x ≡ (refused keys_not_unique, a)
guarded_twice closed twice a x h k = rw (h, k) refl

pub guarded_neither :
    (closed twice : Bool) (a : BoundedAcquirer) (x : Outcome × BoundedAcquirer)
    → closed ≡ false
    → twice ≡ false
    → guarded closed twice a x ≡ x
guarded_neither closed twice a x h k = rw (h, k) refl

-- An acquirer that is closed, or given a key twice, refuses and is left as it was. Any other collection
-- returns, whatever the threads, the transport and the clock do, exactly the miners' keys in their
-- order, each with one envelope of its miner and of the epoch and authority asked for, which is VALID
-- only with a rate.
pub collect_lem :
    (c : Conversions) (r : Round) (at_time : ℕ) (w : Meanwhile) (ms : List MinerEndpoint)
    (a : BoundedAcquirer)
    → let keys' = map (λ m. m.key) ms in
      (a.closed ≡ true → collect c r at_time w ms a ≡ (refused acquirer_closed, a))
      × ((a.closed ≡ false
            → has_duplicate keys' ≡ true
            → collect c r at_time w ms a ≡ (refused keys_not_unique, a))
          × (a.closed ≡ false
              → has_duplicate keys' ≡ false
              → (d : Dict MinerSampleEnvelope) × (((collect c r at_time w ms a).0 ≡ collected d)
                  × Answers r ms d)))
unfolding collect
collect_lem c r at_time w ms a =
    let twice = has_duplicate (map (λ m. m.key) ms) in
    let k = settle c r at_time w ms a in
    let result : Outcome × BoundedAcquirer = (or_missing (in_order ms k.envelopes), k.acquirer) in
    (
      guarded-closed a.closed twice a result,
      (
        guarded_twice a.closed twice a result,
        λ still once.
            let (d, (e, answers)) =
              in_order-Answers r ms k.envelopes (settle-AllOf c r at_time w ms a)
                (settle-Has c r at_time w ms a) in
            let run = guarded_neither a.closed twice a result still once in
            (d, (ap (λ p. p.0) run ∙ ap or_missing e, answers)),
      ),
    )
