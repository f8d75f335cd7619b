-- ===== src/Acquisition/Collect/Covered.antt =====
-- That the collections in app/acquisition.py give each miner its one envelope.
use miner_alerts.Base.{
  ℕ, ◌≡◌, ◌⊎◌, inl, inr, refl, sym, subst, ap, Bool, true, false, not, Option, none, some, List, [],
  ◌∷◌, ◌++◌, String, map, keep, is_some, same_text_iff, Member, keep-Member, Bool-cases, arith,
}
use miner_alerts.Base.Dict.{Dict, lookup, insert, lookup-insert}
use miner_alerts.Acquisition.Registry.{InFlightLease, InFlightRegistry}
use miner_alerts.Base.Json.{Conversions}
use miner_alerts.Acquisition.Sample.{MinerSampleEnvelope}
use miner_alerts.Acquisition.Worker.{MinerEndpoint, BoundedAcquirer, acquire_one}
use miner_alerts.Acquisition.Collect.{
  Meanwhile, end_others, Fate, finished, raised, unfinished, is_done, Round, SubmittedRequest,
  Collection, enlist, submit, settle_done, settle_late, settle_all_done, settle_all_late, settle,
}

-- There is an envelope under the key.
abbrev Has : String → Dict MinerSampleEnvelope → Type 0
Has key d = is_some (lookup key d) ≡ true

insert-Has :
    (key at : String) (e : MinerSampleEnvelope) (d : Dict MinerSampleEnvelope)
    → (at ≡ key) ⊎ Has at d
    → Has at (insert key e d)
insert-Has key at e d (inl same) =
    ground (arith, lookup-insert key at e d, same_text_iff key at, sym same)
insert-Has key at e d (inr h) = ground (arith, lookup-insert key at e d, h)

settle_done-Has :
    (c : Conversions) (r : Round) (q : SubmittedRequest) (fate : Fate) (k : Collection)
    (at : String)
    → ((at ≡ q.endpoint.key) × (is_done fate ≡ true)) ⊎ Has at k.envelopes
    → Has at (settle_done c r q fate k).envelopes
unfolding settle_done acquire_one
settle_done-Has c r q (finished job) k at (inl h) =
    insert-Has q.endpoint.key at _ k.envelopes (inl h.0)
settle_done-Has c r q (finished job) k at (inr h) =
    insert-Has q.endpoint.key at _ k.envelopes (inr h)
settle_done-Has c r q (raised t) k at (inl h) = insert-Has q.endpoint.key at _ k.envelopes (inl h.0)
settle_done-Has c r q (raised t) k at (inr h) = insert-Has q.endpoint.key at _ k.envelopes (inr h)
settle_done-Has c r q (unfinished running p) k at (inl h) = cc
settle_done-Has c r q (unfinished running p) k at (inr h) = h

settle_late-Has :
    (r : Round) (q : SubmittedRequest) (fate : Fate) (k : Collection) (at : String)
    → ((at ≡ q.endpoint.key) × (is_done fate ≡ false)) ⊎ Has at k.envelopes
    → Has at (settle_late r q fate k).envelopes
unfolding settle_late
settle_late-Has r q (unfinished running p) k at (inl h) =
    insert-Has q.endpoint.key at _ k.envelopes (inl h.0)
settle_late-Has r q (unfinished running p) k at (inr h) =
    insert-Has q.endpoint.key at _ k.envelopes (inr h)
settle_late-Has r q (finished job) k at (inl h) = cc
settle_late-Has r q (finished job) k at (inr h) = h
settle_late-Has r q (raised t) k at (inl h) = cc
settle_late-Has r q (raised t) k at (inr h) = h

-- A submitted request for the miner, which is done or not.
abbrev Listed : String → Bool → List SubmittedRequest → Type 0
Listed at done qs =
    (q : SubmittedRequest) × (Member q qs × ((at ≡ q.endpoint.key) × (is_done q.future ≡ done)))

settle_all_done-Has :
    (c : Conversions) (r : Round) (qs : List SubmittedRequest) (k : Collection) (at : String)
    → Listed at true qs ⊎ Has at k.envelopes
    → Has at (settle_all_done c r qs k).envelopes
unfolding settle_all_done
settle_all_done-Has c r [] k at (inl h) = absurd h.1.0
settle_all_done-Has c r [] k at (inr h) = h
settle_all_done-Has c r (q ∷ qs) k at (inl (p, (inl e, h))) =
    settle_all_done-Has c r qs (settle_done c r q q.future k) at (
      inr (
        settle_done-Has c r q q.future k at
          (inl (subst (λ x. (at ≡ x.endpoint.key) × (is_done x.future ≡ true)) e h))))
settle_all_done-Has c r (q ∷ qs) k at (inl (p, (inr m, h))) =
    settle_all_done-Has c r qs (settle_done c r q q.future k) at (inl (p, (m, h)))
settle_all_done-Has c r (q ∷ qs) k at (inr h) =
    settle_all_done-Has c r qs (settle_done c r q q.future k) at
      (inr (settle_done-Has c r q q.future k at (inr h)))

settle_all_late-Has :
    (r : Round) (qs : List SubmittedRequest) (k : Collection) (at : String)
    → Listed at false qs ⊎ Has at k.envelopes
    → Has at (settle_all_late r qs k).envelopes
unfolding settle_all_late
settle_all_late-Has r [] k at (inl h) = absurd h.1.0
settle_all_late-Has r [] k at (inr h) = h
settle_all_late-Has r (q ∷ qs) k at (inl (p, (inl e, h))) =
    settle_all_late-Has r qs (settle_late r q q.future k) at (
      inr (
        settle_late-Has r q q.future k at
          (inl (subst (λ x. (at ≡ x.endpoint.key) × (is_done x.future ≡ false)) e h))))
settle_all_late-Has r (q ∷ qs) k at (inl (p, (inr m, h))) =
    settle_all_late-Has r qs (settle_late r q q.future k) at (inl (p, (m, h)))
settle_all_late-Has r (q ∷ qs) k at (inr h) =
    settle_all_late-Has r qs (settle_late r q q.future k) at
      (inr (settle_late-Has r q q.future k at (inr h)))

-- The miner has its envelope or a submitted request.
abbrev Covered : String → Collection → Type 0
Covered at k =
    Has at k.envelopes ⊎ ((q : SubmittedRequest) × (Member q k.submitted × (at ≡ q.endpoint.key)))

Member-left :
    (q : SubmittedRequest) (qs ps : List SubmittedRequest) → Member q qs → Member q (qs ++ ps)
Member-left q [] ps m = absurd m
Member-left q (p ∷ qs) ps (inl e) = inl e
Member-left q (p ∷ qs) ps (inr m) = inr (Member-left q qs ps m)

Member-end : (q : SubmittedRequest) (qs : List SubmittedRequest) → Member q (qs ++ q ∷ [])
Member-end q [] = inl refl
Member-end q (p ∷ qs) = inr (Member-end q qs)

enlist-Covered :
    (r : Round) (at_time : ℕ) (fate : String → Fate) (m : MinerEndpoint)
    (got : Option InFlightLease × InFlightRegistry) (k : Collection) (at : String)
    → (at ≡ m.key) ⊎ Covered at k
    → Covered at (enlist r at_time fate m got k)
enlist-Covered r at_time fate m (none, ls) k at (inl e) =
    inl (insert-Has m.key at _ k.envelopes (inl e))
enlist-Covered r at_time fate m (none, ls) k at (inr (inl h)) =
    inl (insert-Has m.key at _ k.envelopes (inr h))
enlist-Covered r at_time fate m (none, ls) k at (inr (inr h)) = inr h
enlist-Covered r at_time fate m (some lease, ls) k at (inl e) =
    inr (_, (Member-end _ k.submitted, e))
enlist-Covered r at_time fate m (some lease, ls) k at (inr (inl h)) = inl h
enlist-Covered r at_time fate m (some lease, ls) k at (inr (inr (q, (n, e)))) =
    inr (q, (Member-left q k.submitted _ n, e))

submit-Covered :
    (r : Round) (at_time : ℕ) (fate : String → Fate) (ms : List MinerEndpoint) (k : Collection)
    (at : String)
    → Member at (map (λ m. m.key) ms) ⊎ Covered at k
    → Covered at (submit r at_time fate ms k)
unfolding submit
submit-Covered r at_time fate [] k at (inl h) = absurd h
submit-Covered r at_time fate [] k at (inr h) = h
submit-Covered r at_time fate (m ∷ ms) k at (inl (inl e)) =
    submit-Covered r at_time fate ms _ at (inr (enlist-Covered r at_time fate m _ k at (inl e)))
submit-Covered r at_time fate (m ∷ ms) k at (inl (inr h)) =
    submit-Covered r at_time fate ms _ at (inl h)
submit-Covered r at_time fate (m ∷ ms) k at (inr h) =
    submit-Covered r at_time fate ms _ at (inr (enlist-Covered r at_time fate m _ k at (inr h)))

-- Every miner that is polled has an envelope in the end.
pub settle-Has :
    (c : Conversions) (r : Round) (at_time : ℕ) (w : Meanwhile) (ms : List MinerEndpoint)
    (a : BoundedAcquirer) (at : String)
    → Member at (map (λ m. m.key) ms)
    → is_some (lookup at (settle c r at_time w ms a).envelopes) ≡ true
unfolding settle
settle-Has c r at_time w ms a at m =
    let start : Collection = record { envelopes = []; submitted = []; acquirer = a } in
    let k = submit r at_time w.fate ms start in
    let k1 = record k { acquirer = end_others w.others_ended k.acquirer } in
    let late_ones = keep (λ q. not (is_done q.future)) k.submitted in
    let done_ones = keep (λ q. is_done q.future) k.submitted in
    elim (submit-Covered r at_time w.fate ms start at (inl m)) [
      | inl h ↦
          settle_all_late-Has r late_ones _ at
            (inr (settle_all_done-Has c r done_ones k1 at (inr h)))
      | inr (q, (n, e)) ↦ elim (Bool-cases (is_done q.future)) [
        | inl done ↦ settle_all_late-Has r late_ones _ at (
            inr (
              settle_all_done-Has c r done_ones k1 at
                (inl (q, (keep-Member (λ q. is_done q.future) k.submitted q n done, (e, done))))))
        | inr undone ↦ settle_all_late-Has r late_ones _ at (
            inl (
              q,
              (
                keep-Member (λ q. not (is_done q.future)) k.submitted q n (ap not undone),
                (e, undone),
              ),
            ))
      ]
    ]
