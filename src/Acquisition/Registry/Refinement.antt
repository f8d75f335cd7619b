-- ===== src/Acquisition/Registry/Refinement.antt =====
-- What `InFlightRegistry` in app/acquisition.py promises: each miner has one owner at most.
use miner_alerts.Base.{
  ℕ, suc, ◌≡◌, refl, ap, ◌∙◌, Bool, true, false, Option, none, some, List, [], ◌∷◌, String,
  same_text, is_some, if◌then◌else◌, arith,
}
use miner_alerts.Base.Dict.{lookup, insert, erase, lookup-insert, lookup-erase}
use miner_alerts.Acquisition.Registry.{
  InFlightLease, InFlightRegistry, new_registry, Request, lease_of, acquire, held_by, release,
  is_owned, Call, acquires, releases, asks, Answer, lease, flag, call, run,
}

-- Who owns each miner, as a function, and how many leases were granted.
pub record Owners : Type 0 where
  pub owner : String → Option InFlightLease
  pub granted : ℕ

abbrev pub nobody : Owners
nobody = record { owner = λ key. none; granted = 0 }

-- The function with one value changed.
abbrev pub assign :
    String → Option InFlightLease → (String → Option InFlightLease) → String → Option InFlightLease
assign key o f at = if same_text key at then o else f at

-- The specification: a free miner is granted under the next number, and only its owner frees it.
abbrev pub grant : Request → Owners → Option InFlightLease → Answer × Owners
grant q s (some k) = (lease none, s)
grant q s none =
    let l = lease_of (suc s.granted) q in
    (
      lease (some l),
      record { owner = assign q.miner_key (some l) s.owner; granted = suc s.granted },
    )

abbrev pub free : InFlightLease → Owners → Bool → Answer × Owners
free l s false = (flag false, s)
free l s true = (flag true, record s { owner = assign l.miner_key none s.owner })

abbrev pub specify : Call → Owners → Answer × Owners
specify (acquires q) s = grant q s (s.owner q.miner_key)
specify (releases none) s = (flag false, s)
specify (releases (some l)) s = free l s (held_by l (s.owner l.miner_key))
specify (asks key) s = (flag (is_some (s.owner key)), s)

abbrev pub specify_all : List Call → Owners → List Answer
specify_all [] s = []
specify_all (c ∷ cs) s = let (a, s') = specify c s in a ∷ specify_all cs s'

-- The registry reads as the function.
pub record IsImage (r : InFlightRegistry) (s : Owners) : Type 0 where
  pub reads : (key : String) → lookup key r.leases ≡ s.owner key
  pub counts : r.next_id ≡ suc s.granted

pub acquire-free :
    (q : Request) (r : InFlightRegistry)
    → lookup q.miner_key r.leases ≡ none
    → acquire q r ≡ (
      some (lease_of r.next_id q),
      record {
        leases = insert q.miner_key (lease_of r.next_id q) r.leases;
        next_id = suc r.next_id;
      },
    )
unfolding acquire
acquire-free q r e = rw e refl

pub acquire-busy :
    (q : Request) (r : InFlightRegistry) (k : InFlightLease)
    → lookup q.miner_key r.leases ≡ some k
    → acquire q r ≡ (none, r)
unfolding acquire
acquire-busy q r k e = rw e refl

pub release-held :
    (l : InFlightLease) (r : InFlightRegistry) (o : Option InFlightLease)
    → lookup l.miner_key r.leases ≡ o
    → release (some l) r ≡ (
        if held_by l o
        then (true, record r { leases = erase l.miner_key r.leases })
        else (false, r))
unfolding release
release-held l r o e = rw e refl

-- One call answers as the specification and keeps the image.
abbrev Agrees : Answer × InFlightRegistry → Answer × Owners → Type 0
Agrees (a, r) (b, s) = (a ≡ b) × IsImage r s

acquire-Agrees :
    (q : Request) (r : InFlightRegistry) (s : Owners) (o : Option InFlightLease)
    → IsImage r s
    → lookup q.miner_key r.leases ≡ o
    → Agrees (call (acquires q) r) (grant q s o)
acquire-Agrees q r s (some k) h e = rw (acquire-busy q r k e) (refl, h)
acquire-Agrees q r s none h e = rw (acquire-free q r e) (
  ap (λ n. lease (some (lease_of n q))) h.counts,
  record {
    reads = λ at.
        ground (
          arith,
          lookup-insert q.miner_key at (lease_of r.next_id q) r.leases,
          h.reads at,
          h.counts,
        );
    counts = ap suc h.counts;
  },
)

release-Agrees :
    (l : InFlightLease) (r : InFlightRegistry) (s : Owners) (b : Bool)
    → IsImage r s
    → release (some l) r
      ≡ (if b then (true, record r { leases = erase l.miner_key r.leases }) else (false, r))
    → Agrees (call (releases (some l)) r) (free l s b)
release-Agrees l r s false h e = rw e (refl, h)
release-Agrees l r s true h e = rw e (
  refl,
  record {
    reads = λ at. ground (arith, lookup-erase l.miner_key at r.leases, h.reads at);
    counts = h.counts;
  },
)

call-Agrees :
    (c : Call) (r : InFlightRegistry) (s : Owners) → IsImage r s → Agrees (call c r) (specify c s)
unfolding release is_owned
call-Agrees (acquires q) r s h = acquire-Agrees q r s (s.owner q.miner_key) h (h.reads q.miner_key)
call-Agrees (releases none) r s h = (refl, h)
call-Agrees (releases (some l)) r s h =
    release-Agrees l r s (held_by l (s.owner l.miner_key)) h
      (release-held l r (s.owner l.miner_key) (h.reads l.miner_key))
call-Agrees (asks key) r s h = (ap (λ o. flag (is_some o)) (h.reads key), h)

run-specify :
    (cs : List Call) (r : InFlightRegistry) (s : Owners)
    → IsImage r s
    → (run cs r).0 ≡ specify_all cs s
unfolding run
run-specify [] r s h = refl
run-specify (c ∷ cs) r s h =
    let (same, image) = call-Agrees c r s h in
    let rest = run-specify cs (call c r).1 (specify c s).1 image in
    ap (λ a. a ∷ (run cs (call c r).1).0) same ∙ ap (λ as'. (specify c s).0 ∷ as') rest

-- Over any series of calls from an empty registry, every answer is the one that the specification
-- gives: a free miner's lease under the next number, none for a miner with an owner, and a release
-- that succeeds exactly for the owner.
pub run_refines : (cs : List Call) → (run cs new_registry).0 ≡ specify_all cs nobody
unfolding lookup
run_refines cs = run-specify cs new_registry nobody (record { reads = λ key. refl; counts = refl })
