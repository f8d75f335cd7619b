-- ===== src/Acquisition/Registry/Spent.antt =====
-- What a lease of app/acquisition.py can do after it has been given back.
use miner_alerts.Base.{
  ℕ, ◌<◌, ◌≡◌, ◌≢◌, inl, inr, refl, ap, true, false, Option, none, some, List, [], ◌∷◌,
  same_text_iff, Bool-cases, Option-cases, arith,
}
use miner_alerts.Base.Dict.{lookup, lookup-insert, lookup-erase}
use miner_alerts.Acquisition.Registry.{
  InFlightLease, same_lease, InFlightRegistry, Request, lease_of, acquire, held_by, release, Call,
  acquires, releases, asks, run,
}
use miner_alerts.Acquisition.Registry.Refinement.{acquire-free, acquire-busy}

-- A lease that was granted and is not held any more.
abbrev pub IsSpent : InFlightLease → InFlightRegistry → Type 0
IsSpent l r = (l.lease_id < r.next_id) × (lookup l.miner_key r.leases ≢ some l)

same_lease-eq : (l k : InFlightLease) → same_lease l k ≡ true → l ≡ k
unfolding same_lease
same_lease-eq l k h = ground (arith, same_text_iff l.miner_key k.miner_key)

new-different :
    (l : InFlightLease) (q : Request) (n : ℕ) → l.lease_id < n → some (lease_of n q) ≢ some l
new-different l q n le e = ground arith

acquires-IsSpent :
    (l : InFlightLease) (q : Request) (r : InFlightRegistry)
    → IsSpent l r
    → IsSpent l (acquire q r).1
acquires-IsSpent l q r (le, spent) = elim (Option-cases (lookup q.miner_key r.leases)) [
  | inr (k, e) ↦ rw (acquire-busy q r k e) (le, spent)
  | inl e ↦ rw (acquire-free q r e) (
    omega (arith, le),
    λ d. ground (
      arith,
      lookup-insert q.miner_key l.miner_key (lease_of r.next_id q) r.leases,
      new-different l q r.next_id le,
      d,
      spent,
    ),
  )
]

releases-IsSpent :
    (l : InFlightLease) (k : Option InFlightLease) (r : InFlightRegistry)
    → IsSpent l r
    → IsSpent l (release k r).1
unfolding release
releases-IsSpent l none r h = h
releases-IsSpent l (some k) r (le, spent) =
    elim (Bool-cases (held_by k (lookup k.miner_key r.leases))) [
      | inl e ↦
          rw e (le, λ d. ground (arith, lookup-erase k.miner_key l.miner_key r.leases, d, spent))
      | inr e ↦ rw e (le, spent)
    ]

run-IsSpent :
    (cs : List Call) (l : InFlightLease) (r : InFlightRegistry)
    → IsSpent l r
    → IsSpent l (run cs r).1
unfolding run
run-IsSpent [] l r h = h
run-IsSpent (acquires q ∷ cs) l r h = run-IsSpent cs l _ (acquires-IsSpent l q r h)
run-IsSpent (releases k ∷ cs) l r h = run-IsSpent cs l _ (releases-IsSpent l k r h)
run-IsSpent (asks key ∷ cs) l r h = run-IsSpent cs l r h

held_by-eq : (l : InFlightLease) (o : Option InFlightLease) → held_by l o ≡ true → o ≡ some l
held_by-eq l none h = cc
held_by-eq l (some k) h = ap some (same_lease-eq k l h)

-- A lease with a number below the next one that its miner does not hold can free nothing, whatever
-- calls come after: its release returns False and leaves the registry as it is.
pub spent_release_refused :
    (cs : List Call) (l : InFlightLease) (r : InFlightRegistry)
    → IsSpent l r
    → release (some l) (run cs r).1 ≡ (false, (run cs r).1)
unfolding release
spent_release_refused cs l r h =
    let r' = (run cs r).1 in
    let (le, spent) = run-IsSpent cs l r h in
    elim (Bool-cases (held_by l (lookup l.miner_key r'.leases))) [
      | inl e ↦ absurd (spent (held_by-eq l (lookup l.miner_key r'.leases) e))
      | inr e ↦ rw e refl
    ]
