-- ===== src/Acquisition/Collect/Running.antt =====
-- How many workers of a collection in app/acquisition.py go on after its deadline.
use miner_alerts.Base.{
  ℕ, suc, ◌||◌, any, is_some, sym, ◌≡◌, inl, inr, refl, ap, ◌∙◌, Bool, true, false, not, none, some,
  List, [], ◌∷◌, ◌++◌, String, map, keep, same_text, if◌then◌else◌, ◌+◌, Option-cases, arith,
}
use miner_alerts.Base.Dict.{lookup, insert, lookup-insert}
use miner_alerts.Acquisition.Registry.{InFlightLease, InFlightRegistry, Request, lease_of, acquire}
use miner_alerts.Acquisition.Registry.Refinement.{acquire-free, acquire-busy}
use miner_alerts.Acquisition.Worker.{MinerEndpoint}
use miner_alerts.Acquisition.Collect.{
  Fate, unfinished, is_done, Round, SubmittedRequest, Collection, enlist, submit, has_duplicate,
  working,
}

abbrev pub is_working : Fate → Bool
is_working (unfinished running working) = true
is_working _ = false

abbrev pub add_working : Fate → ℕ → ℕ
add_working fate n = if is_working fate then suc n else n

-- How many of the requests have a worker that goes on.
abbrev pub still_working : List SubmittedRequest → ℕ
still_working [] = 0
still_working (q ∷ qs) = add_working q.future (still_working qs)

pub add_working-plus : (fate : Fate) (n m : ℕ) → add_working fate n + m ≡ n + add_working fate m
add_working-plus fate n m = ground arith

pub still_working-keep :
    (qs : List SubmittedRequest)
    → still_working (keep (λ q. not (is_done q.future)) qs) ≡ still_working qs
still_working-keep [] = refl
still_working-keep (q ∷ qs) = ground (arith, still_working-keep qs)

-- The polls that get a lease, as no other poll has one of their miner, and whose worker goes on.
abbrev pub left_working : InFlightRegistry → (String → Fate) → List MinerEndpoint → ℕ
left_working r fate [] = 0
left_working r fate (m ∷ ms) =
    let rest = left_working r fate ms in
    if is_some (lookup m.key r.leases) then rest else add_working (fate m.key) rest

neither : (b c : Bool) → (b || c) ≡ false → (b ≡ false) × (c ≡ false)
neither b c h = ground arith

left_working-insert :
    (key : String) (v : InFlightLease) (r r' : InFlightRegistry) (fate : String → Fate)
    (ms : List MinerEndpoint)
    → r'.leases ≡ insert key v r.leases
    → any (same_text key) (map (λ m. m.key) ms) ≡ false
    → left_working r' fate ms ≡ left_working r fate ms
left_working-insert key v r r' fate [] e h = refl
left_working-insert key v r r' fate (m ∷ ms) e h =
    let (other, rest) = neither (same_text key m.key) _ h in
    let found : lookup m.key r'.leases ≡ lookup m.key r.leases =
      ap (lookup m.key) e ∙ (lookup-insert key m.key v r.leases ∙ rw other refl) in
    rw (found, left_working-insert key v r r' fate ms e rest) refl

still_working-end :
    (qs : List SubmittedRequest) (q : SubmittedRequest)
    → still_working (qs ++ q ∷ []) ≡ add_working q.future (still_working qs)
still_working-end [] q = refl
still_working-end (p ∷ qs) q = ground (arith, still_working-end qs q)

enlist-working :
    (r : Round) (at_time : ℕ) (fate : String → Fate) (m : MinerEndpoint) (ms : List MinerEndpoint)
    (q : Request) (k : Collection)
    → q.miner_key ≡ m.key
    → any (same_text m.key) (map (λ m. m.key) ms) ≡ false
    → let k' = enlist r at_time fate m (acquire q k.acquirer.leases) k in
      still_working k'.submitted + left_working k'.acquirer.leases fate ms
      ≡ still_working k.submitted + left_working k.acquirer.leases fate (m ∷ ms)
enlist-working r at_time fate m ms q k same new =
    let reg = k.acquirer.leases in
    elim (Option-cases (lookup q.miner_key reg.leases)) [
      | inr (b, busy) ↦
          let held : lookup m.key reg.leases ≡ some b =
            ap (λ key. lookup key reg.leases) (sym same) ∙ busy in
          rw (acquire-busy q reg b busy, held) refl
      | inl free ↦
          let missing : lookup m.key reg.leases ≡ none =
            ap (λ key. lookup key reg.leases) (sym same) ∙ free in
          let new' : any (same_text q.miner_key) (map (λ m. m.key) ms) ≡ false = rw same new in
          let lease = lease_of reg.next_id q in
          let reg' : InFlightRegistry = record {
            leases = insert q.miner_key lease reg.leases;
            next_id = suc reg.next_id;
          } in
          let p : SubmittedRequest = record { endpoint = m; lease = lease; future = fate m.key } in
          rw (acquire-free q reg free, missing)
            (ap (λ n. n + left_working reg' fate ms) (still_working-end k.submitted p)
              ∙ (ap (λ n. add_working (fate m.key) (still_working k.submitted) + n)
                    (left_working-insert q.miner_key lease reg reg' fate ms refl new')
                  ∙ add_working-plus (fate m.key) (still_working k.submitted)
                      (left_working reg fate ms)))
    ]

pub submit-working :
    (r : Round) (at_time : ℕ) (fate : String → Fate) (ms : List MinerEndpoint) (k : Collection)
    → has_duplicate (map (λ m. m.key) ms) ≡ false
    → still_working (submit r at_time fate ms k).submitted
      ≡ still_working k.submitted + left_working k.acquirer.leases fate ms
unfolding submit has_duplicate
submit-working r at_time fate [] k h = omega arith
submit-working r at_time fate (m ∷ ms) k h =
    let (new, once) = neither (any (same_text m.key) (map (λ m. m.key) ms)) _ h in
    submit-working r at_time fate ms _ once ∙ enlist-working r at_time fate m ms _ k refl new
