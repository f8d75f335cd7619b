-- ===== src/Acquisition/Registry.antt =====
-- `InFlightRegistry` in app/acquisition.py: who polls which miner. The lock makes each call one
-- step; clock readings are in millionths of a second.
pub mod Refinement
pub mod Spent
use miner_alerts.Base.{
  ℕ, suc, Bool, true, false, ◌&&◌, Option, none, some, List, [], ◌∷◌, String, eqb, same_text,
  is_some, if◌then◌else◌,
}
use miner_alerts.Base.Dict.{Dict, lookup, insert, erase}

pub data Authority : Type 0 where
  authoritative diagnostic : Authority

abbrev pub same_authority : Authority → Authority → Bool
same_authority authoritative authoritative = true
same_authority diagnostic diagnostic = true
same_authority _ _ = false

pub record InFlightLease : Type 0 where
  pub lease_id : ℕ
  pub miner_key : String
  pub authority : Authority
  pub epoch_id : ℕ
  pub acquired_monotonic : ℕ
  pub deadline_monotonic : ℕ

-- `==` on leases, field by field
unfoldable pub same_lease : InFlightLease → InFlightLease → Bool
same_lease l k =
    eqb l.lease_id k.lease_id
    && (same_text l.miner_key k.miner_key
        && (same_authority l.authority k.authority
            && (eqb l.epoch_id k.epoch_id
                && (eqb l.acquired_monotonic k.acquired_monotonic
                    && eqb l.deadline_monotonic k.deadline_monotonic))))

pub record InFlightRegistry : Type 0 where
  pub leases : Dict InFlightLease
  pub next_id : ℕ

-- `__init__`
abbrev pub new_registry : InFlightRegistry
new_registry = record { leases = []; next_id = 1 }

-- The arguments of `acquire`.
pub record Request : Type 0 where
  pub miner_key : String
  pub authority : Authority
  pub epoch_id : ℕ
  pub acquired_monotonic : ℕ
  pub deadline_monotonic : ℕ

abbrev pub lease_of : ℕ → Request → InFlightLease
lease_of id q = record {
  lease_id = id;
  miner_key = q.miner_key;
  authority = q.authority;
  epoch_id = q.epoch_id;
  acquired_monotonic = q.acquired_monotonic;
  deadline_monotonic = q.deadline_monotonic;
}

unfoldable pub acquire : Request → InFlightRegistry → Option InFlightLease × InFlightRegistry
acquire q r =
    if is_some (lookup q.miner_key r.leases)
    then (none, r)
    else (let lease = lease_of r.next_id q in
        (
          some lease,
          record { leases = insert q.miner_key lease r.leases; next_id = suc r.next_id },
        ))

abbrev pub held_by : InFlightLease → Option InFlightLease → Bool
held_by l none = false
held_by l (some k) = same_lease k l

unfoldable pub release : Option InFlightLease → InFlightRegistry → Bool × InFlightRegistry
unfolding same_lease
release none r = (false, r)
release (some l) r =
    if held_by l (lookup l.miner_key r.leases)
    then (true, record r { leases = erase l.miner_key r.leases })
    else (false, r)

unfoldable pub is_owned : String → InFlightRegistry → Bool
is_owned key r = is_some (lookup key r.leases)

-- The calls of the registry, and what they return.
pub data Call : Type 0 where
  acquires : Request → Call
  releases : Option InFlightLease → Call
  asks : String → Call

pub data Answer : Type 0 where
  lease : Option InFlightLease → Answer
  flag : Bool → Answer

abbrev pub call : Call → InFlightRegistry → Answer × InFlightRegistry
call (acquires q) r = let (l, r') = acquire q r in (lease l, r')
call (releases l) r = let (b, r') = release l r in (flag b, r')
call (asks key) r = (flag (is_owned key r), r)

-- A series of calls, in the order in which they take the lock.
unfoldable pub run : List Call → InFlightRegistry → List Answer × InFlightRegistry
run [] r = ([], r)
run (c ∷ cs) r = let (a, r') = call c r in let (rest, last) = run cs r' in (a ∷ rest, last)
