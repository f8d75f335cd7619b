-- ===== src/Acquisition/Dispatch.antt =====
-- `dispatch_authoritative` in app/acquisition.py, for a consumer that changes a state.
pub mod Applied
use miner_alerts.Base.{ℕ, suc, Bool, true, false, ◌&&◌, not, List, [], ◌∷◌, if◌then◌else◌}
use miner_alerts.Acquisition.Registry.{Authority, authoritative, diagnostic}
use miner_alerts.Acquisition.Sample.{Quality, late, MinerSampleEnvelope}

abbrev pub is_authoritative : Authority → Bool
is_authoritative authoritative = true
is_authoritative diagnostic = false

abbrev pub is_late : Quality → Bool
is_late late = true
is_late _ = false

-- What the loop does not skip.
abbrev pub applies : MinerSampleEnvelope → Bool
applies e = is_authoritative e.authority && not (is_late e.quality)

unfoldable pub dispatch_authoritative {ℓ} :
    {S : Type ℓ} → List MinerSampleEnvelope → (MinerSampleEnvelope → S → S) → S → ℕ × S
dispatch_authoritative [] consumer s = (0, s)
dispatch_authoritative (e ∷ es) consumer s =
    let (applied, t) = dispatch_authoritative es consumer (if applies e then consumer e s else s) in
    (if applies e then suc applied else applied, t)
