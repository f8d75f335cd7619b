-- ===== src/Acquisition/Dispatch/Applied.antt =====
-- Which envelopes `dispatch_authoritative` in app/acquisition.py gives to the consumer.
use miner_alerts.Base.{suc, ◌≡◌, refl, inl, inr, ap, List, [], ◌∷◌, keep, length, Bool-cases}
use miner_alerts.Acquisition.Sample.{MinerSampleEnvelope}
use miner_alerts.Acquisition.Dispatch.{applies, dispatch_authoritative}

-- The consumer over a list, from its first element on.
abbrev pub consume {ℓ} :
    {S : Type ℓ} → (MinerSampleEnvelope → S → S) → List MinerSampleEnvelope → S → S
consume consumer [] s = s
consume consumer (e ∷ es) s = consume consumer es (consumer e s)

-- Dispatch gives the consumer exactly the authoritative envelopes that are not LATE, each once and in
-- their order, and returns their number.
pub dispatch_authoritative_lem {ℓ} :
    {S : Type ℓ} (es : List MinerSampleEnvelope) (consumer : MinerSampleEnvelope → S → S) (s : S)
    → dispatch_authoritative es consumer s
      ≡ (length (keep applies es), consume consumer (keep applies es) s)
unfolding dispatch_authoritative
dispatch_authoritative_lem [] consumer s = refl
dispatch_authoritative_lem (e ∷ es) consumer s = elim (Bool-cases (applies e)) [
  | inl h ↦ rw h (ap (λ p. (suc p.0, p.1)) (dispatch_authoritative_lem es consumer (consumer e s)))
  | inr h ↦ rw h (dispatch_authoritative_lem es consumer s)
]
