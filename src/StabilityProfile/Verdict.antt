-- ===== src/StabilityProfile/Verdict.antt =====
-- What the four verdicts of app/stability_profile.py mean.
use miner_alerts.Base.{
  ℕ, ◌≤◌, ◌<◌, ◌≡◌, ◌↔◌, refl, Bool, true, false, ◌&&◌, not, Option, List, [], ◌∷◌, ◌++◌, length,
  keep, is_some, arith,
}
use miner_alerts.Base.Int.{ℤ}
use miner_alerts.Base.Float.{Float}
use miner_alerts.Base.Value.{finite_number}
use miner_alerts.StabilityProfile.Bands.{
  Sample, as_bool, boards_missing, baseline_eligible, rate, temperature, voltage, power, frequency,
  Numerics,
}
use miner_alerts.StabilityProfile.Analyze.{
  Status, learning, stable, critical, Reason, stale_sample, no_response, state_offline, state_low,
  state_hashboard, board_missing, high_temperature, rate_notes, state_recovery_hysteresis,
  rate_below_baseline, temperature_above_baseline, chain_voltage_drift, power_drift,
  frequency_drift, Bands, Limits, safe_min_samples, safe_stale, safe_high_temperature, newest_first,
  age, note, is_stale, is_hot, state_is, rate_low, hard_reasons, below_band, above_band, off_band,
  observed, watch_reasons, judge, bands_of, assess, analyze_stability,
}

-- The sample is fresh, was answered with a rate that is not under its threshold, has all boards and is
-- not hot.
pub record IsSound (s : Sample) (aged : Option ℕ) (stale_limit hot_limit : Float) : Type 0 where
  pub fresh : is_stale stale_limit aged ≡ false
  pub answered : as_bool s.responded ≡ true
  pub rated : is_some (finite_number s.rate_ths) ≡ true
  pub rate_enough : rate_low s ≡ false
  pub boards : boards_missing s ≡ false
  pub cool : is_hot hot_limit (finite_number s.max_temp_c) ≡ false

note-nil :
    (b : Bool) (r : Reason) (rs : List Reason) → note b r ++ rs ≡ [] → (b ≡ false) × (rs ≡ [])
note-nil true r rs h = cc
note-nil false r rs h = (refl, h)

append-nil_parts : (rs ss : List Reason) → rs ++ ss ≡ [] → (rs ≡ []) × (ss ≡ [])
append-nil_parts [] ss h = (refl, h)
append-nil_parts (r ∷ rs) ss h = cc

last_note : (b : Bool) (r : Reason) → note b r ≡ [] → b ≡ false
last_note true r h = cc
last_note false r h = refl

hard_reasons-IsSound :
    (s : Sample) (aged : Option ℕ) (stale_limit hot_limit : Float)
    → hard_reasons s aged stale_limit hot_limit ≡ []
    → IsSound s aged stale_limit hot_limit
unfolding hard_reasons
hard_reasons-IsSound s aged stale_limit hot_limit h =
    let (a, h1) = note-nil (is_stale stale_limit aged) stale_sample _ h in
    let (b, h2) = note-nil (not (as_bool s.responded)) no_response _ h1 in
    let (c, h3) = note-nil (not (as_bool s.responded) && state_is s "OFFLINE") state_offline _ h2 in
    let (d, h4) = note-nil (state_is s "LOW" && rate_low s) state_low _ h3 in
    let (e, h5) = append-nil_parts (rate_notes s) _ h4 in
    let (f, h6) = note-nil (boards_missing s && state_is s "HASHBOARD") state_hashboard _ h5 in
    let (g, h7) = note-nil (boards_missing s) board_missing _ h6 in
    record {
      fresh = a;
      answered = ground (arith, b);
      rated = ground (arith, b, e);
      rate_enough = ground (arith, e);
      boards = g;
      cool = last_note (is_hot hot_limit (finite_number s.max_temp_c)) high_temperature h7;
    }

IsSound-hard_reasons :
    (s : Sample) (aged : Option ℕ) (stale_limit hot_limit : Float)
    → IsSound s aged stale_limit hot_limit
    → hard_reasons s aged stale_limit hot_limit ≡ []
unfolding hard_reasons
IsSound-hard_reasons s aged stale_limit hot_limit q =
    ground (arith, q.fresh, q.answered, q.rated, q.rate_enough, q.boards, q.cool)

-- The newest sample is in state OK, and each measured value lies in its band, if there is one.
pub record IsUsual (s : Sample) (b : Bands) : Type 0 where
  pub state : state_is s "OK" ≡ true
  pub hash : below_band (observed rate s) b.rate_band ≡ false
  pub heat : above_band (observed temperature s) b.temperature_band ≡ false
  pub volts : off_band (observed voltage s) b.voltage_band ≡ false
  pub watts : off_band (observed power s) b.power_band ≡ false
  pub clock : off_band (observed frequency s) b.frequency_band ≡ false

watch_reasons-IsUsual : (s : Sample) (b : Bands) → watch_reasons s b ≡ [] → IsUsual s b
unfolding watch_reasons
watch_reasons-IsUsual s b h =
    let (p, h1) = note-nil (not (state_is s "OK")) state_recovery_hysteresis _ h in
    let (q, h2) = note-nil (below_band (observed rate s) b.rate_band) rate_below_baseline _ h1 in
    let (t, h3) =
      note-nil (above_band (observed temperature s) b.temperature_band) temperature_above_baseline _
        h2 in
    let (v, h4) =
      note-nil (off_band (observed voltage s) b.voltage_band) chain_voltage_drift _ h3 in
    let (w, h5) = note-nil (off_band (observed power s) b.power_band) power_drift _ h4 in
    record {
      state = ground (arith, p);
      hash = q;
      heat = t;
      volts = v;
      watts = w;
      clock = last_note (off_band (observed frequency s) b.frequency_band) frequency_drift h5;
    }

IsUsual-watch_reasons : (s : Sample) (b : Bands) → IsUsual s b → watch_reasons s b ≡ []
unfolding watch_reasons
IsUsual-watch_reasons s b u = rw (u.state, u.hash, u.heat, u.volts, u.watts, u.clock) refl

judge_iff :
    (rs ws : List Reason) (n required : ℕ)
    → (((judge rs ws n required).0 ≡ critical) ↔ (rs ≡ [] → ⊥))
      × ((((judge rs ws n required).0 ≡ learning) ↔ ((rs ≡ []) × (n < required)))
          × (((judge rs ws n required).0 ≡ stable) ↔ ((rs ≡ []) × ((required ≤ n) × (ws ≡ [])))))
judge_iff (r ∷ rs) ws n required =
    ((λ h e. cc, λ h. refl), ((λ h. cc, λ h. cc), (λ h. cc, λ h. cc)))
judge_iff [] [] n required = (
  (λ h. ground arith, λ h. absurd (h refl)),
  ((λ h. ground arith, λ h. ground arith), (λ h. ground arith, λ h. ground arith)),
)
judge_iff [] (w ∷ ws) n required = (
  (λ h. ground arith, λ h. absurd (h refl)),
  ((λ h. ground arith, λ h. ground arith), (λ h. ground arith, λ h. cc)),
)

-- The newest sample at a time, under the limits.
abbrev pub SoundAt : Limits → ℤ → Sample → Type 0
SoundAt l now s =
    IsSound s (age now (finite_number s.observed_ts)) (safe_stale l) (safe_high_temperature l)

abbrev pub healthy : List Sample → List Sample
healthy rows = keep baseline_eligible rows

module _ (numerics : Numerics) (ratio4 : ℕ → ℕ → ℕ) where
  -- What each verdict means for the samples, the newest first.
  abbrev pub Verdicts : Limits → ℤ → List Sample → Status → Type 0
  Verdicts l now [] v = v ≡ learning
  Verdicts l now (s ∷ rows) v =
      ((v ≡ critical) ↔ (SoundAt l now s → ⊥))
      × (((v ≡ learning) ↔ (SoundAt l now s × (length (healthy rows) < safe_min_samples l)))
          × ((v ≡ stable) ↔ (
              SoundAt l now s
              × ((safe_min_samples l ≤ length (healthy rows))
                  × IsUsual s (bands_of numerics ratio4 (healthy rows))))))

  assess-Verdicts :
      (l : Limits) (now : ℤ) (rows : List Sample)
      → Verdicts l now rows (assess numerics ratio4 l now rows).status
  unfolding assess
  assess-Verdicts l now [] = refl
  assess-Verdicts l now (s ∷ rows) =
      let aged = age now (finite_number s.observed_ts) in
      let stale_limit = safe_stale l in
      let hot_limit = safe_high_temperature l in
      let bands = bands_of numerics ratio4 (healthy rows) in
      let (c, (k, t)) =
        judge_iff (hard_reasons s aged stale_limit hot_limit) (watch_reasons s bands)
          (length (healthy rows)) (safe_min_samples l) in
      let to = hard_reasons-IsSound s aged stale_limit hot_limit in
      let from = IsSound-hard_reasons s aged stale_limit hot_limit in
      (
        (λ h q. c.0 h (from q), λ h. c.1 (λ e. h (to e))),
        (
          (λ h. let (e, lt) = k.0 h in (to e, lt), λ h. k.1 (from h.0, h.1)),
          (
            λ h. let (e, (le, w)) = t.0 h in (to e, (le, watch_reasons-IsUsual s bands w)),
            λ h. t.1 (from h.0, (h.1.0, IsUsual-watch_reasons s bands h.1.1)),
          ),
        ),
      )

  -- Whatever floats do to the bands, with the samples from the newest on: without a sample the verdict
  -- is LEARNING. Otherwise it is CRITICAL exactly when the newest sample is not fresh, answered, with a
  -- rate not under its threshold, with all boards and not hot; LEARNING exactly when it is so sound
  -- but fewer than the required number of the other samples are healthy; and STABLE exactly when it is
  -- sound, enough others are healthy, its state is OK and its values lie in the bands of these.
  pub analyze_stability-Verdicts :
      (l : Limits) (now : ℤ) (samples : List Sample)
      → Verdicts l now
          (newest_first samples)
          (analyze_stability numerics ratio4 l now samples).status
  unfolding analyze_stability
  analyze_stability-Verdicts l now samples = assess-Verdicts l now (newest_first samples)
