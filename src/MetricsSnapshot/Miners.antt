-- ===== src/MetricsSnapshot/Miners.antt =====
-- The miners' part of a snapshot of app/metrics_snapshot.py, checked and read back.
use miner_alerts.Base.{
  ℕ, suc, ◌≡◌, refl, sym, subst, ap, ◌∙◌, inl, inr, Bool, true, false, not, Option, none, some,
  List, [], ◌∷◌, String, Bool-cases, if◌then◌else◌, arith,
}
use miner_alerts.Base.Int.{ℤ}
use miner_alerts.Base.Json.{
  Json, null, boolean, integer, real, text, list, dict, Items, end, item, Entries, get, truth,
}
use miner_alerts.MetricsSnapshot.Schema.{
  MinerMetrics, miner_dict, miner_items, optional_float, optional_integer, one_of, miner_states,
  acquisition_qualities,
}
use miner_alerts.MetricsSnapshot.Validate.{
  MinerField, field, or_default, or_bad, miner_not_dict, miner_invalid_id, dict_of, Checked, good,
  bad, raised, ◌>>=◌, Reason, Texts, number, is_positive, optional_number, optional_int_of,
  member_of, assemble_miner, read_fields, miner_invalid, rate, latency, require, id_of, refused_id,
  read_miner, read_miners,
}

-- Of two steps that end well, both do.
pub bind-good {ℓ κ} :
    {A : Type ℓ} {B : Type κ} (c : Checked A) (f : A → Checked B) (b : B)
    → (c >>= f) ≡ good b
    → (a : A) × ((c ≡ good a) × (f a ≡ good b))
bind-good (good a) f b h = (a, (refl, h))
bind-good (bad r) f b h = absurd (bad_not_good h)
  where
    bad_not_good : {r : Reason} → bad r ≡ good b → ⊥
    bad_not_good e = cc
bind-good raised f b h = absurd (raised_not_good h)
  where
    raised_not_good : raised ≡ good b → ⊥
    raised_not_good e = cc

-- What a miner that was read has.
pub record IsMiner (m : MinerMetrics) : Type 0 where
  pub known_state : one_of miner_states m.state ≡ true
  pub known_quality : one_of acquisition_qualities m.acquisition_quality ≡ true
  pub boards : is_positive m.expected_boards ≡ true

pub optional_number_back :
    (r : Reason) (o : Option ℤ) → optional_number r (optional_float o) ≡ good o
unfolding number
optional_number_back r none = refl
optional_number_back r (some z) = refl

optional_int_of_back : (r : Reason) (o : Option ℤ) → optional_int_of r (optional_integer o) ≡ good o
optional_int_of_back r none = refl
optional_int_of_back r (some z) = refl

pub read_fields_back :
    (m : MinerMetrics) → IsMiner m → read_fields m.miner_id (miner_dict m) ≡ good m
unfolding read_fields assemble_miner miner_dict get number truth
read_fields_back m h =
    rw
      (
        h.known_state,
        h.known_quality,
        optional_number_back (miner_invalid m.miner_id rate) m.rate_ths,
        optional_int_of_back,
        h.boards,
        optional_number_back (miner_invalid m.miner_id latency) m.acquisition_latency_seconds,
      )
      refl

assemble_miner-good :
    (id : String) (c1 : Checked ℤ) (c2 c3 : Checked String) (c4 : Checked (Option ℤ))
    (c5 : Checked ℤ) (c6 : Checked (Option ℤ)) (c7 : Checked ℤ) (c8 : Checked ℤ)
    (c9 : Checked (Option ℤ)) (answered episode : Bool) (m : MinerMetrics)
    → assemble_miner id c1 c2 c3 c4 c5 c6 c7 c8 c9 answered episode ≡ good m
    → (c2 ≡ good m.state)
      × ((c3 ≡ good m.acquisition_quality)
          × ((is_positive m.expected_boards ≡ true) × (m.miner_id ≡ id)))
unfolding assemble_miner
assemble_miner-good id c1 c2 c3 c4 c5 c6 c7 c8 c9 answered episode m h = ground arith

one_of-good :
    (ts : List String) (r : Reason) (s t : String)
    → (if one_of ts s then good s else bad r) ≡ good t
    → one_of ts t ≡ true
one_of-good ts r s t h = elim (Bool-cases (one_of ts s)) [
  | inl e ↦ subst (λ x. one_of ts x ≡ true) (good_injective s t (sym (in_set e) ∙ h)) e
  | inr e ↦ absurd (bad_not_good r t (sym (out_of_set e) ∙ h))
]
  where
    in_set : one_of ts s ≡ true → (if one_of ts s then good s else bad r) ≡ good s
    in_set e = rw e refl

    out_of_set : one_of ts s ≡ false → (if one_of ts s then good s else bad r) ≡ bad r
    out_of_set e = rw e refl

    good_injective : (a b : String) → good a ≡ good b → a ≡ b
    good_injective a b e = cc

    bad_not_good : (q : Reason) (b : String) → bad q ≡ good b → ⊥
    bad_not_good q b e = cc

pub member_of-good :
    (ts : List String) (r : Reason) (v : Json) (t : String)
    → member_of ts r v ≡ good t
    → one_of ts t ≡ true
member_of-good ts r (text s) t h = one_of-good ts r s t h
member_of-good ts r null t h = cc
member_of-good ts r (boolean b) t h = cc
member_of-good ts r (integer z) t h = cc
member_of-good ts r (real x) t h = cc
member_of-good ts r (list js) t h = cc
member_of-good ts r (dict d) t h = cc

read_fields-IsMiner :
    (id : String) (d : Entries) (m : MinerMetrics)
    → read_fields id d ≡ good m
    → IsMiner m × (m.miner_id ≡ id)
unfolding read_fields
read_fields-IsMiner id d m h =
    let (a, (b, (c, e))) = assemble_miner-good id _ _ _ _ _ _ _ _ _ _ _ m h in
    (
      record {
        known_state =
            member_of-good miner_states (miner_invalid id MinerField.state) (field "state" d)
              m.state a;
        known_quality =
            member_of-good acquisition_qualities (miner_invalid id MinerField.quality)
              (or_default (text "valid") (get "acquisition_quality" d)) m.acquisition_quality b;
        boards = c;
      },
      e,
    )

-- The miners that follow the ids seen so far: each is well formed, with an id that is stripped, not
-- empty, without an address and new.
abbrev pub AreMiners : Texts → List String → List MinerMetrics → Type 0
AreMiners t seen [] = Unit
AreMiners t seen (m ∷ ms) =
    (refused_id t seen m.miner_id ≡ false)
    × ((t.strip m.miner_id ≡ m.miner_id) × (IsMiner m × AreMiners t (m.miner_id ∷ seen) ms))

good_injective : (ms ns : List MinerMetrics) → good ms ≡ good ns → ms ≡ ns
good_injective ms ns e = cc

required : (b : Bool) (r : Reason) (u : Unit {0}) → require (not b) r ≡ good u → b ≡ false
required true r u h = cc
required false r u h = refl

module _ (t : Texts) (strips : (x : String) → t.strip (t.strip x) ≡ t.strip x)
    (shows : (x : String) → t.shown (text x) ≡ x) where
  read_miner-good :
      (i : ℕ) (seen : List String) (v : Json) (m : MinerMetrics)
      → read_miner t i seen v ≡ good m
      → (refused_id t seen m.miner_id ≡ false) × ((t.strip m.miner_id ≡ m.miner_id) × IsMiner m)
  unfolding read_miner
  read_miner-good i seen v m h =
      let (d, (e, h1)) = bind-good (or_bad (miner_not_dict i) (dict_of v)) _ m h in
      let id = id_of t d in
      let (u, (fresh, h2)) =
        bind-good (require (not (refused_id t seen id)) (miner_invalid_id i id)) _ m h1 in
      let (k, same) = read_fields-IsMiner id d m h2 in
      (
        rw same (required (refused_id t seen id) (miner_invalid_id i id) u fresh),
        (rw same (strips (t.shown (or_default (text "") (get "miner_id" d)))), k),
      )

  pub read_miners-AreMiners :
      (js : Items) (i : ℕ) (seen : List String) (ms : List MinerMetrics)
      → read_miners t js i seen ≡ good ms
      → AreMiners t seen ms
  unfolding read_miners
  read_miners-AreMiners end i seen ms h = subst (AreMiners t seen) (good_injective [] ms h) tt
  read_miners-AreMiners (item v js) i seen ms h =
      let (m, (e, h1)) = bind-good (read_miner t i seen v) _ ms h in
      let (rest, (f, h2)) = bind-good (read_miners t js (suc i) (m.miner_id ∷ seen)) _ ms h1 in
      let (a, (b, k)) = read_miner-good i seen v m e in
      subst (AreMiners t seen) (good_injective (m ∷ rest) ms h2)
        (a, (b, (k, read_miners-AreMiners js (suc i) (m.miner_id ∷ seen) rest f)))

  read_miner_back :
      (i : ℕ) (seen : List String) (m : MinerMetrics)
      → refused_id t seen m.miner_id ≡ false
      → t.strip m.miner_id ≡ m.miner_id
      → IsMiner m
      → read_miner t i seen (dict (miner_dict m)) ≡ good m
  unfolding read_miner miner_dict get
  read_miner_back i seen m a b k =
      let same : id_of t (miner_dict m) ≡ m.miner_id = id_back m b in
      rw (same, a) (read_fields_back m k)
    where
      id_back :
          (m : MinerMetrics) → t.strip m.miner_id ≡ m.miner_id → id_of t (miner_dict m) ≡ m.miner_id
      id_back m b = ap t.strip (shows m.miner_id) ∙ b

  pub read_miners_back :
      (ms : List MinerMetrics) (i : ℕ) (seen : List String)
      → AreMiners t seen ms
      → read_miners t (miner_items ms) i seen ≡ good ms
  unfolding read_miners miner_items
  read_miners_back [] i seen h = refl
  read_miners_back (m ∷ ms) i seen (a, (b, (k, rest))) =
      rw (read_miner_back i seen m a b k, read_miners_back ms (suc i) (m.miner_id ∷ seen) rest) refl
