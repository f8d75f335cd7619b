-- ===== src/EvidenceFusion/Concurrent.antt =====
-- When `detect_fleet_pattern` in app/evidence_fusion.py finds a pattern.
use miner_alerts.Base.{
  ℕ, ◌+◌, ◌≤◌, ◌<◌, ◌≡◌, ◌↔◌, ◌⊎◌, inl, inr, refl, sym, subst, ap, ◌∙◌, true, none, List, [], ◌∷◌,
  String, keep, any, length, ltb, leb, same_text, same_text_iff, All, Member, All-Member,
  keep-Member, Member-keep, Member-All, Bool-cases, if◌then◌else◌, arith,
}
use miner_alerts.Base.Sort.{sort, IsSorted, sort-IsSorted, sort-Member, Member-sort}
use miner_alerts.EvidenceFusion.Facts.{EvidenceFact}
use miner_alerts.EvidenceFusion.Fleet.{
  is_degradation, le_fact, distinct_keys, facts_in_window, first_window, detect_fleet_pattern,
}

-- Two facts that lie within the window of each other.
abbrev pub Near : ℕ → EvidenceFact → EvidenceFact → Type 0
Near window f g =
    (f.effective_ts ≤ g.effective_ts + window) × (g.effective_ts ≤ f.effective_ts + window)

-- Every two near facts of the list are of one miner.
abbrev pub AllAlone : ℕ → List EvidenceFact → Type 0
AllAlone window fs =
    (f g : EvidenceFact)
    → Member f fs
    → Member g fs
    → Near window f g
    → f.subject_key ≡ g.subject_key

any-same :
    (key other : String) (ks : List String) → key ≡ other → any (same_text key) (other ∷ ks) ≡ true
any-same key other ks e = ground (arith, same_text_iff key other)

distinct_keys-All :
    (key : String) (fs : List EvidenceFact)
    → All (λ f. f.subject_key ≡ key) fs
    → All (λ k. k ≡ key) (distinct_keys fs)
unfolding distinct_keys
distinct_keys-All key [] h = tt
distinct_keys-All key (f ∷ fs) h =
    elim (Bool-cases (any (same_text f.subject_key) (distinct_keys fs))) [
      | inl old ↦ rw old (distinct_keys-All key fs h.1)
      | inr new ↦ rw new (h.0, distinct_keys-All key fs h.1)
    ]

one_key :
    (key : String) (k : String) (ks : List String)
    → k ≡ key
    → All (λ j. j ≡ key) ks
    → length ks ≤ 1
    → length (if any (same_text k) ks then ks else k ∷ ks) ≤ 1
one_key key k [] e h le = omega arith
one_key key k (j ∷ js) e h le = rw (any-same k j js (e ∙ sym h.0)) le

distinct_keys-one :
    (key : String) (fs : List EvidenceFact)
    → All (λ f. f.subject_key ≡ key) fs
    → length (distinct_keys fs) ≤ 1
unfolding distinct_keys
distinct_keys-one key [] h = omega arith
distinct_keys-one key (f ∷ fs) h =
    one_key key f.subject_key (distinct_keys fs) h.0 (distinct_keys-All key fs h.1)
      (distinct_keys-one key fs h.1)

any-kept :
    (a k : String) (ks : List String)
    → ((a ≡ k) ⊎ (any (same_text a) ks ≡ true))
    → any (same_text a) (if any (same_text k) ks then ks else k ∷ ks) ≡ true
any-kept a k ks h = elim (Bool-cases (any (same_text k) ks)) [
  | inl old ↦ rw old (elim h [ inl e ↦ rw e old | inr t ↦ t ])
  | inr new ↦ rw new (elim h [ inl e ↦ any-same a k ks e | inr t ↦ ground (arith, t) ])
]

distinct_keys-any :
    (f : EvidenceFact) (fs : List EvidenceFact)
    → Member f fs
    → any (same_text f.subject_key) (distinct_keys fs) ≡ true
unfolding distinct_keys
distinct_keys-any f [] m = absurd m
distinct_keys-any f (g ∷ fs) (inl e) =
    any-kept f.subject_key g.subject_key (distinct_keys fs) (inl (ap (λ h. h.subject_key) e))
distinct_keys-any f (g ∷ fs) (inr m) =
    any-kept f.subject_key g.subject_key (distinct_keys fs) (inr (distinct_keys-any f fs m))

same_of_short :
    (a b : String) (ks : List String)
    → length ks < 2
    → any (same_text a) ks ≡ true
    → any (same_text b) ks ≡ true
    → a ≡ b
same_of_short a b [] le h k = cc
same_of_short a b (x ∷ []) le h k = ground (arith, same_text_iff a x, same_text_iff b x)
same_of_short a b (x ∷ (y ∷ ks)) le h k = ground arith

first_window-none :
    (window : ℕ) (f : EvidenceFact) (fs : List EvidenceFact)
    → first_window window (f ∷ fs) ≡ none
    → (length (distinct_keys (facts_in_window window f (f ∷ fs))) < 2)
      × (first_window window fs ≡ none)
unfolding first_window
first_window-none window f fs h = ground arith

none-first_window :
    (window : ℕ) (f : EvidenceFact) (fs : List EvidenceFact)
    → length (distinct_keys (facts_in_window window f (f ∷ fs))) < 2
    → first_window window fs ≡ none
    → first_window window (f ∷ fs) ≡ none
unfolding first_window
none-first_window window f fs h k = ground arith

inside :
    (window : ℕ) (f g : EvidenceFact) (fs : List EvidenceFact)
    → Member g fs
    → g.effective_ts ≤ f.effective_ts + window
    → Member g (facts_in_window window f fs)
unfolding facts_in_window
inside window f g fs m le = keep-Member _ fs g m (ground arith)

anchor_alone :
    (window : ℕ) (f g : EvidenceFact) (fs : List EvidenceFact)
    → length (distinct_keys (facts_in_window window f (f ∷ fs))) < 2
    → Member g fs
    → g.effective_ts ≤ f.effective_ts + window
    → f.subject_key ≡ g.subject_key
anchor_alone window f g fs short m le =
    let fs' = facts_in_window window f (f ∷ fs) in
    same_of_short f.subject_key g.subject_key (distinct_keys fs') short
      (distinct_keys-any f fs' (inside window f f (f ∷ fs) (inl refl) (omega arith)))
      (distinct_keys-any g fs' (inside window f g (f ∷ fs) (inr m) le))

first_window-AllAlone :
    (window : ℕ) (fs : List EvidenceFact) → first_window window fs ≡ none → AllAlone window fs
first_window-AllAlone window [] h f g m k near = absurd m
first_window-AllAlone window (x ∷ fs) h f g (inl e) (inl d) near =
    ap (λ y. y.subject_key) (e ∙ sym d)
first_window-AllAlone window (x ∷ fs) h f g (inl e) (inr k) near =
    ap (λ y. y.subject_key) e
    ∙ anchor_alone window x g fs (first_window-none window x fs h).0 k
        (subst (λ y. g.effective_ts ≤ y.effective_ts + window) e near.1)
first_window-AllAlone window (x ∷ fs) h f g (inr m) (inl d) near = sym (
    ap (λ y. y.subject_key) d
    ∙ anchor_alone window x f fs (first_window-none window x fs h).0 m
        (subst (λ y. f.effective_ts ≤ y.effective_ts + window) d near.0))
first_window-AllAlone window (x ∷ fs) h f g (inr m) (inr k) near =
    first_window-AllAlone window fs (first_window-none window x fs h).1 f g m k near

kept_alone :
    (window : ℕ) (f : EvidenceFact) (fs : List EvidenceFact)
    → AllAlone window (f ∷ fs)
    → All (λ g. le_fact f g ≡ true) fs
    → (g : EvidenceFact) → Member g (facts_in_window window f (f ∷ fs))
    → g.subject_key ≡ f.subject_key
unfolding facts_in_window
kept_alone window f fs alone later g m =
    let (here, close) =
      Member-keep (λ h. leb h.effective_ts (f.effective_ts + window)) (f ∷ fs) g m in
    elim here [
      | inl e ↦ ap (λ h. h.subject_key) e
      | inr k ↦
          alone g f (inr k) (inl refl) (
            ground (arith, close),
            ground (arith, Member-All (λ h. le_fact f h ≡ true) fs later g k),
          )
    ]

AllAlone-first_window :
    (window : ℕ) (fs : List EvidenceFact)
    → IsSorted le_fact fs
    → AllAlone window fs
    → first_window window fs ≡ none
unfolding first_window
AllAlone-first_window window [] sorted alone = refl
AllAlone-first_window window (f ∷ fs) sorted alone =
    let kept = facts_in_window window f (f ∷ fs) in
    let one = distinct_keys-one f.subject_key kept (
      All-Member (λ g. g.subject_key ≡ f.subject_key) kept
        (kept_alone window f fs alone sorted.0)) in
    none-first_window window f fs (omega (arith, one))
      (AllAlone-first_window window fs sorted.1 (λ g h m k near. alone g h (inr m) (inr k) near))

IsSorted-facts : (fs : List EvidenceFact) → IsSorted le_fact (sort le_fact fs)
IsSorted-facts fs = sort-IsSorted le_fact (λ f g h. ground arith) (λ f g h e k. ground arith) fs

same_of_few :
    (fs : List EvidenceFact)
    → length fs < 2
    → (f g : EvidenceFact) → Member f fs
    → Member g fs
    → f.subject_key ≡ g.subject_key
same_of_few [] le f g m k = absurd m
same_of_few (x ∷ []) le f g (inl e) (inl d) = ap (λ h. h.subject_key) (e ∙ sym d)
same_of_few (x ∷ []) le f g (inr m) k = absurd m
same_of_few (x ∷ []) le f g (inl e) (inr k) = absurd k
same_of_few (x ∷ (y ∷ fs)) le f g m k = ground arith

detect-few :
    (window : ℕ) (facts : List EvidenceFact)
    → length (keep is_degradation facts) < 2
    → detect_fleet_pattern window facts ≡ none
unfolding detect_fleet_pattern
detect-few window facts h = ground arith

detect-many :
    (window : ℕ) (facts : List EvidenceFact)
    → 2 ≤ length (keep is_degradation facts)
    → detect_fleet_pattern window facts
      ≡ first_window window (sort le_fact (keep is_degradation facts))
unfolding detect_fleet_pattern
detect-many window facts h = ground arith

-- No pattern is found exactly when every two facts of degradation that lie within the window of each
-- other are of one miner.
pub detect_fleet_pattern_iff :
    (window : ℕ) (facts : List EvidenceFact)
    → (detect_fleet_pattern window facts ≡ none) ↔ AllAlone window (keep is_degradation facts)
detect_fleet_pattern_iff window facts =
    let degraded = keep is_degradation facts in
    elim (Bool-cases (ltb (length degraded) 2)) [
      | inl few ↦ (
        λ h f g m k near. same_of_few degraded (ground (arith, few)) f g m k,
        λ alone. detect-few window facts (ground (arith, few)),
      )
      | inr many ↦
          let run = detect-many window facts (ground (arith, many)) in
          (
            λ h f g m k near.
                first_window-AllAlone window (sort le_fact degraded) (sym run ∙ h) f g
                  (sort-Member le_fact degraded f m) (sort-Member le_fact degraded g k) near,
            λ alone.
                run
                ∙ AllAlone-first_window window (sort le_fact degraded) (IsSorted-facts degraded)
                    (λ f g m k near.
                      alone f g (Member-sort le_fact degraded f m)
                        (Member-sort le_fact degraded g k) near),
          )
    ]
