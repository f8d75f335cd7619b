-- ===== src/Base/Lists.antt =====
-- Lists measured and filtered over the native numbers, and predicates on all members.
use Prim.Native.Nat.{ℕ, zero, suc, ◌+◌, ◌-◌, ◌≤◌}
use mathlib.Core.Path.{◌≡◌, refl, sym, subst, ap, ◌∙◌}
use mathlib.Core.Logic.{◌⊎◌, inl, inr}
use mathlib.Core.Bool.{Bool, true, false, ◌&&◌, ◌||◌}
use mathlib.Core.List.{List, [], ◌∷◌, ◌++◌, map}
use mathlib.Core.Option.{Option, none, some}
use native.Mathlib.Omega.{arith}
use miner_alerts.Base.Tests.{if◌then◌else◌}

module _ {ℓ} {A : Type ℓ} where
  abbrev pub length : List A → ℕ
  length [] = 0
  length (x ∷ xs) = suc (length xs)

  abbrev pub get_elem? : List A → ℕ → Option A
  get_elem? [] i = none
  get_elem? (x ∷ xs) zero = some x
  get_elem? (x ∷ xs) (suc i) = get_elem? xs i

  -- `xs[:n]` and `xs[n:]`
  abbrev pub take : ℕ → List A → List A
  take n [] = []
  take zero (x ∷ xs) = []
  take (suc n) (x ∷ xs) = x ∷ take n xs

  abbrev pub drop : ℕ → List A → List A
  drop n [] = []
  drop zero (x ∷ xs) = x ∷ xs
  drop (suc n) (x ∷ xs) = drop n xs

  -- `[x for x in xs if p(x)]`
  abbrev pub keep : (A → Bool) → List A → List A
  keep p [] = []
  keep p (x ∷ xs) = let rest = keep p xs in if p x then x ∷ rest else rest

  -- How many of a list pass a test.
  abbrev pub count : (A → Bool) → List A → ℕ
  count p [] = 0
  count p (x ∷ xs) = let rest = count p xs in if p x then suc rest else rest

  -- `any(...)` and `all(...)`
  abbrev pub any : (A → Bool) → List A → Bool
  any p [] = false
  any p (x ∷ xs) = p x || any p xs

  abbrev pub all : (A → Bool) → List A → Bool
  all p [] = true
  all p (x ∷ xs) = p x && all p xs

  -- `xs[-1]`
  abbrev pub last : List A → Option A
  last [] = none
  last (x ∷ []) = some x
  last (x ∷ (y ∷ xs)) = last (y ∷ xs)

  abbrev pub All {κ} : (A → Type κ) → List A → Type κ
  All P [] = Unit
  All P (x ∷ xs) = P x × All P xs

  pub take-drop : (n : ℕ) (xs : List A) → take n xs ++ drop n xs ≡ xs
  take-drop n [] = refl
  take-drop zero (x ∷ xs) = refl
  take-drop (suc n) (x ∷ xs) = ap (◌∷◌ x) (take-drop n xs)

  pub length-take : (n : ℕ) (xs : List A) → length (take n xs) ≤ n
  length-take n [] = omega arith
  length-take zero (x ∷ xs) = omega arith
  length-take (suc n) (x ∷ xs) = omega (arith, length-take n xs)

  pub length-drop : (n : ℕ) (xs : List A) → length (drop n xs) ≡ length xs - n
  length-drop n [] = omega arith
  length-drop zero (x ∷ xs) = omega arith
  length-drop (suc n) (x ∷ xs) = omega (arith, length-drop n xs)

  pub length-append : (xs ys : List A) → length (xs ++ ys) ≡ length xs + length ys
  length-append [] ys = omega arith
  length-append (x ∷ xs) ys = omega (arith, length-append xs ys)

  pub length-keep : (p : A → Bool) (xs : List A) → length (keep p xs) ≤ length xs
  length-keep p [] = omega arith
  length-keep p (x ∷ xs) = ground (arith, length-keep p xs)

module _ {ℓ κ} {A : Type ℓ} {B : Type κ} (f : A → B) where
  pub length-map : (xs : List A) → length (map f xs) ≡ length xs
  length-map [] = refl
  length-map (x ∷ xs) = ap suc (length-map xs)

module _ {ℓ} {A : Type ℓ} where
  pub keep-append : (p : A → Bool) (xs ys : List A) → keep p (xs ++ ys) ≡ keep p xs ++ keep p ys
  keep-append p [] ys = refl
  keep-append p (x ∷ xs) ys = ground (arith, keep-append p xs ys)

  -- A stronger filter makes a weaker one before it redundant.
  pub keep-keep :
      (p q : A → Bool)
      → ((x : A) → q x ≡ true → p x ≡ true)
      → (xs : List A) → keep q (keep p xs) ≡ keep q xs
  keep-keep p q weaker [] = refl
  keep-keep p q weaker (x ∷ xs) = ground (arith, weaker x, keep-keep p q weaker xs)

false-true : false ≡ true → ⊥
false-true h = cc

module _ {A : Type 0} where
  abbrev pub Member : A → List A → Type 0
  Member x [] = ⊥
  Member x (y ∷ ys) = (x ≡ y) ⊎ Member x ys

  pub All-Member {κ} : (P : A → Type κ) (xs : List A) → ((x : A) → Member x xs → P x) → All P xs
  All-Member P [] h = tt
  All-Member P (x ∷ xs) h = (h x (inl refl), All-Member P xs (λ y m. h y (inr m)))

  pub Member-All {κ} : (P : A → Type κ) (xs : List A) → All P xs → (x : A) → Member x xs → P x
  Member-All P [] h x m = absurd m
  Member-All P (y ∷ ys) h x (inl e) = subst P (sym e) h.0
  Member-All P (y ∷ ys) h x (inr m) = Member-All P ys h.1 x m

  Member-if :
      (b : Bool) (x y : A) (ys : List A)
      → Member x (if b then y ∷ ys else ys)
      → ((b ≡ true) × (x ≡ y)) ⊎ Member x ys
  Member-if true x y ys (inl e) = inl (refl, e)
  Member-if true x y ys (inr m) = inr m
  Member-if false x y ys m = inr m

  if-Member :
      (b : Bool) (x y : A) (ys : List A)
      → ((b ≡ true) × (x ≡ y)) ⊎ Member x ys
      → Member x (if b then y ∷ ys else ys)
  if-Member true x y ys (inl e) = inl e.1
  if-Member false x y ys (inl e) = absurd (false-true e.0)
  if-Member true x y ys (inr m) = inr m
  if-Member false x y ys (inr m) = m

  pub Member-keep :
      (p : A → Bool) (xs : List A) (x : A) → Member x (keep p xs) → Member x xs × (p x ≡ true)
  Member-keep p [] x m = absurd m
  Member-keep p (y ∷ ys) x m = elim (Member-if (p y) x y (keep p ys) m) [
    | inl e ↦ (inl e.1, ap p e.1 ∙ e.0)
    | inr k ↦ let (a, b) = Member-keep p ys x k in (inr a, b)
  ]

  pub keep-Member :
      (p : A → Bool) (xs : List A) (x : A) → Member x xs → p x ≡ true → Member x (keep p xs)
  keep-Member p [] x m h = absurd m
  keep-Member p (y ∷ ys) x (inl e) h = if-Member (p y) x y (keep p ys) (inl (ap p (sym e) ∙ h, e))
  keep-Member p (y ∷ ys) x (inr m) h =
      if-Member (p y) x y (keep p ys) (inr (keep-Member p ys x m h))
