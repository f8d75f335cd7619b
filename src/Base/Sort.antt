-- ===== src/Base/Sort.antt =====
-- `sorted` and `list.sort`: a stable sort by a test `le`, which every stable sort agrees with.
use Prim.Native.Nat.{suc}
use Prim.Native.String.{String, compare}
use mathlib.Core.Path.{◌≡◌, refl, ap, ◌∙◌}
use mathlib.Core.Logic.{◌⊎◌, inl, inr}
use mathlib.Core.Bool.{Bool, true, false, ◌||◌}
use mathlib.Core.List.{List, [], ◌∷◌}
use native.Mathlib.Omega.{arith}
use text.Mathlib.Text.{is_le}
use miner_alerts.Base.Tests.{if◌then◌else◌, Bool-cases}
use miner_alerts.Base.Lists.{length, any, count, All, Member, Member-All, All-Member}

-- `s <= t` on texts
abbrev pub le_string : String → String → Bool
le_string s t = is_le (compare s t)

module _ {ℓ} {A : Type ℓ} (le : A → A → Bool) where
  unfoldable pub insert_sorted : A → List A → List A
  insert_sorted x [] = x ∷ []
  insert_sorted x (y ∷ ys) =
      let rest = insert_sorted x ys in if le x y then x ∷ y ∷ ys else y ∷ rest

  unfoldable pub sort : List A → List A
  sort [] = []
  sort (x ∷ xs) = insert_sorted x (sort xs)

  pub length-insert_sorted : (x : A) (xs : List A) → length (insert_sorted x xs) ≡ suc (length xs)
  unfolding insert_sorted
  length-insert_sorted x [] = refl
  length-insert_sorted x (y ∷ ys) = ground (arith, length-insert_sorted x ys)

  pub length-sort : (xs : List A) → length (sort xs) ≡ length xs
  unfolding sort
  length-sort [] = refl
  length-sort (x ∷ xs) = omega (arith, length-insert_sorted x (sort xs), length-sort xs)

  pub any-insert_sorted :
      (p : A → Bool) (x : A) (xs : List A) → any p (insert_sorted x xs) ≡ (p x || any p xs)
  unfolding insert_sorted
  any-insert_sorted p x [] = refl
  any-insert_sorted p x (y ∷ ys) = ground (arith, any-insert_sorted p x ys)

  -- Sorting keeps what is in the list.
  pub any-sort : (p : A → Bool) (xs : List A) → any p (sort xs) ≡ any p xs
  unfolding sort
  any-sort p [] = refl
  any-sort p (x ∷ xs) = any-insert_sorted p x (sort xs) ∙ ap (λ b. p x || b) (any-sort p xs)

  count-insert_sorted :
      (p : A → Bool) (x : A) (xs : List A) → count p (insert_sorted x xs) ≡ count p (x ∷ xs)
  unfolding insert_sorted
  count-insert_sorted p x [] = refl
  count-insert_sorted p x (y ∷ ys) = ground (arith, count-insert_sorted p x ys)

  -- Sorting keeps how many there are of each kind.
  pub count-sort : (p : A → Bool) (xs : List A) → count p (sort xs) ≡ count p xs
  unfolding sort
  count-sort p [] = refl
  count-sort p (x ∷ xs) = ground (arith, count-insert_sorted p x (sort xs), count-sort p xs)

  pub All-insert_sorted {κ} :
      (P : A → Type κ) (x : A) (xs : List A) → P x → All P xs → All P (insert_sorted x xs)
  unfolding insert_sorted
  All-insert_sorted P x [] h hs = (h, tt)
  All-insert_sorted P x (y ∷ ys) h hs = elim (Bool-cases (le x y)) [
    | inl e ↦ rw e (h, hs)
    | inr e ↦ rw e (hs.0, All-insert_sorted P x ys h hs.1)
  ]

  pub All-sort {κ} : (P : A → Type κ) (xs : List A) → All P xs → All P (sort xs)
  unfolding sort
  All-sort P [] h = h
  All-sort P (x ∷ xs) h = All-insert_sorted P x (sort xs) h.0 (All-sort P xs h.1)

  abbrev pub IsSorted : List A → Type ℓ
  IsSorted [] = Unit
  IsSorted (x ∷ xs) = All (λ y. le x y ≡ true) xs × IsSorted xs

  module _ (total : (x y : A) → le x y ≡ false → le y x ≡ true)
      (transitive : (x y z : A) → le x y ≡ true → le y z ≡ true → le x z ≡ true) where
    All-below :
        (x y : A) (ys : List A)
        → le x y ≡ true
        → All (λ z. le y z ≡ true) ys
        → All (λ z. le x z ≡ true) ys
    All-below x y [] h hs = tt
    All-below x y (z ∷ ys) h hs = (transitive x y z h hs.0, All-below x y ys h hs.1)

    pub insert_sorted-IsSorted : (x : A) (xs : List A) → IsSorted xs → IsSorted (insert_sorted x xs)
    unfolding insert_sorted
    insert_sorted-IsSorted x [] h = (tt, tt)
    insert_sorted-IsSorted x (y ∷ ys) h = elim (Bool-cases (le x y)) [
      | inl e ↦ rw e ((e, All-below x y ys e h.0), h)
      | inr e ↦ rw e (
        All-insert_sorted (λ z. le y z ≡ true) x ys (total x y e) h.0,
        insert_sorted-IsSorted x ys h.1,
      )
    ]

    pub sort-IsSorted : (xs : List A) → IsSorted (sort xs)
    unfolding sort
    sort-IsSorted [] = tt
    sort-IsSorted (x ∷ xs) = insert_sorted-IsSorted x (sort xs) (sort-IsSorted xs)

module _ {A : Type 0} (le : A → A → Bool) where
  insert_sorted-Member :
      (x : A) (xs : List A) (y : A) → (y ≡ x) ⊎ Member y xs → Member y (insert_sorted le x xs)
  unfolding insert_sorted
  insert_sorted-Member x [] y m = m
  insert_sorted-Member x (z ∷ zs) y m = elim (Bool-cases (le x z)) [
    | inl e ↦ rw e m
    | inr e ↦ rw e (elim m [
      | inl h ↦ inr (insert_sorted-Member x zs y (inl h))
      | inr (inl h) ↦ inl h
      | inr (inr h) ↦ inr (insert_sorted-Member x zs y (inr h))
    ])
  ]

  pub sort-Member : (xs : List A) (y : A) → Member y xs → Member y (sort le xs)
  unfolding sort
  sort-Member [] y m = m
  sort-Member (x ∷ xs) y (inl e) = insert_sorted-Member x (sort le xs) y (inl e)
  sort-Member (x ∷ xs) y (inr m) = insert_sorted-Member x (sort le xs) y (inr (sort-Member xs y m))

  -- Sorting adds no member.
  pub Member-sort : (xs : List A) (y : A) → Member y (sort le xs) → Member y xs
  Member-sort xs y m =
      Member-All (λ z. Member z xs) (sort le xs)
        (All-sort le (λ z. Member z xs) xs (All-Member (λ z. Member z xs) xs (λ z k. k))) y m
