-- ===== src/Base/Dict.antt =====
-- A Python dict with texts for keys, in insertion order: assignment to a present key keeps its place.
use Prim.Native.String.{String}
use mathlib.Core.Path.{◌≡◌, refl}
use mathlib.Core.Option.{Option, none, some}
use mathlib.Core.List.{List, [], ◌∷◌}
use native.Mathlib.Omega.{arith}
use miner_alerts.Base.Tests.{same_text, same_text_iff, if◌then◌else◌}

abbrev pub Dict {ℓ} : Type ℓ → Type ℓ
Dict V = List (String × V)

abbrev pub keys {ℓ} : {V : Type ℓ} → Dict V → List String
keys [] = []
keys ((key, v) ∷ d) = key ∷ keys d

module _ {ℓ} {V : Type ℓ} where
  -- `d.get(key)`
  unfoldable pub lookup : String → Dict V → Option V
  lookup key [] = none
  lookup key ((other, v) ∷ d) = if same_text other key then some v else lookup key d

  -- `d[key] = v`
  unfoldable pub insert : String → V → Dict V → Dict V
  insert key v [] = (key, v) ∷ []
  insert key v ((other, w) ∷ d) =
      if same_text other key then (other, v) ∷ d else (other, w) ∷ insert key v d

  -- `d.pop(key, None)`
  unfoldable pub erase : String → Dict V → Dict V
  erase key [] = []
  erase key ((other, w) ∷ d) =
      let rest = erase key d in if same_text other key then rest else (other, w) ∷ rest

  pub lookup-insert :
      (key at : String) (v : V) (d : Dict V)
      → lookup at (insert key v d) ≡ (if same_text key at then some v else lookup at d)
  unfolding lookup insert
  lookup-insert key at v [] = refl
  lookup-insert key at v ((other, w) ∷ d) = ground (
    arith,
    same_text_iff key at,
    same_text_iff other key,
    same_text_iff other at,
    lookup-insert key at v d,
  )

  pub lookup-erase :
      (key at : String) (d : Dict V)
      → lookup at (erase key d) ≡ (if same_text key at then none else lookup at d)
  unfolding lookup erase
  lookup-erase key at [] = ground arith
  lookup-erase key at ((other, w) ∷ d) = ground (
    arith,
    same_text_iff key at,
    same_text_iff other key,
    same_text_iff other at,
    lookup-erase key at d,
  )
