-- ===== src/Common/Maps.antt =====
-- std::map from numbers: its entries, from the lowest key to the highest.
use jansan.Common.Tests.{if◌then◌else◌}
use jansan.Common.Int.{ℤ, ◌=?ℤ◌, ltb_ℤ}
use mathlib.Core.Path.{◌≡◌, refl}
use mathlib.Core.Option.{Option, none, some}
use mathlib.Core.List.{List, [], ◌∷◌}
use native.Mathlib.Omega.{arith}

module _ {ℓ} {V : Type ℓ} where
  unfoldable pub lookup : ℤ → List (ℤ × V) → Option V
  lookup k [] = none
  lookup k ((j, v) ∷ m) = if j =?ℤ k then some v else lookup k m

  -- m[k] = v
  unfoldable pub assign : ℤ → V → List (ℤ × V) → List (ℤ × V)
  assign k v [] = (k, v) ∷ []
  assign k v ((j, w) ∷ m) =
      let rest = assign k v m in
      if j =?ℤ k then (k, v) ∷ m else if ltb_ℤ k j then (k, v) ∷ (j, w) ∷ m else (j, w) ∷ rest

  unfoldable pub remove : ℤ → List (ℤ × V) → List (ℤ × V)
  remove k [] = []
  remove k ((j, v) ∷ m) = let rest = remove k m in if j =?ℤ k then rest else (j, v) ∷ rest

  -- What m[k] reads; a key that is not there gets the value that its type starts with.
  abbrev pub or_new : V → Option V → V
  or_new v none = v
  or_new v (some w) = w

module _ {V : Type 0} where
  pub lookup-assign :
      (k j : ℤ) (v : V) (m : List (ℤ × V))
      → lookup j (assign k v m) ≡ (if k =?ℤ j then some v else lookup j m)
  unfolding lookup assign
  lookup-assign k j v [] = refl
  lookup-assign k j v ((i, w) ∷ m) = ground (arith, lookup-assign k j v m)

  pub lookup-remove :
      (k j : ℤ) (m : List (ℤ × V)) → lookup j (remove k m) ≡ (if k =?ℤ j then none else lookup j m)
  unfolding lookup remove
  lookup-remove k j [] = ground arith
  lookup-remove k j ((i, w) ∷ m) = ground (arith, lookup-remove k j m)
