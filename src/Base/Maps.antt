-- ===== src/Base/Maps.antt =====
-- A JavaScript Map with numbers for keys, as the list of its entries in insertion order.
use Prim.Native.Nat.{ℕ}
use mathlib.Core.Path.{◌≡◌, refl}
use mathlib.Core.Option.{Option, none, some}
use mathlib.Core.List.{List, [], ◌∷◌}
use native.Mathlib.Omega.{arith}
use project_dipstick.Base.Tests.{◌==◌, if◌then◌else◌}

module _ {ℓ} {V : Type ℓ} where
  unfoldable pub map_get : ℕ → List (ℕ × V) → Option V
  map_get k [] = none
  map_get k ((j, v) ∷ m) = if j == k then some v else map_get k m

  -- A known key keeps its place.
  unfoldable pub map_set : ℕ → V → List (ℕ × V) → List (ℕ × V)
  map_set k v [] = (k, v) ∷ []
  map_set k v ((j, w) ∷ m) = if j == k then (k, v) ∷ m else (j, w) ∷ map_set k v m

  unfoldable pub map_delete : ℕ → List (ℕ × V) → List (ℕ × V)
  map_delete k [] = []
  map_delete k ((j, v) ∷ m) = let rest = map_delete k m in if j == k then rest else (j, v) ∷ rest

  pub map_get-map_set :
      (k j : ℕ) (v : V) (m : List (ℕ × V))
      → map_get j (map_set k v m) ≡ (if k == j then some v else map_get j m)
  unfolding map_get map_set
  map_get-map_set k j v [] = refl
  map_get-map_set k j v ((i, w) ∷ m) = ground (arith, map_get-map_set k j v m)

  pub map_get-map_delete :
      (k j : ℕ) (m : List (ℕ × V))
      → map_get j (map_delete k m) ≡ (if k == j then none else map_get j m)
  unfolding map_get map_delete
  map_get-map_delete k j [] = ground arith
  map_get-map_delete k j ((i, w) ∷ m) = ground (arith, map_get-map_delete k j m)
