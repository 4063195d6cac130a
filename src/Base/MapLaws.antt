-- ===== src/Base/MapLaws.antt =====
-- What a lookup finds after an insertion, a removal or an update.
use mathlib.Core.Path.{◌≡◌, refl}
use mathlib.Core.Option
use mathlib.Core.Option.{Option, none, some}
use mathlib.Core.List.{List, [], ◌∷◌}
use native.Mathlib.Omega.{arith}
use ngen_orca.Base.Tests.{if◌then◌else◌}
use ngen_orca.Base.Maps.{HashKey, equals, equals_iff, lookup, insert, remove, modify}

module _ {ℓ κ} {K : Type ℓ} {V : Type κ} ⦃h : HashKey K⦄ where
  pub lookup-insert :
      (k j : K) (v : V) (m : List (K × V))
      → lookup j (insert k v m) ≡ (if equals k j then some v else lookup j m)
  lookup-insert k j v [] = refl
  lookup-insert k j v ((i, w) ∷ m) =
      ground (arith, equals_iff k j, equals_iff i k, equals_iff i j, lookup-insert k j v m)

  pub lookup-remove :
      (k j : K) (m : List (K × V))
      → lookup j (remove k m) ≡ (if equals k j then none else lookup j m)
  lookup-remove k j [] = ground arith
  lookup-remove k j ((i, w) ∷ m) =
      ground (arith, equals_iff k j, equals_iff i k, equals_iff i j, lookup-remove k j m)

  pub lookup-modify :
      (k j : K) (f : V → V) (m : List (K × V))
      → lookup j (modify k f m) ≡ (if equals k j then Option.map f (lookup j m) else lookup j m)
  lookup-modify k j f [] = ground arith
  lookup-modify k j f ((i, w) ∷ m) =
      ground (arith, equals_iff k j, equals_iff i k, equals_iff i j, lookup-modify k j f m)
