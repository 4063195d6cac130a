-- ===== src/Base/Select.antt =====
-- The selecting and sorting methods of iterators and slices. They are not among the names that Base passes
-- on.
use ngen_orca.Base.Tests.{if◌then◌else◌, leb}
use Prim.Native.Nat.{ℕ}
use mathlib.Core.Bool.{Bool}
use mathlib.Core.Option.{Option, none, some}
use mathlib.Core.List.{List, [], ◌∷◌}

module _ {ℓ} {A : Type ℓ} where
  -- `Iterator::filter`, `find` and `min_by_key`, which answers the first of equal ones.
  abbrev pub filter : (A → Bool) → List A → List A
  filter p [] = []
  filter p (x ∷ xs) = if p x then x ∷ filter p xs else filter p xs

  abbrev pub find : (A → Bool) → List A → Option A
  find p [] = none
  find p (x ∷ xs) = if p x then some x else find p xs

  abbrev pub min_by_key : (A → ℕ) → List A → Option A
  min_by_key key [] = none
  min_by_key key (x ∷ xs) = elim (min_by_key key xs) [
    | none ↦ some x
    | some y ↦ if leb (key x) (key y) then some x else some y
  ]

  -- `sort_by_key`, which is stable.
  abbrev pub insert_by_key : (A → ℕ) → A → List A → List A
  insert_by_key key x [] = x ∷ []
  insert_by_key key x (y ∷ ys) =
      if leb (key x) (key y) then x ∷ y ∷ ys else y ∷ insert_by_key key x ys

  abbrev pub sort_by_key : (A → ℕ) → List A → List A
  sort_by_key key [] = []
  sort_by_key key (x ∷ xs) = insert_by_key key x (sort_by_key key xs)

  abbrev pub first : List A → Option A
  first [] = none
  first (x ∷ xs) = some x
