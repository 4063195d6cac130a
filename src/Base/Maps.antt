-- ===== src/Base/Maps.antt =====
-- `HashMap` as an association list with at most one entry for each key: the list is the map's
-- iteration order. `insert` replaces the entry of a key, or adds one at the end.
use Prim.Native.Nat.{ℕ}
use mathlib.Core.Path.{◌≡◌}
use mathlib.Core.Logic.{◌↔◌}
use mathlib.Core.Bool.{Bool, true}
use mathlib.Core.List.{List, [], ◌∷◌}
use native.Mathlib.Omega.{arith}
use mathlib.Core.Option.{Option, none, some}
use ngen_orca.Base.Tests.{if◌then◌else◌, ◌==◌}

-- What `Hash + Eq` gives a map: a test that decides equality of keys.
pub record HashKey {ℓ} (K : Type ℓ) : Type ℓ where
  pub equals : K → K → Bool
  pub equals_refl : (k : K) → equals k k ≡ true
  pub equals_sound : {j k : K} → equals j k ≡ true → j ≡ k

abbrev pub equals {ℓ} : {K : Type ℓ} ⦃h : HashKey K⦄ → K → K → Bool
equals ⦃h⦄ j k = h.equals j k

pub equals_iff {ℓ} : {K : Type ℓ} ⦃h : HashKey K⦄ (j k : K) → (equals j k ≡ true) ↔ (j ≡ k)
equals_iff ⦃h⦄ j k = (λ e. h.equals_sound e, λ e. rw e (h.equals_refl k))

pub ==_refl : (n : ℕ) → (n == n) ≡ true
==_refl n = ground arith

pub ==_sound : {m n : ℕ} → (m == n) ≡ true → m ≡ n
==_sound e = ground arith

instance abbrev pub nat_key : HashKey ℕ
nat_key = record { equals = ◌==◌; equals_refl = ==_refl; equals_sound = ==_sound }

module _ {ℓ κ} {K : Type ℓ} {V : Type κ} ⦃h : HashKey K⦄ where
  abbrev pub lookup : K → List (K × V) → Option V
  lookup k [] = none
  lookup k ((j, v) ∷ m) = if equals j k then some v else lookup k m

  abbrev pub insert : K → V → List (K × V) → List (K × V)
  insert k v [] = (k, v) ∷ []
  insert k v ((j, w) ∷ m) = if equals j k then (k, v) ∷ m else (j, w) ∷ insert k v m

  abbrev pub remove : K → List (K × V) → List (K × V)
  remove k [] = []
  remove k ((j, w) ∷ m) = if equals j k then remove k m else (j, w) ∷ remove k m

  -- `get_mut` followed by an update of the value.
  abbrev pub modify : K → (V → V) → List (K × V) → List (K × V)
  modify k f [] = []
  modify k f ((j, w) ∷ m) = if equals j k then (j, f w) ∷ m else (j, w) ∷ modify k f m
