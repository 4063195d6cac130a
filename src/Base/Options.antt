-- ===== src/Base/Options.antt =====
-- The `?` of a function that answers an option, for do blocks. It is not among the names that Base passes
-- on, since a result has an operator of this name too.
use mathlib.Core.Path.{◌≡◌, refl}
use mathlib.Core.Option.{Option, none, some}

module _ {ℓ κ} {A : Type ℓ} {B : Type κ} where
  infixl 5 ◌>>=◌
  abbrev pub ◌>>=◌ : Option A → (A → Option B) → Option B
  none >>= f = none
  some a >>= f = f a

  -- A step that gave something after another.
  pub some-parts :
      (o : Option A) (f : A → Option B) (b : B)
      → (o >>= f) ≡ some b
      → (a : A) × (o ≡ some a) × (f a ≡ some b)
  some-parts none f b e = absurd cc
  some-parts (some a) f b e = (a, refl, e)
