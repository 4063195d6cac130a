-- ===== src/Base/Runs.antt =====
-- A method that may fail and that changes an object: what was written before an error stays written.
use mathlib.Core.Path.{◌≡◌, refl, ap}
use ngen_orca.Base.Results.{Result, err, ok}

abbrev pub Run {ℓ κ μ} : Type ℓ → Type κ → Type μ → Type (ℓ ⊔ κ ⊔ μ)
Run S E A = Result E A × S

module _ {ℓ κ μ ν} {S : Type ℓ} {E : Type κ} {A : Type μ} {B : Type ν} where
  -- `m?;` and what follows.
  abbrev pub and_then : Run S E A → (A → S → Run S E B) → Run S E B
  and_then (err e, s) next = (err e, s)
  and_then (ok a, s) next = next a s

  -- A step that succeeded after another.
  pub and_then-parts :
      (m : Run S E A) (next : A → S → Run S E B) (b : B) (s' : S)
      → and_then m next ≡ (ok b, s')
      → (a : A) × (s : S) × (m ≡ (ok a, s)) × (next a s ≡ (ok b, s'))
  and_then-parts (err x, s) next b s' e =
      let bad : ◌≡◌ {A = Result E B} (err x) (ok b) = ap (λ p. p.0) e in absurd cc
  and_then-parts (ok a, s) next b s' e = (a, s, refl, e)
