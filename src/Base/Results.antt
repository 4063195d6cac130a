-- ===== src/Base/Results.antt =====
-- `Result<T, E>` with `?`, and what a chain that succeeded has done.
use mathlib.Core.Logic.{◌⊎◌, inl, inr}
use mathlib.Core.Path.{◌≡◌, refl}
use mathlib.Core.Option.{Option, none, some}

pub data Result {ℓ κ} (E : Type ℓ) (A : Type κ) : Type (ℓ ⊔ κ) where
  err : E → Result E A
  ok : A → Result E A

module _ {ℓ κ μ} {E : Type ℓ} {A : Type κ} {B : Type μ} where
  infixl 5 ◌>>=◌
  -- `let a = m?;` and what follows.
  abbrev pub ◌>>=◌ : Result E A → (A → Result E B) → Result E B
  m >>= next = elim m [ err e ↦ err e | ok a ↦ next a ]

  -- Both halves of a chain that came to a value.
  pub >>=-parts :
      {b : B} (m : Result E A) (next : A → Result E B)
      → (m >>= next) ≡ ok b
      → (a : A) × (m ≡ ok a) × (next a ≡ ok b)
  >>=-parts (err e) next h = cc
  >>=-parts (ok a) next h = (a, refl, h)

  -- The same where the second half cannot fail.
  pub map-parts :
      {b : B} (m : Result E A) (f : A → B)
      → (m >>= λ a. ok (f a)) ≡ ok b
      → (a : A) × (m ≡ ok a) × (f a ≡ b)
  map-parts (err e) f h = cc
  map-parts (ok a) f h = (a, refl, cc)

-- To split on a computed result and keep the equation.
pub Result-cases {ℓ κ} :
    {E : Type ℓ} {A : Type κ} (r : Result E A) → ((e : E) × (r ≡ err e)) ⊎ ((a : A) × (r ≡ ok a))
Result-cases (err e) = inl (e, refl)
Result-cases (ok a) = inr (a, refl)

-- `o.ok_or(e)`.
abbrev pub ok_or {ℓ κ} : {E : Type ℓ} {A : Type κ} → Option A → E → Result E A
ok_or o e = elim o [ none ↦ err e | some a ↦ ok a ]
