-- ===== src/Identity/Manager/Steps.antt =====
-- What the checks of a request that succeeded have found.
use ngen_orca.Base.{
  Option, Bytes, ◌≡◌, Bool, false, ℕ, none, some, refl, ok, ◌≤◌, err, ap, if◌then◌else◌, Bool-cases,
  inl, subst, ltb, inr, arith,
}
use ngen_orca.Identity.Store.{Tables, request_not_found, request_expired, already_done}
use ngen_orca.Identity.Manager.{is_some, Done, on_open}

pub is_some-false {ℓ} : {A : Type ℓ} (o : Option A) → is_some o ≡ false → o ≡ none
is_some-false none e = refl
is_some-false (some a) e = cc

-- A request that was acted on was there, open and in time.
pub on_open-parts {ℓ κ} :
    {R : Type ℓ} {A : Type κ} (t : Tables) (id : Bytes) (is_done : R → Bool) (expires : R → ℕ)
    (now : ℕ) (next : R → Done A) (o : Option R) (a : A) (t' : Tables)
    → on_open t id is_done expires now next o ≡ (ok a, t')
    → (r : R) × (o ≡ some r) × (is_done r ≡ false) × (now ≤ expires r) × (next r ≡ (ok a, t'))
on_open-parts t id is_done expires now next none a t' e =
    let bad : err (request_not_found id) ≡ ok a = ap (λ p. p.0) e in absurd cc
on_open-parts t id is_done expires now next (some r) a t' e =
    let rest = λ (b : Bool). if b then (err (request_expired id), t) else next r in
    elim (Bool-cases (is_done r)) [
      | inl f ↦
          let bad : err (already_done id) ≡ ok a =
            ap (λ p. p.0)
              (subst
                (λ b.
                  (if b then (err (already_done id), t) else rest (ltb (expires r) now))
                  ≡ (ok a, t'))
                f e) in
          absurd cc
      | inr f ↦
          let e' : rest (ltb (expires r) now) ≡ (ok a, t') =
            subst
              (λ b.
                (if b then (err (already_done id), t) else rest (ltb (expires r) now)) ≡ (ok a, t'))
              f e in
          elim (Bool-cases (ltb (expires r) now)) [
            | inl g ↦
                let bad : err (request_expired id) ≡ ok a =
                  ap (λ p. p.0) (subst (λ b. rest b ≡ (ok a, t')) g e') in
                absurd cc
            | inr g ↦ (r, refl, f, ground arith, subst (λ b. rest b ≡ (ok a, t')) g e')
          ]
    ]
