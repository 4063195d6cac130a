-- ===== src/Gateway/Quality/Occurs.antt =====
-- What `str::contains`, which quality.rs asks of an answer, finds in a text.
use ngen_orca.Base.{
  refl, ap, sym, subst, Bytes, [], ◌∷◌, ◌++◌, ◌≡◌, ◌↔◌, true, false, Bool-cases, inl, inr, ◌==◌,
  ==_iff, Bool, ◌||◌,
}
use ngen_orca.Core.Error.{contains, starts_with}

pub record Occurs (part text : Bytes) : Type 0 where
  pub before : Bytes
  pub after : Bytes
  pub is : text ≡ before ++ part ++ after

starts_with-parts :
    (text part : Bytes) → starts_with text part ≡ true → (after : Bytes) × (text ≡ part ++ after)
starts_with-parts text [] e = (text, refl)
starts_with-parts [] (c ∷ part) e = absurd cc
starts_with-parts (d ∷ text) (c ∷ part) e = elim (Bool-cases (d == c)) [
  | inl h ↦
      let rest = starts_with-parts text part (rw h at e) in
      let whole = rest.1 in let same_char : d ≡ c = (==_iff d c).0 h in (rest.0, cc)
  | inr h ↦ let bad : false ≡ true = rw h at e in absurd cc
]

starts_with-append : (part after : Bytes) → starts_with (part ++ after) part ≡ true
starts_with-append [] [] = refl
starts_with-append [] (c ∷ after) = refl
starts_with-append (c ∷ part) after =
    let self : (c == c) ≡ true = (==_iff c c).1 refl in rw self (starts_with-append part after)

contains-starts_with :
    (text part : Bytes) → starts_with text part ≡ true → contains text part ≡ true
contains-starts_with [] part e = e
contains-starts_with (c ∷ text) part e = rw e refl

contains-Occurs : (text part : Bytes) → contains text part ≡ true → Occurs part text
contains-Occurs [] part e =
    let found = starts_with-parts [] part e in record { before = []; after = found.0; is = found.1 }
contains-Occurs (c ∷ text) part e = elim (Bool-cases (starts_with (c ∷ text) part)) [
  | inl h ↦
      let found = starts_with-parts (c ∷ text) part h in
      record { before = []; after = found.0; is = found.1 }
  | inr h ↦
      let o = contains-Occurs text part (rw h at e) in
      record { before = c ∷ o.before; after = o.after; is = ap (◌∷◌ c) o.is }
]

or-true : (a b : Bool) → b ≡ true → (a || b) ≡ true
or-true true b e = refl
or-true false b e = e

contains-append : (before part after : Bytes) → contains (before ++ part ++ after) part ≡ true
contains-append [] part after =
    contains-starts_with (part ++ after) part (starts_with-append part after)
contains-append (c ∷ before) part after =
    or-true (starts_with (c ∷ before ++ part ++ after) part)
      (contains (before ++ part ++ after) part) (contains-append before part after)

pub contains_iff : (text part : Bytes) → (contains text part ≡ true) ↔ Occurs part text
contains_iff text part = (
  contains-Occurs text part,
  λ o. subst (λ k. contains k part ≡ true) (sym o.is) (contains-append o.before part o.after),
)
