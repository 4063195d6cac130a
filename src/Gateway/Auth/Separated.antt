-- ===== src/Gateway/Auth/Separated.antt =====
-- What the parts are that auth.rs takes a text apart into, by `split_once`, `split` and `strip_prefix`.
use ngen_orca.Base.{
  refl, ap, ℕ, List, Option, Bytes, none, some, [], ◌∷◌, ◌++◌, ◌≡◌, ◌≢◌, All, Bool-cases, inl, inr,
  arith, ◌==◌, ==_iff, ◌∙◌, Option-cases, subst, sym,
}
use ngen_orca.Identity.Texts.{strip_prefix, split, split_once}

-- None of the characters is this one.
abbrev pub Without : ℕ → Bytes → Type 0
Without x s = All (λ c. c ≢ x) s

pub split_once-parts :
    (x : ℕ) (s a b : Bytes) → split_once x s ≡ some (a, b) → (s ≡ a ++ x ∷ b) × Without x a
unfolding split_once
split_once-parts x [] a b e = absurd cc
split_once-parts x (c ∷ s) a b e = elim (Bool-cases (c == x)) [
  | inl h ↦
      let e' : ◌≡◌ {A = Option (Bytes × Bytes)} (some ([], s)) (some (a, b)) = rw h at e in
      let same_char : c ≡ x = (==_iff c x).0 h in
      let none_before : [] ≡ a = cc in
      let rest : s ≡ b = cc in (cc, subst (Without x) none_before tt)
  | inr h ↦ elim (Option-cases (split_once x s)) [
    | inl f ↦
        let bad : ◌≡◌ {A = Option (Bytes × Bytes)} none (some (a, b)) = rw (h, f) at e in absurd cc
    | inr ((a', b'), f) ↦
        let e' : ◌≡◌ {A = Option (Bytes × Bytes)} (some (c ∷ a', b')) (some (a, b)) =
          rw (h, f) at e in
        let (parts, free) = split_once-parts x s a' b' f in
        let head : c ∷ a' ≡ a = cc in
        let tail : b' ≡ b = cc in
        let other : c ≢ x = ground arith in
        (ap (◌∷◌ c) parts ∙ cc, subst (Without x) head (other, free))
  ]
]

pub split_once-Without : (x : ℕ) (s : Bytes) → split_once x s ≡ none → Without x s
unfolding split_once
split_once-Without x [] e = tt
split_once-Without x (c ∷ s) e = elim (Bool-cases (c == x)) [
  | inl h ↦ let bad : ◌≡◌ {A = Option (Bytes × Bytes)} (some ([], s)) none = rw h at e in absurd cc
  | inr h ↦ elim (Option-cases (split_once x s)) [
    | inl f ↦ let other : c ≢ x = ground arith in (other, split_once-Without x s f)
    | inr ((a, b), f) ↦
        let bad : ◌≡◌ {A = Option (Bytes × Bytes)} (some (c ∷ a, b)) none = rw (h, f) at e in
        absurd cc
  ]
]

-- The parts with the character between them.
abbrev pub joined : ℕ → Bytes → List Bytes → Bytes
joined x part [] = part
joined x part (p ∷ parts) = part ++ x ∷ joined x p parts

pub record Parts (x : ℕ) (s : Bytes) : Type 0 where
  pub part : Bytes
  pub parts : List Bytes
  pub are : split x s ≡ part ∷ parts
  pub joins : s ≡ joined x part parts
  pub free : All (Without x) (part ∷ parts)

joined-cons : (x c : ℕ) (p : Bytes) (ps : List Bytes) → joined x (c ∷ p) ps ≡ c ∷ joined x p ps
joined-cons x c p [] = refl
joined-cons x c p (q ∷ ps) = refl

pub split-Parts : (x : ℕ) (s : Bytes) → Parts x s
unfolding split
split-Parts x [] = record { part = []; parts = []; are = refl; joins = refl; free = (tt, tt) }
split-Parts x (c ∷ s) =
    let ih = split-Parts x s in
    elim (Bool-cases (c == x)) [
      | inl h ↦
          let same_char : c ≡ x = (==_iff c x).0 h in
          record {
            part = [];
            parts = ih.part ∷ ih.parts;
            are = rw h (ap (◌∷◌ []) ih.are);
            joins = ap (◌∷◌ c) ih.joins ∙ ap (λ k. k ∷ joined x ih.part ih.parts) same_char;
            free = (tt, ih.free);
          }
      | inr h ↦
          let other : c ≢ x = ground arith in
          let are = ih.are in
          record {
            part = c ∷ ih.part;
            parts = ih.parts;
            are = rw (h, are) refl;
            joins = ap (◌∷◌ c) ih.joins ∙ sym (joined-cons x c ih.part ih.parts);
            free = ((other, ih.free.0), ih.free.1);
          }
    ]

pub strip_prefix-parts : (p s t : Bytes) → strip_prefix p s ≡ some t → s ≡ p ++ t
unfolding strip_prefix
strip_prefix-parts [] s t e = ground arith
strip_prefix-parts (c ∷ p) [] t e = absurd cc
strip_prefix-parts (c ∷ p) (d ∷ s) t e = elim (Bool-cases (d == c)) [
  | inl h ↦
      let rest = strip_prefix-parts p s t (rw h at e) in let heads : d ≡ c = (==_iff d c).0 h in cc
  | inr h ↦ let bad : ◌≡◌ {A = Option Bytes} none (some t) = rw h at e in absurd cc
]
