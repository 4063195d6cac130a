-- ===== src/Gateway/Routing/Selection.antt =====
-- The selections of orchestrator.rs: by the least key after a filter, and by sorting.
use ngen_orca.Base.Select.{filter, min_by_key, insert_by_key, sort_by_key, first}
use ngen_orca.Base.{
  Bool, ℕ, List, ◌≡◌, Option, All, ◌∷◌, ◌++◌, false, [], true, Bool-cases, none, ◌∙◌, ◌<◌, some,
  inl, refl, ◌≤◌, ap, if◌then◌else◌, inr, leb, arith, leb→le, All-append, subst, sym, ◌↔◌,
}

-- The first of those with the least key, among the elements of a kind.
pub record FirstBest {A : Type 0} (P : A → Type 0) (key : A → ℕ) (xs : List A) (a : A)
    : Type 0 where
  pub before : List A
  pub after : List A
  pub parts : xs ≡ before ++ a ∷ after
  pub passes : P a
  pub dearer_before : All (λ b. P b → key a < key b) before
  pub no_cheaper_after : All (λ b. P b → key a ≤ key b) after

All-map {κ μ} :
    {A : Type 0} {P : A → Type κ} {Q : A → Type μ}
    → ((a : A) → P a → Q a)
    → (xs : List A) → All P xs
    → All Q xs
All-map f [] h = tt
All-map f (x ∷ xs) h = (f x h.0, All-map f xs h.1)

module _ {A : Type 0} (p : A → Bool) (key : A → ℕ) where
  unfoldable pub Picked : List A → Option A → Type 0
  Picked xs none = All (λ b. p b ≡ false) xs
  Picked xs (some a) = FirstBest (λ b. p b ≡ true) key xs a

  -- One element more, where the pick among the others is known.
  Picked-skip : (x : A) (xs : List A) (o : Option A) → p x ≡ false → Picked xs o → Picked (x ∷ xs) o
  unfolding Picked
  Picked-skip x xs none e h = (e, h)
  Picked-skip x xs (some a) e h = record {
    before = x ∷ h.before;
    after = h.after;
    parts = ap (◌∷◌ x) h.parts;
    passes = h.passes;
    dearer_before = (λ f. absurd cc, h.dearer_before);
    no_cheaper_after = h.no_cheaper_after;
  }

  Picked-new :
      (x : A) (xs : List A) (o : Option A)
      → p x ≡ true
      → Picked xs o
      → Picked
          (x ∷ xs)
          (elim o [ none ↦ some x | some y ↦ if leb (key x) (key y) then some x else some y ])
  unfolding Picked
  Picked-new x xs none e h = record {
    before = [];
    after = xs;
    parts = refl;
    passes = e;
    dearer_before = tt;
    no_cheaper_after = All-map (λ b f g. absurd cc) xs h;
  }
  Picked-new x xs (some a) e h = elim (Bool-cases (leb (key x) (key a))) [
    | inl f ↦
        let le : key x ≤ key a = leb→le (key x) (key a) f in
        let before_le = All-map (λ b g q. ground (arith, g q)) h.before h.dearer_before in
        let after_le = All-map (λ b g q. ground (arith, g q)) h.after h.no_cheaper_after in
        let rest : All (λ b. p b ≡ true → key x ≤ key b) (h.before ++ a ∷ h.after) =
          All-append (λ b. p b ≡ true → key x ≤ key b) h.before (a ∷ h.after) before_le
            (λ q. le, after_le) in
        rw f (record {
          before = [];
          after = xs;
          parts = refl;
          passes = e;
          dearer_before = tt;
          no_cheaper_after = subst (All (λ b. p b ≡ true → key x ≤ key b)) (sym h.parts) rest;
        })
    | inr f ↦
        let lt : key a < key x = ground arith in
        rw f (record {
          before = x ∷ h.before;
          after = h.after;
          parts = ap (◌∷◌ x) h.parts;
          passes = h.passes;
          dearer_before = (λ q. lt, h.dearer_before);
          no_cheaper_after = h.no_cheaper_after;
        })
  ]

  pub min_by_key-Picked : (xs : List A) → Picked xs (min_by_key key (filter p xs))
  unfolding Picked
  min_by_key-Picked [] = tt
  min_by_key-Picked (x ∷ xs) =
      let ih = min_by_key-Picked xs in
      elim (Bool-cases (p x)) [
        | inl e ↦ rw e (Picked-new x xs (min_by_key key (filter p xs)) e ih)
        | inr e ↦ rw e (Picked-skip x xs (min_by_key key (filter p xs)) e ih)
      ]

-- The pick among the elements of a kind, which the test decides.
pub data Chosen {A : Type 0} (P : A → Type 0) (key : A → ℕ) (xs : List A) : Option A → Type 0 where
  chosen : (a : A) → FirstBest P key xs a → Chosen P key xs (some a)
  no_one : All (λ b. ¬ P b) xs → Chosen P key xs none

Picked-Chosen :
    {A : Type 0} (p : A → Bool) (P : A → Type 0) (key : A → ℕ) (xs : List A) (o : Option A)
    → ((a : A) → (p a ≡ true) ↔ P a)
    → Picked p key xs o
    → Chosen P key xs o
unfolding Picked
Picked-Chosen p P key xs none decides h =
    no_one (All-map (λ b f q. let yes = (decides b).1 q in absurd cc) xs h)
Picked-Chosen p P key xs (some a) decides h = chosen a (record {
  before = h.before;
  after = h.after;
  parts = h.parts;
  passes = (decides a).0 h.passes;
  dearer_before = All-map (λ b f q. f ((decides b).1 q)) h.before h.dearer_before;
  no_cheaper_after = All-map (λ b f q. f ((decides b).1 q)) h.after h.no_cheaper_after;
})

pub min_by_key-Chosen :
    {A : Type 0} (p : A → Bool) (P : A → Type 0) (key : A → ℕ) (xs : List A)
    → ((a : A) → (p a ≡ true) ↔ P a)
    → Chosen P key xs (min_by_key key (filter p xs))
min_by_key-Chosen p P key xs decides =
    Picked-Chosen p P key xs _ decides (min_by_key-Picked p key xs)

module _ {ℓ} {A : Type ℓ} (key : A → ℕ) where
  first-insert :
      (x : A) (ys : List A)
      → first (insert_by_key key x ys) ≡ elim (first ys) [
        | none ↦ some x
        | some y ↦ if leb (key x) (key y) then some x else some y
      ]
  first-insert x [] = refl
  first-insert x (y ∷ ys) = ground arith

  -- The head of the sorted list is the first element of the least key.
  pub first-sort_by_key : (xs : List A) → first (sort_by_key key xs) ≡ min_by_key key xs
  first-sort_by_key [] = refl
  first-sort_by_key (x ∷ xs) = first-insert x (sort_by_key key xs) ∙ rw (first-sort_by_key xs) refl
