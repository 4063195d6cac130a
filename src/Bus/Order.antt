-- ===== src/Bus/Order.antt =====
-- The order of a log by id.
use ngen_orca.Base.{
  refl, All, ℕ, ◌∷◌, ◌≢◌, ◌≤◌, Bool, [], ◌<◌, Bool-cases, ◌≡◌, leb, inl, if◌then◌else◌, inr, arith,
  true, ap, le→leb, ◌∙◌, sym, leb→le, ◌++◌, false,
}
use ngen_orca.Base.Select.{filter, insert_by_key}
use mathlib.Core.List.{Perm}
use mathlib.Core.List.Perm
use ngen_orca.Bus.{Event, EventLog, by_id}

abbrev id_of : Event → ℕ
id_of e = e.event_id

-- No two rows have one id.
unfoldable pub Distinct : EventLog → Type 0
Distinct [] = Unit
Distinct (x ∷ xs) = All (λ y. x.event_id ≢ y.event_id) xs × Distinct xs

unfoldable pub Ascending : EventLog → Type 0
Ascending [] = Unit
Ascending (x ∷ xs) = All (λ y. x.event_id < y.event_id) xs × Ascending xs

module _ {P Q : Event → Type 0} where
  pub All-map : ((e : Event) → P e → Q e) → (xs : EventLog) → All P xs → All Q xs
  All-map f [] h = tt
  All-map f (x ∷ xs) h = (f x h.0, All-map f xs h.1)

module _ (P : Event → Type 0) where
  All-insert : (x : Event) (ys : EventLog) → P x → All P ys → All P (insert_by_key id_of x ys)
  All-insert x [] h k = (h, k)
  All-insert x (y ∷ ys) h k = elim (Bool-cases (leb x.event_id y.event_id)) [
    | inl e ↦ rw e (h, k)
    | inr e ↦ rw e (k.0, All-insert x ys h k.1)
  ]

  All-by_id : (xs : EventLog) → All P xs → All P (by_id xs)
  All-by_id [] h = h
  All-by_id (x ∷ xs) h = All-insert x (by_id xs) h.0 (All-by_id xs h.1)

insert-Ascending :
    (x : Event) (ys : EventLog)
    → All (λ y. x.event_id ≢ y.event_id) ys
    → Ascending ys
    → Ascending (insert_by_key id_of x ys)
unfolding Ascending
insert-Ascending x [] h k = (h, k)
insert-Ascending x (y ∷ ys) h k = elim (Bool-cases (leb x.event_id y.event_id)) [
  | inl e ↦
      let ne = h.0 in
      let lt : x.event_id < y.event_id = ground arith in
      rw e ((lt, All-map (λ z q. omega arith) ys k.0), k)
  | inr e ↦
      let lt : y.event_id < x.event_id = ground arith in
      rw e (All-insert (λ z. y.event_id < z.event_id) x ys lt k.0, insert-Ascending x ys h.1 k.1)
]

pub by_id-Ascending : (xs : EventLog) → Distinct xs → Ascending (by_id xs)
unfolding Ascending Distinct
by_id-Ascending [] h = tt
by_id-Ascending (x ∷ xs) h =
    insert-Ascending x (by_id xs) (All-by_id (λ y. x.event_id ≢ y.event_id) xs h.0)
      (by_id-Ascending xs h.1)

-- An element that no other comes before.
insert-front :
    (x : Event) (ys : EventLog)
    → All (λ y. x.event_id ≤ y.event_id) ys
    → insert_by_key id_of x ys ≡ x ∷ ys
insert-front x [] h = refl
insert-front x (y ∷ ys) h =
    let e : leb x.event_id y.event_id ≡ true = le→leb x.event_id y.event_id h.0 in rw e refl

module _ (p : Event → Bool) where
  All-filter : (P : Event → Type 0) (xs : EventLog) → All P xs → All P (filter p xs)
  All-filter P [] h = h
  All-filter P (x ∷ xs) h = elim (Bool-cases (p x)) [
    | inl e ↦ rw e (h.0, All-filter P xs h.1)
    | inr e ↦ rw e (All-filter P xs h.1)
  ]

  pub filter-Distinct : (xs : EventLog) → Distinct xs → Distinct (filter p xs)
  unfolding Distinct
  filter-Distinct [] h = h
  filter-Distinct (x ∷ xs) h = elim (Bool-cases (p x)) [
    | inl e ↦ rw e (All-filter (λ y. x.event_id ≢ y.event_id) xs h.0, filter-Distinct xs h.1)
    | inr e ↦ rw e (filter-Distinct xs h.1)
  ]

  pub filter-append : (xs ys : EventLog) → filter p (xs ++ ys) ≡ filter p xs ++ filter p ys
  filter-append [] ys = refl
  filter-append (x ∷ xs) ys = elim (Bool-cases (p x)) [
    | inl e ↦ rw e (ap (◌∷◌ x) (filter-append xs ys))
    | inr e ↦ rw e (filter-append xs ys)
  ]

  pub filter-none : (xs : EventLog) → All (λ x. p x ≡ false) xs → filter p xs ≡ []
  filter-none [] h = refl
  filter-none (x ∷ xs) h = rw h.0 (filter-none xs h.1)

  filter-insert :
      (x : Event) (ys : EventLog)
      → Ascending ys
      → filter p (insert_by_key id_of x ys)
        ≡ (if p x then insert_by_key id_of x (filter p ys) else filter p ys)
  unfolding Ascending
  filter-insert x [] h = ground arith
  filter-insert x (y ∷ ys) h =
      let ih = filter-insert x ys h.1 in
      elim (Bool-cases (leb x.event_id y.event_id)) [
        | inl e ↦
            let le : x.event_id ≤ y.event_id = leb→le x.event_id y.event_id e in
            let all_le : All (λ z. x.event_id ≤ z.event_id) (y ∷ ys) =
              (le, All-map (λ z q. omega arith) ys h.0) in
            let front : insert_by_key id_of x (filter p (y ∷ ys)) ≡ x ∷ filter p (y ∷ ys) =
              insert-front x (filter p (y ∷ ys))
                (All-filter (λ z. x.event_id ≤ z.event_id) (y ∷ ys) all_le) in
            elim (Bool-cases (p x)) [ inl g ↦ rw (e, g) (sym front) | inr g ↦ rw (e, g) refl ]
        | inr e ↦ elim (Bool-cases (p x)) [
          | inl g ↦ elim (Bool-cases (p y)) [
            | inl k ↦ rw (e, g, k, e) (ap (◌∷◌ y) (rw g at ih))
            | inr k ↦ rw (e, g, k) (rw g at ih)
          ]
          | inr g ↦ elim (Bool-cases (p y)) [
            | inl k ↦ rw (e, g, k) (ap (◌∷◌ y) (rw g at ih))
            | inr k ↦ rw (e, g, k) (rw g at ih)
          ]
        ]
      ]

  -- Filtering and sorting commute.
  pub by_id-filter : (xs : EventLog) → Distinct xs → by_id (filter p xs) ≡ filter p (by_id xs)
  unfolding Distinct
  by_id-filter [] h = refl
  by_id-filter (x ∷ xs) h =
      let ih = by_id-filter xs h.1 in
      let step = filter-insert x (by_id xs) (by_id-Ascending xs h.1) in
      elim (Bool-cases (p x)) [
        | inl e ↦ rw e (ap (insert_by_key id_of x) ih) ∙ sym (rw e at step)
        | inr e ↦ rw e ih ∙ sym (rw e at step)
      ]

insert-Perm : (x : Event) (ys : EventLog) → Perm (x ∷ ys) (insert_by_key id_of x ys)
insert-Perm x [] = Perm.refl (x ∷ [])
insert-Perm x (y ∷ ys) = elim (Bool-cases (leb x.event_id y.event_id)) [
  | inl e ↦ rw e (Perm.refl (x ∷ y ∷ ys))
  | inr e ↦ rw e (Perm.trans (Perm.swap y x ys) (Perm.cons y (insert-Perm x ys)))
]

pub by_id-Perm : (xs : EventLog) → Perm xs (by_id xs)
by_id-Perm [] = Perm.refl []
by_id-Perm (x ∷ xs) = Perm.trans (Perm.cons x (by_id-Perm xs)) (insert-Perm x (by_id xs))
