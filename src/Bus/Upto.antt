-- ===== src/Bus/Upto.antt =====
-- The rows up to an event and those after it, where the rows of event_log.rs are read in the order of their ids.
use ngen_orca.Base.{
  refl, All, Option, ◌≡◌, Bool-cases, true, ◌<◌, ℕ, ◌∷◌, none, ◌++◌, ltb, take, [], some, false,
  inl, ap, lt→ltb, arith, inr, ◌⊎◌, suc, subst, ◌∙◌, zero, sym, not, append-nil, Bool, ltb→lt,
}
use ngen_orca.Base.Select.{filter}
use ngen_orca.Bus.{Event, EventLog, by_id}
use ngen_orca.Bus.Order.{All-map, filter-append, Distinct, Ascending, by_id-filter}

abbrev pub last : EventLog → Option Event
last [] = none
last (e ∷ []) = some e
last (e ∷ d ∷ more) = last (d ∷ more)

-- The rows after one that is below them all.
filter-above :
    (x : Event) (xs : EventLog)
    → All (λ y. x.event_id < y.event_id) xs
    → filter (λ y. ltb x.event_id y.event_id) xs ≡ xs
filter-above x [] h = refl
filter-above x (y ∷ xs) h =
    let above : ltb x.event_id y.event_id ≡ true = lt→ltb x.event_id y.event_id h.0 in
    rw above (ap (◌∷◌ y) (filter-above x xs h.1))

last-rest :
    (x : Event) (xs : EventLog) (e : Event)
    → last (x ∷ xs) ≡ some e
    → ((xs ≡ []) × (x ≡ e)) ⊎ (last xs ≡ some e)
last-rest x [] e f = inl (refl, cc)
last-rest x (y ∷ ys) e f = inr f

pub last-All :
    (P : Event → Type 0) (n : ℕ) (xs : EventLog) (e : Event)
    → All P xs
    → last (take n xs) ≡ some e
    → P e
last-All P zero xs e h f = absurd cc
last-All P (suc n) [] e h f = absurd cc
last-All P (suc n) (x ∷ xs) e h f = elim (last-rest x (take n xs) e f) [
  | inl (g, same) ↦ subst P same h.0
  | inr f' ↦ last-All P n xs e h.1 f'
]

-- The rows up to one, and the rows after it.
abbrev pub up_to : Event → Event → Bool
up_to e y = not (ltb e.event_id y.event_id)

abbrev pub after : Event → Event → Bool
after e y = ltb e.event_id y.event_id

pub up_to-none :
    (x : Event) (xs : EventLog) → All (λ y. x.event_id < y.event_id) xs → filter (up_to x) xs ≡ []
up_to-none x [] h = refl
up_to-none x (y ∷ xs) h =
    let above : ltb x.event_id y.event_id ≡ true = lt→ltb x.event_id y.event_id h.0 in
    rw above (up_to-none x xs h.1)

-- In ascending order, the rows up to one come before the rows after it.
pub up_to-after :
    (e : Event) (xs : EventLog) → Ascending xs → filter (up_to e) xs ++ filter (after e) xs ≡ xs
unfolding Ascending
up_to-after e [] h = refl
up_to-after e (x ∷ xs) h = elim (Bool-cases (ltb e.event_id x.event_id)) [
  | inr f ↦ rw f (ap (◌∷◌ x) (up_to-after e xs h.1))
  | inl f ↦
      let lt : e.event_id < x.event_id = ltb→lt e.event_id x.event_id f in
      let above : All (λ y. e.event_id < y.event_id) xs =
        All-map {P = λ y. x.event_id < y.event_id} (λ y q. omega arith) xs h.0 in
      let none_left = up_to-none e xs above in
      let all_after = filter-above e xs above in rw (f, none_left, all_after) refl
]

-- The first rows are those up to the last of them.
pub take-up_to :
    (n : ℕ) (xs : EventLog) (e : Event)
    → Ascending xs
    → last (take n xs) ≡ some e
    → take n xs ≡ filter (up_to e) xs
unfolding Ascending
take-up_to zero xs e h f = absurd cc
take-up_to (suc n) [] e h f = absurd cc
take-up_to (suc n) (x ∷ xs) e h f = elim (last-rest x (take n xs) e f) [
  | inl (g, same) ↦
      let self : ltb x.event_id x.event_id ≡ false = ground arith in
      let none_left = up_to-none x xs h.0 in
      subst (λ k. take (suc n) (x ∷ xs) ≡ filter (up_to k) (x ∷ xs)) same
        (rw (self, g, none_left) refl)
  | inr f' ↦
      let lt : x.event_id < e.event_id = last-All (λ y. x.event_id < y.event_id) n xs e h.0 f' in
      let below : ltb e.event_id x.event_id ≡ false = ground arith in
      rw below (ap (◌∷◌ x) (take-up_to n xs e h.1 f'))
]

-- Later rows do not change what is up to an event that they are all after.
pub by_id-up_to :
    (e : Event) (log added : EventLog)
    → Distinct log
    → Distinct (log ++ added)
    → All (λ y. e.event_id < y.event_id) added
    → filter (up_to e) (by_id (log ++ added)) ≡ filter (up_to e) (by_id log)
by_id-up_to e log added d d' newer =
    let fewer : filter (up_to e) (log ++ added) ≡ filter (up_to e) log =
      filter-append (up_to e) log added
      ∙ ap (λ l. filter (up_to e) log ++ l) (up_to-none e added newer)
      ∙ append-nil (filter (up_to e) log) in
    sym (by_id-filter (up_to e) (log ++ added) d') ∙ ap by_id fewer ∙ by_id-filter (up_to e) log d
