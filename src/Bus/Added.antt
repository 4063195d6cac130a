-- ===== src/Bus/Added.antt =====
-- What publishing adds to the log of lib.rs, and what is broadcast of it.
use ngen_orca.Base.{
  refl, All, All-append, List, ◌≡◌, any, ◌≢◌, Bool-cases, ◌∷◌, ◌==◌, ◌++◌, [], false, inl, ap,
  arith, inr, ◌∙◌, sym, append-nil, append_assoc,
}
use ngen_orca.Bus.{Event, EventLog, EventBus, publish, append}
use ngen_orca.Bus.Order.{Distinct}

unfoldable pub publish_all : EventBus → List Event → EventBus
publish_all bus [] = bus
publish_all bus (e ∷ more) = publish_all (publish bus e).1 more

fresh_id :
    (log : EventLog) (e : Event)
    → any (λ d. d.event_id == e.event_id) log ≡ false
    → All (λ d. d.event_id ≢ e.event_id) log
fresh_id [] e h = tt
fresh_id (d ∷ log) e h =
    let ne : d.event_id ≢ e.event_id = ground arith in
    let rest : any (λ d. d.event_id == e.event_id) log ≡ false = ground arith in
    (ne, fresh_id log e rest)

Distinct-append :
    (log : EventLog) (e : Event)
    → All (λ d. d.event_id ≢ e.event_id) log
    → Distinct log
    → Distinct (log ++ e ∷ [])
unfolding Distinct
Distinct-append [] e h k = (tt, tt)
Distinct-append (d ∷ log) e h k = (
  All-append (λ y. d.event_id ≢ y.event_id) log (e ∷ []) k.0 (h.0, tt),
  Distinct-append log e h.1 k.1,
)

pub append-Distinct :
    (bus : EventBus) (e : Event) → Distinct bus.log → Distinct (publish bus e).1.log
unfolding publish append
append-Distinct bus e d = elim (Bool-cases (any (λ d. d.event_id == e.event_id) bus.log)) [
  | inl h ↦ rw (h, publish, append) d
  | inr h ↦ rw (h, publish, append) (Distinct-append bus.log e (fresh_id bus.log e h) d)
]

pub publish_all-Distinct :
    (es : List Event) (bus : EventBus) → Distinct bus.log → Distinct (publish_all bus es).log
unfolding publish_all
publish_all-Distinct [] bus d = d
publish_all-Distinct (e ∷ es) bus d =
    publish_all-Distinct es (publish bus e).1 (append-Distinct bus e d)

-- What was added to the log and broadcast, by publishing events.
pub record Added (P : Event → Type 0) (bus bus' : EventBus) : Type 0 where
  pub added : List Event
  pub rows : bus'.log ≡ bus.log ++ added
  pub broadcast : bus'.sent ≡ bus.sent ++ added
  pub each : All P added

publish-Added :
    (P : Event → Type 0) (bus : EventBus) (e : Event) → P e → Added P bus (publish bus e).1
unfolding publish append
publish-Added P bus e h = elim (Bool-cases (any (λ d. d.event_id == e.event_id) bus.log)) [
  | inl f ↦
      rw (f, publish, append)
        (record {
          added = [];
          rows = sym (append-nil bus.log);
          broadcast = sym (append-nil bus.sent);
          each = tt;
        })
  | inr f ↦
      rw (f, publish, append)
        (record { added = e ∷ []; rows = refl; broadcast = refl; each = (h, tt) })
]

pub publish_all-Added :
    (P : Event → Type 0) (es : List Event) (bus : EventBus)
    → All P es
    → Added P bus (publish_all bus es)
unfolding publish_all
publish_all-Added P [] bus h = record {
  added = [];
  rows = sym (append-nil bus.log);
  broadcast = sym (append-nil bus.sent);
  each = tt;
}
publish_all-Added P (e ∷ es) bus h =
    let one = publish-Added P bus e h.0 in
    let rest = publish_all-Added P es (publish bus e).1 h.1 in
    record {
      added = one.added ++ rest.added;
      rows =
          rest.rows
          ∙ ap (λ l. l ++ rest.added) one.rows
          ∙ append_assoc bus.log one.added rest.added;
      broadcast =
          rest.broadcast
          ∙ ap (λ l. l ++ rest.added) one.broadcast
          ∙ append_assoc bus.sent one.added rest.added;
      each = All-append P one.added rest.added one.each rest.each;
    }
