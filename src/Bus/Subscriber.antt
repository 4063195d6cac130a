-- ===== src/Bus/Subscriber.antt =====
-- ngenorca-bus/src/subscriber.rs. What the channel gives is a list, an event or how many were lost, and after
-- it the channel is closed. Whether a payload is a message is an argument.
use ngen_orca.Base.{
  refl, ◌∷◌, [], ℕ, List, Bool, Option, true, some, none, suc, ◌≡◌, length, if◌then◌else◌, zero,
  ◌<◌, inl, arith, Bool-cases, inr, ap, ◌∙◌, sym,
}
use ngen_orca.Base.Select.{filter}
use ngen_orca.Bus.{Event, in_session}

pub data Item : Type 0 where
  arrived : Event → Item
  lagged : ℕ → Item

pub record FilteredSubscriber : Type 0 where
  pub rx : List Item
  pub wants : Event → Bool

unfoldable pub all_events : List Item → FilteredSubscriber
all_events rx = record { rx = rx; wants = λ e. true }

unfoldable pub messages_only : (Event → Bool) → List Item → FilteredSubscriber
messages_only is_message rx = record { rx = rx; wants = is_message }

unfoldable pub for_session : List Item → ℕ → FilteredSubscriber
for_session rx session = record { rx = rx; wants = in_session (some session) }

-- The loop of `recv`, and what it leaves in the channel.
unfoldable pub recv_from : (Event → Bool) → List Item → Option Event × List Item
recv_from wants [] = (none, [])
recv_from wants (arrived e ∷ rx) =
    let rest = recv_from wants rx in if wants e then (some e, rx) else rest
recv_from wants (lagged n ∷ rx) = recv_from wants rx

unfoldable pub recv : FilteredSubscriber → Option Event × FilteredSubscriber
recv s = let (o, rx) = recv_from s.wants s.rx in (o, record s { rx = rx })

-- The events that arrive.
abbrev pub events_of : List Item → List Event
events_of [] = []
events_of (arrived e ∷ rx) = e ∷ events_of rx
events_of (lagged n ∷ rx) = events_of rx

-- `recv` until the channel is closed, on fuel.
unfoldable pub drain : ℕ → FilteredSubscriber → List Event
drain zero s = []
drain (suc fuel) s =
    let rest = drain fuel (recv s).1 in elim (recv s).0 [ none ↦ [] | some e ↦ e ∷ rest ]

-- What one call finds: nothing that is wanted, or the first event that is.
data Found (wants : Event → Bool) (rx : List Item) : Type 0 where
  nothing : recv_from wants rx ≡ (none, []) → filter wants (events_of rx) ≡ [] → Found wants rx
  next :
      (e : Event) (more : List Item)
      → recv_from wants rx ≡ (some e, more)
      → filter wants (events_of rx) ≡ e ∷ filter wants (events_of more)
      → length more < length rx
      → Found wants rx

recv_from-Found : (wants : Event → Bool) (rx : List Item) → Found wants rx
unfolding recv_from
recv_from-Found wants [] = nothing refl refl
recv_from-Found wants (lagged n ∷ rx) = elim (recv_from-Found wants rx) [
  | nothing a b ↦ nothing a b
  | next e more a b lt ↦ next e more a b (omega arith)
]
recv_from-Found wants (arrived e ∷ rx) = elim (Bool-cases (wants e)) [
  | inl h ↦ next e rx (rw h refl) (rw h refl) (omega arith)
  | inr h ↦ elim (recv_from-Found wants rx) [
    | nothing a b ↦ nothing (rw h a) (rw h b)
    | next d more a b lt ↦ next d more (rw h a) (rw h b) (omega arith)
  ]
]

abbrev over : (Event → Bool) → List Item → FilteredSubscriber
over wants rx = record { rx = rx; wants = wants }

-- One call and the calls after it.
drain-recv_from :
    (wants : Event → Bool) (fuel : ℕ) (rx more : List Item) (o : Option Event)
    → recv_from wants rx ≡ (o, more)
    → drain (suc fuel) (over wants rx)
      ≡ elim o [ none ↦ [] | some e ↦ e ∷ drain fuel (over wants more) ]
unfolding drain recv
drain-recv_from wants fuel rx more o f =
    ap (λ r. elim r.0 as (λ x. List Event) [ none ↦ [] | some e ↦ e ∷ drain fuel (over wants r.1) ])
      f

drain-over :
    (wants : Event → Bool) (fuel : ℕ) (rx : List Item)
    → length rx < fuel
    → drain fuel (over wants rx) ≡ filter wants (events_of rx)
drain-over wants zero rx h = absurd (omega arith)
drain-over wants (suc fuel) rx h = elim (recv_from-Found wants rx) [
  | nothing a b ↦ drain-recv_from wants fuel rx [] none a ∙ sym b
  | next e more a b lt ↦
      drain-recv_from wants fuel rx more (some e) a
      ∙ ap (◌∷◌ e) (drain-over wants fuel more (omega arith))
      ∙ sym b
]

-- Calls of `recv`, as many as the channel holds items and one, give the events that the subscriber wants
-- of those that arrive, all of them and in their order, also where the channel lagged in between.
pub drain-filter :
    (s : FilteredSubscriber) (fuel : ℕ)
    → length s.rx < fuel
    → drain fuel s ≡ filter s.wants (events_of s.rx)
drain-filter s fuel h = drain-over s.wants fuel s.rx h
