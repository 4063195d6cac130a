-- ===== src/Bus/Resume.antt =====
-- A subscriber that replays a part of the log and then catches up.
use ngen_orca.Base.{
  refl, All, List, ◌≡◌, true, ◌<◌, ℕ, ◌∷◌, none, ◌++◌, ltb, take, [], some, ap, lt→ltb, ◌^◌, subst,
  ◌∙◌, sym, not,
}
use ngen_orca.Base.Select.{filter}
use mathlib.Core.List.{Perm}
use ngen_orca.Bus.{
  prune, prune_before, Event, EventLog, EventBus, by_id, publish, replay, replay_after, query_after,
  query, new,
}
use ngen_orca.Bus.Order.{
  filter-Distinct, Distinct, Ascending, by_id-filter, by_id-Perm, by_id-Ascending,
}
use ngen_orca.Bus.Added.{publish_all, append-Distinct, publish_all-Distinct, publish_all-Added}
use ngen_orca.Bus.Upto.{last, up_to, after, up_to-after, take-up_to, by_id-up_to}

-- What happens to a bus between replays.
pub data Op : Type 0 where
  published : Event → Op
  pruned_before : ℕ → Op

unfoldable pub run_all : EventBus → List Op → EventBus
run_all bus [] = bus
run_all bus (published e ∷ more) = run_all (publish bus e).1 more
run_all bus (pruned_before cutoff ∷ more) = run_all (prune bus cutoff) more

run_all-Distinct :
    (ops : List Op) (bus : EventBus) → Distinct bus.log → Distinct (run_all bus ops).log
unfolding run_all prune prune_before
run_all-Distinct [] bus d = d
run_all-Distinct (published e ∷ ops) bus d =
    run_all-Distinct ops (publish bus e).1 (append-Distinct bus e d)
run_all-Distinct (pruned_before cutoff ∷ ops) bus d =
    run_all-Distinct ops (prune bus cutoff)
      (filter-Distinct (λ e. not (ltb e.timestamp cutoff)) bus.log d)

filter_all : (log : EventLog) → filter (λ e. true) log ≡ log
filter_all [] = refl
filter_all (e ∷ log) = ap (◌∷◌ e) (filter_all log)

-- The events are those of the first state and those that were broadcast since, in the order of their ids.
pub record Complete (bus bus' : EventBus) (events : EventLog) : Type 0 where
  pub added : List Event
  pub broadcast : bus'.sent ≡ bus.sent ++ added
  pub in_order : Ascending events
  pub all_of_them : Perm (bus.log ++ added) events

resumed :
    (bus : EventBus) (n : ℕ) (e : Event) (later : List Event)
    → Distinct bus.log
    → n < 2 ^ 63
    → last (replay bus none (some n)) ≡ some e
    → All (λ y. e.event_id < y.event_id) later
    → Complete bus
        (publish_all bus later)
        (replay bus none (some n) ++ replay_after (publish_all bus later) e.event_id)
unfolding replay replay_after query query_after
resumed bus n e later d fits f newer =
    let bus' : EventBus = publish_all bus later in
    let more = publish_all-Added (λ y. e.event_id < y.event_id) later bus newer in
    let d' : Distinct bus'.log = publish_all-Distinct later bus d in
    let d2 : Distinct (bus.log ++ more.added) = subst Distinct more.rows d' in
    let small : ltb n (2 ^ 63) ≡ true = lt→ltb n (2 ^ 63) fits in
    let whole : filter (λ (y : Event). true) bus.log ≡ bus.log = filter_all bus.log in
    let part : replay bus none (some n) ≡ take n (by_id bus.log) =
      rw small (ap (λ l. take n (by_id l)) whole) in
    let first : replay bus none (some n) ≡ filter (up_to e) (by_id bus'.log) =
      part
      ∙ take-up_to n (by_id bus.log) e (by_id-Ascending bus.log d) (sym (ap last part) ∙ f)
      ∙ sym (by_id-up_to e bus.log more.added d d2 more.each)
      ∙ ap (λ l. filter (up_to e) (by_id l)) (sym more.rows) in
    let second : replay_after bus' e.event_id ≡ filter (after e) (by_id bus'.log) =
      by_id-filter (after e) bus'.log d' in
    let sorted = by_id-Ascending bus'.log d' in
    let all : replay bus none (some n) ++ replay_after bus' e.event_id ≡ by_id bus'.log =
      ap (λ l. l ++ replay_after bus' e.event_id) first
      ∙ ap (λ l. filter (up_to e) (by_id bus'.log) ++ l) second
      ∙ up_to-after e (by_id bus'.log) sorted in
    record {
      added = more.added;
      broadcast = more.broadcast;
      in_order = subst Ascending (sym all) sorted;
      all_of_them =
          subst (λ l. Perm l (replay bus none (some n) ++ replay_after bus' e.event_id)) more.rows
            (subst (Perm bus'.log) (sym all) (by_id-Perm bus'.log));
    }

-- A bus is opened on a log whose ids differ, and any events are published and prunings made. A subscriber
-- replays the first events (fewer than 2 ^ 63 of them, and at least one), events are published whose ids are
-- after the last one it got, and it replays what is after that one. It then has every event of the log at the
-- first replay and every event broadcast since, once, in the order of their ids.
pub replay_after-Complete :
    (stored : EventLog) (ops : List Op) (later : List Event) (n : ℕ) (e : Event)
    → Distinct stored
    → n < 2 ^ 63
    → last (replay (run_all (new stored) ops) none (some n)) ≡ some e
    → All (λ y. e.event_id < y.event_id) later
    → Complete (run_all (new stored) ops) (publish_all (run_all (new stored) ops) later) (
        replay (run_all (new stored) ops) none (some n)
        ++ replay_after (publish_all (run_all (new stored) ops) later) e.event_id)
unfolding new
replay_after-Complete stored ops later n e d fits f newer =
    resumed (run_all (new stored) ops) n e later (run_all-Distinct ops (new stored) d) fits f newer
