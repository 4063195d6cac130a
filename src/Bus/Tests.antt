-- ===== src/Bus/Tests.antt =====
-- A bus that is opened on one row, where an event is published with an id that is taken.
use ngen_orca.Base.{refl, ◌∷◌, [], ℕ, List, none, some, ◌≡◌, ◌++◌, arith}
use ngen_orca.Base.Select.{filter}
use ngen_orca.Bus.{Event, EventBus, new, replay, replay_after, publish, prune_before}
use ngen_orca.Bus.Subscriber.{for_session, arrived, lagged, drain, drain-filter, Item, events_of}
use ngen_orca.Bus.Added.{publish_all}
use ngen_orca.Bus.Resume.{Complete, replay_after-Complete, Op, run_all, published, pruned_before}

abbrev event : ℕ → ℕ → Event
event id at = record {
  event_id = id;
  timestamp = at;
  event_session = none;
  event_user = none;
  payload = [];
}

-- Opened with a row that is there already. The second one has the lower id.
abbrev stored : List Event
stored = event 1 0 ∷ []

abbrev ops : List Op
ops = published (event 7 1) ∷ published (event 3 2) ∷ pruned_before 1 ∷ published (event 7 3) ∷ []

abbrev bus : EventBus
bus = run_all (new stored) ops

abbrev later : List Event
later = event 9 4 ∷ event 8 5 ∷ []

replay_after-Complete_example :
    Complete bus
      (publish_all bus later)
      (replay bus none (some 2) ++ replay_after (publish_all bus later) 7)
unfolding ngen_orca.Bus.append ngen_orca.Bus.query ngen_orca.Bus.asked ngen_orca.Bus.query_filtered
    ngen_orca.Bus.query_recent ngen_orca.Bus.query_after ngen_orca.Bus.count
    ngen_orca.Bus.prune_before ngen_orca.Bus.new ngen_orca.Bus.publish ngen_orca.Bus.prune
    ngen_orca.Bus.replay ngen_orca.Bus.replay_after ngen_orca.Bus.replay_recent
    ngen_orca.Bus.replay_filtered ngen_orca.Bus.event_count ngen_orca.Bus.Resume.run_all
    ngen_orca.Bus.Added.publish_all ngen_orca.Bus.Order.Distinct ngen_orca.Bus.Order.Ascending
replay_after-Complete_example =
    replay_after-Complete stored ops later 2 (event 7 1) (tt, tt) (omega arith) refl
      (omega arith, (omega arith, tt))

all_in_order :
    replay (publish_all bus later) none none ≡ event 3 2 ∷ event 7 1 ∷ event 8 5 ∷ event 9 4 ∷ []
unfolding ngen_orca.Bus.append ngen_orca.Bus.query ngen_orca.Bus.asked ngen_orca.Bus.query_filtered
    ngen_orca.Bus.query_recent ngen_orca.Bus.query_after ngen_orca.Bus.count
    ngen_orca.Bus.prune_before ngen_orca.Bus.new ngen_orca.Bus.publish ngen_orca.Bus.prune
    ngen_orca.Bus.replay ngen_orca.Bus.replay_after ngen_orca.Bus.replay_recent
    ngen_orca.Bus.replay_filtered ngen_orca.Bus.event_count ngen_orca.Bus.Resume.run_all
    ngen_orca.Bus.Added.publish_all ngen_orca.Bus.Order.Distinct ngen_orca.Bus.Order.Ascending
all_in_order = refl

-- An event whose id is before the last one replayed is missed.
missed : replay_after (publish_all bus (event 5 4 ∷ event 8 5 ∷ [])) 7 ≡ event 8 5 ∷ []
unfolding ngen_orca.Bus.append ngen_orca.Bus.query ngen_orca.Bus.asked ngen_orca.Bus.query_filtered
    ngen_orca.Bus.query_recent ngen_orca.Bus.query_after ngen_orca.Bus.count
    ngen_orca.Bus.prune_before ngen_orca.Bus.new ngen_orca.Bus.publish ngen_orca.Bus.prune
    ngen_orca.Bus.replay ngen_orca.Bus.replay_after ngen_orca.Bus.replay_recent
    ngen_orca.Bus.replay_filtered ngen_orca.Bus.event_count ngen_orca.Bus.Resume.run_all
    ngen_orca.Bus.Added.publish_all ngen_orca.Bus.Order.Distinct ngen_orca.Bus.Order.Ascending
missed = refl

pruned : prune_before bus.log 2 ≡ (1, event 3 2 ∷ [])
unfolding ngen_orca.Bus.append ngen_orca.Bus.query ngen_orca.Bus.asked ngen_orca.Bus.query_filtered
    ngen_orca.Bus.query_recent ngen_orca.Bus.query_after ngen_orca.Bus.count
    ngen_orca.Bus.prune_before ngen_orca.Bus.new ngen_orca.Bus.publish ngen_orca.Bus.prune
    ngen_orca.Bus.replay ngen_orca.Bus.replay_after ngen_orca.Bus.replay_recent
    ngen_orca.Bus.replay_filtered ngen_orca.Bus.event_count ngen_orca.Bus.Resume.run_all
    ngen_orca.Bus.Added.publish_all ngen_orca.Bus.Order.Distinct ngen_orca.Bus.Order.Ascending
pruned = refl

abbrev of_session : ℕ → Event
of_session id = record (event id 1) { event_session = some 5 }

abbrev given : List Item
given = arrived (event 1 1) ∷ arrived (of_session 2) ∷ lagged 3 ∷ arrived (of_session 6) ∷ []

drain-filter_example :
    drain 5 (for_session given 5)
    ≡ filter (for_session given 5).wants (events_of (for_session given 5).rx)
unfolding ngen_orca.Bus.Subscriber.for_session
drain-filter_example = drain-filter (for_session given 5) 5 (omega arith)

of_session_only : drain 5 (for_session given 5) ≡ of_session 2 ∷ of_session 6 ∷ []
unfolding ngen_orca.Bus.append ngen_orca.Bus.query ngen_orca.Bus.asked ngen_orca.Bus.query_filtered
    ngen_orca.Bus.query_recent ngen_orca.Bus.query_after ngen_orca.Bus.count
    ngen_orca.Bus.prune_before ngen_orca.Bus.new ngen_orca.Bus.publish ngen_orca.Bus.replay
    ngen_orca.Bus.replay_after ngen_orca.Bus.replay_recent ngen_orca.Bus.replay_filtered
    ngen_orca.Bus.event_count ngen_orca.Bus.Subscriber.all_events
    ngen_orca.Bus.Subscriber.messages_only ngen_orca.Bus.Subscriber.for_session
    ngen_orca.Bus.Subscriber.recv_from ngen_orca.Bus.Subscriber.recv ngen_orca.Bus.Subscriber.drain
of_session_only = refl
