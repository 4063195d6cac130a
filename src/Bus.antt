-- ===== src/Bus.antt =====
-- ngenorca-bus: the event log of event_log.rs as a table, and the bus of lib.rs, which writes to it and
-- broadcasts. A row stands for the event that it is read back as; an id is the ULID's number and a time is a
-- number, whose texts SQLite orders as the numbers. An event that is broadcast is one handed to the channel.
pub mod Order
pub mod Added
pub mod Upto
pub mod Resume
pub mod Subscriber
mod Tests
use ngen_orca.Base.Select.{filter, sort_by_key}
use ngen_orca.Base.{
  ℕ, List, Option, Result, Bool, none, [], Bytes, if◌then◌else◌, true, get_or, ◌&&◌, some, ◌∷◌, ltb,
  length, err, any, ◌^◌, false, not, ok, ◌==◌, take, same, ◌++◌, leb,
}

pub record Event : Type 0 where
  pub event_id : ℕ
  pub timestamp : ℕ
  pub event_session : Option ℕ
  pub event_user : Option Bytes
  pub payload : Bytes

abbrev pub EventLog : Type 0
EventLog = List Event

pub record EventQuery : Type 0 where
  pub query_session : Option ℕ
  pub query_user : Option Bytes
  pub since : Option ℕ
  pub until : Option ℕ
  pub limit : Option ℕ

-- The primary key is taken.
pub data BusError : Type 0 where
  database : BusError

unfoldable pub append : EventLog → Event → Result BusError EventLog
append log event =
    if any (λ e. e.event_id == event.event_id) log then err database else ok (log ++ event ∷ [])

-- `ORDER BY id ASC`.
abbrev pub by_id : EventLog → EventLog
by_id log = sort_by_key (λ e. e.event_id) log

-- `LIMIT`, of a number that is cast to i64: a negative one is no limit.
abbrev pub limited : ℕ → EventLog → EventLog
limited n log = if ltb n (2 ^ 63) then take n log else log

abbrev pub in_session : Option ℕ → Event → Bool
in_session none e = true
in_session (some s) e = elim e.event_session [ none ↦ false | some t ↦ s == t ]

unfoldable pub query : EventLog → Option ℕ → Option ℕ → EventLog
query log session limit = limited (get_or limit 1000) (by_id (filter (in_session session) log))

-- The conditions of `query_filtered`, each where it is asked for.
unfoldable pub asked : EventQuery → Event → Bool
asked query e =
    in_session query.query_session e
    && elim query.query_user [
      | none ↦ true
      | some u ↦ elim e.event_user [ none ↦ false | some v ↦ same u v ]
    ]
    && elim query.since [ none ↦ true | some t ↦ leb t e.timestamp ]
    && elim query.until [ none ↦ true | some t ↦ leb e.timestamp t ]

-- `ORDER BY timestamp ASC, id ASC`.
unfoldable pub query_filtered : EventLog → EventQuery → EventLog
query_filtered log query =
    let rows = sort_by_key (λ e. e.timestamp) (by_id (filter (asked query) log)) in
    elim query.limit [ none ↦ rows | some n ↦ limited n rows ]

abbrev pub reverse_onto : EventLog → EventLog → EventLog
reverse_onto done [] = done
reverse_onto done (e ∷ more) = reverse_onto (e ∷ done) more

-- `ORDER BY id DESC LIMIT`, and `reverse`.
unfoldable pub query_recent : EventLog → ℕ → EventLog
query_recent log n = reverse_onto [] (limited n (reverse_onto [] (by_id log)))

unfoldable pub query_after : EventLog → ℕ → EventLog
query_after log after_id = by_id (filter (λ e. ltb after_id e.event_id) log)

unfoldable pub count : EventLog → ℕ
count log = length log

unfoldable pub prune_before : EventLog → ℕ → ℕ × EventLog
prune_before log cutoff = (
  length (filter (λ e. ltb e.timestamp cutoff) log),
  filter (λ e. not (ltb e.timestamp cutoff)) log,
)

-- The log, and what was handed to the channel since the bus was opened.
pub record EventBus : Type 0 where
  pub log : EventLog
  pub sent : List Event

-- The database may be there already, with its rows.
unfoldable pub new : EventLog → EventBus
new stored = record { log = stored; sent = [] }

unfoldable pub publish : EventBus → Event → Result BusError (Unit {0}) × EventBus
publish bus event = elim (append bus.log event) [
  | err e ↦ (err e, bus)
  | ok log ↦ (ok tt, record { log = log; sent = bus.sent ++ event ∷ [] })
]

-- `event_log().prune_before(..)` on the log of the bus.
unfoldable pub prune : EventBus → ℕ → EventBus
prune bus cutoff = record bus { log = (prune_before bus.log cutoff).1 }

unfoldable pub replay : EventBus → Option ℕ → Option ℕ → EventLog
replay bus session limit = query bus.log session limit

unfoldable pub replay_after : EventBus → ℕ → EventLog
replay_after bus after_id = query_after bus.log after_id

unfoldable pub replay_recent : EventBus → ℕ → EventLog
replay_recent bus limit = query_recent bus.log limit

unfoldable pub replay_filtered : EventBus → EventQuery → EventLog
replay_filtered bus query = query_filtered bus.log query

unfoldable pub event_count : EventBus → ℕ
event_count bus = count bus.log
