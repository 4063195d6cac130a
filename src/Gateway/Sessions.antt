-- ===== src/Gateway/Sessions.antt =====
-- ngenorca-gateway/src/sessions.rs. The time and the UUID that a call draws are arguments. A lock is
-- poisoned only by a panic of its holder, which the code under the locks does not raise, so the lock
-- errors do not occur. The methods run one after the other.
mod Owned
mod Kept
pub mod Reached
pub mod Promote
mod Promoted
pub mod Prune
pub mod Reuse
mod Tests
use ngen_orca.Base.{
  Bytes, same, HashKey, List, Option, ℕ, ◌&&◌, Bool, insert, lookup, some, modify, if◌then◌else◌,
  get_or, Result, ◌∷◌, [], length, ◌≡◌, true, none, add64, remove, equals, ◌>>=◌, ok, ltb,
  same_refl, false, err, ◌==◌, ◌+◌, refl, arith, nat_key, same_iff,
}
use ngen_orca.Core.Session.{SessionState, Session, ThinkingLevel, active, idle, ended, compacting}

abbrev pub Key : Type 0
Key = Bytes × Bytes

pub pair_refl : (k : Key) → (same k.0 k.0 && same k.1 k.1) ≡ true
pair_refl (a, b) = rw (same_refl a, same_refl b) refl

pub pair_sound : {j k : Key} → (same j.0 k.0 && same j.1 k.1) ≡ true → j ≡ k
pair_sound {j = (a, b)} {k = (c, d)} e = ground (arith, same_iff a c, same_iff b d)

instance abbrev pub pair_key : HashKey Key
pair_key = record {
  equals = λ j k. same j.0 k.0 && same j.1 k.1;
  equals_refl = pair_refl;
  equals_sound = pair_sound;
}

pub record SessionManager : Type 0 where
  pub sessions : List (ℕ × Session)
  pub user_sessions : List (Key × ℕ)
  pub default_model : Bytes
  pub default_thinking_level : ThinkingLevel

unfoldable pub new : Bytes → ThinkingLevel → SessionManager
new model level = record {
  sessions = [];
  user_sessions = [];
  default_model = model;
  default_thinking_level = level;
}

-- `Active` or `Idle`.
unfoldable pub is_live : SessionState → Bool
is_live active = true
is_live idle = true
is_live _ = false

abbrev pub new_session : SessionManager → Option Bytes → Bytes → ℕ → ℕ → Session
new_session m user channel fresh now = record {
  id = fresh;
  user_id = user;
  origin_channel = channel;
  state = active;
  model = m.default_model;
  thinking_level = m.default_thinking_level;
  created_at = now;
  last_active = now;
  message_count = 0;
  tokens_used = 0;
}

unfoldable pub create_session : SessionManager → Option Bytes → Bytes → ℕ → ℕ → ℕ × SessionManager
create_session m user channel fresh now = (
  fresh,
  record m {
    sessions = insert fresh (new_session m user channel fresh now) m.sessions;
    user_sessions = elim user [
      | none ↦ m.user_sessions
      | some u ↦ insert (u, channel) fresh m.user_sessions
    ];
  },
)

unfoldable pub active_session_for_key : SessionManager → Key → Option ℕ
active_session_for_key m key = elim (lookup key m.user_sessions) [
  | none ↦ none
  | some id ↦ elim (lookup id m.sessions) [
    | none ↦ none
    | some s ↦ if is_live s.state then some id else none
  ]
]

-- The lookup of `get_or_create` is the body of `active_session_for_key`.
unfoldable pub get_or_create : SessionManager → Option Bytes → Bytes → ℕ → ℕ → ℕ × SessionManager
get_or_create m none channel fresh now = create_session m none channel fresh now
get_or_create m (some u) channel fresh now = elim (active_session_for_key m (u, channel)) [
  | some id ↦ (id, m)
  | none ↦ create_session m (some u) channel fresh now
]

unfoldable pub get : SessionManager → ℕ → Option Session
get m id = lookup id m.sessions

unfoldable pub record_message : SessionManager → ℕ → ℕ → ℕ → SessionManager
record_message m id tokens now = record m {
  sessions =
      modify id
        (λ s. record s {
          message_count = add64 s.message_count 1;
          tokens_used = add64 s.tokens_used tokens;
          last_active = now;
          state = active;
        })
        m.sessions;
}

unfoldable pub wake : SessionState → SessionState
wake idle = active
wake active = active
wake compacting = compacting
wake ended = ended

unfoldable pub touch_session : SessionManager → ℕ → ℕ → SessionManager
touch_session m id now = record m {
  sessions = modify id (λ s. record s { last_active = now; state = wake s.state }) m.sessions;
}

unfoldable pub end_session : SessionManager → ℕ → SessionManager
end_session m id = record m { sessions = modify id (λ s. record s { state = ended }) m.sessions }

-- `map.get(key) == Some(id)`.
unfoldable pub maps_to : Key → ℕ → List (Key × ℕ) → Bool
maps_to key id users = elim (lookup key users) [ none ↦ false | some j ↦ j == id ]

unfoldable pub detach : Key → ℕ → List (Key × ℕ) → List (Key × ℕ)
detach key id users = if maps_to key id users then remove key users else users

unfoldable pub detach_user_mapping_for_session : SessionManager → ℕ → Key → SessionManager
detach_user_mapping_for_session m id key = record m {
  user_sessions = detach key id m.user_sessions;
}

-- The error is `NotFound`, with the session it names.
pub data PromoteError : Type 0 where
  session_not_found : ℕ → PromoteError

-- The key under which a session may be found.
abbrev pub owner_key : Session → Key
owner_key s = (get_or s.user_id [], s.origin_channel)

-- The end of `promote_to_user`: the session itself goes to the user.
unfoldable pub rebound : SessionManager → ℕ → Key → Bytes → Bytes → ℕ → SessionManager
rebound m id old_key user channel now = record m {
  sessions = modify id (λ s. record s { user_id = some user; last_active = now }) m.sessions;
  user_sessions = insert (user, channel) id (detach old_key id m.user_sessions);
}

unfoldable pub rebind :
    SessionManager → ℕ → Key → Bytes → Bytes → ℕ → Result PromoteError (ℕ × SessionManager)
rebind m id old_key user channel now = elim (lookup id m.sessions) [
  | none ↦ err (session_not_found id)
  | some _ ↦ ok (id, rebound m id old_key user channel now)
]

-- The branch that gives up the session for one that the user has.
unfoldable pub merge : SessionManager → ℕ → Key → ℕ → ℕ → SessionManager
merge m id old_key existing now =
    touch_session (detach_user_mapping_for_session (end_session m id) id old_key) existing now

unfoldable pub promote_session :
    SessionManager → ℕ → Session → Bytes → ℕ → Result PromoteError (ℕ × SessionManager)
promote_session m id current user now =
    let old_key : Key = owner_key current in
    let new_key : Key = (user, current.origin_channel) in
    if equals old_key new_key
    then ok (id, touch_session m id now)
    else elim (active_session_for_key m new_key) [
      | none ↦ rebind m id old_key user current.origin_channel now
      | some existing ↦
          if existing == id
          then rebind m id old_key user current.origin_channel now
          else ok (existing, merge m id old_key existing now)
    ]

unfoldable pub promote_to_user :
    SessionManager → ℕ → Bytes → ℕ → Result PromoteError (ℕ × SessionManager)
promote_to_user m id user now = elim (lookup id m.sessions) [
  | none ↦ err (session_not_found id)
  | some current ↦ promote_session m id current user now
]

unfoldable pub rebind_user : SessionManager → ℕ → Bytes → ℕ → Result PromoteError SessionManager
rebind_user m id user now = promote_to_user m id user now >>= λ r. ok r.1

unfoldable pub promote_alias_to_user :
    SessionManager → Bytes → Bytes → Bytes → ℕ → Result PromoteError (Option ℕ × SessionManager)
promote_alias_to_user m alias channel user now =
    if same alias user then ok (none, m) else elim (lookup (alias, channel) m.user_sessions) [
      | none ↦ ok (none, m)
      | some id ↦ promote_to_user m id user now >>= λ r. ok (some r.0, r.1)
    ]

abbrev live_values : List (ℕ × Session) → List Session
live_values [] = []
live_values ((id, s) ∷ entries) =
    if is_live s.state then s ∷ live_values entries else live_values entries

unfoldable pub active_sessions : SessionManager → List Session
active_sessions m = live_values m.sessions

unfoldable pub total_sessions : SessionManager → ℕ
total_sessions m = length m.sessions

abbrev pub hour : ℕ
hour = 3600000000000

-- `last_active < cutoff`.
abbrev pub is_expired : ℕ → ℕ → Session → Bool
is_expired ttl now s = ltb (s.last_active + ttl) now

abbrev pub expired_ids : ℕ → ℕ → List (ℕ × Session) → List ℕ
expired_ids ttl now [] = []
expired_ids ttl now ((id, s) ∷ entries) =
    if is_expired ttl now s then id ∷ expired_ids ttl now entries else expired_ids ttl now entries

-- One turn of the loop over the expired sessions.
unfoldable pub prune_session : SessionManager → ℕ → SessionManager
prune_session m id = elim (lookup id m.sessions) [
  | none ↦ m
  | some s ↦ record m {
    sessions = remove id m.sessions;
    user_sessions = detach (owner_key s) id m.user_sessions;
  }
]

unfoldable pub prune_all : SessionManager → List ℕ → SessionManager
prune_all m [] = m
prune_all m (id ∷ ids) = prune_all (prune_session m id) ids

-- `from_std` is the conversion of chrono, which fails on a duration out of its range, and `in_range` says
-- whether a time less a duration is a `DateTime`: the subtraction panics where it is not, before a lock is
-- taken.
unfoldable pub prune_expired :
    (ℕ → Option ℕ) → (ℕ → ℕ → Bool) → SessionManager → ℕ → ℕ → Option ℕ × SessionManager
prune_expired from_std in_range m ttl now =
    let time = get_or (from_std ttl) hour in
    let ids = expired_ids time now m.sessions in
    if in_range now time then (some (length ids), prune_all m ids) else (none, m)
