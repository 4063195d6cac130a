-- ===== src/Gateway/Sessions/Kept.antt =====
-- The methods of sessions.rs and the predicate Owned.
use mathlib.Core.Path.{subst₂}
use ngen_orca.Gateway.Sessions.{
  pair_key, SessionManager, create_session, get_or_create, record_message, touch_session,
  end_session, merge, Key, detach_user_mapping_for_session, new_session, active_session_for_key,
  prune_session, prune_all, pair_sound, detach, owner_key, rebound,
}
use ngen_orca.Base.{
  none, List, ℕ, Option, Bytes, lookup, ◌≡◌, insert, refl, Bool-cases, some, ◌==◌, equals,
  Option-cases, inl, nat_key, ==_sound, inr, lookup-insert, arith, ==_refl, modify, false, ◌∷◌, [],
  lookup-modify, lookup-remove,
}
use ngen_orca.Core.Session.{Session}
use ngen_orca.Gateway.Sessions.Owned.{
  Owned, Owns, modify-Owned, detach-Owned, detached, lookup-detach,
}

Owns-insert :
    (sessions : List (ℕ × Session)) (key : Key) (id fresh : ℕ) (s : Session)
    → lookup fresh sessions ≡ none
    → Owns sessions key id
    → Owns (insert fresh s sessions) key id
Owns-insert sessions key id fresh s new_id owns = record {
  session = owns.session;
  found = elim (Bool-cases (fresh == id)) [
    | inl e ↦ absurd (
        let same_id : fresh ≡ id = ==_sound e in
        let clash : none ≡ some owns.session = cc (new_id, owns.found, same_id) in cc)
    | inr e ↦ rw (lookup-insert fresh id s sessions, e) owns.found
  ];
  user = owns.user;
  channel = owns.channel;
}

-- A new entry for a session that has its user.
insert-Owned :
    (m : SessionManager) (key : Key) (id : ℕ)
    → Owned m
    → Owns m.sessions key id
    → Owned (record m { user_sessions = insert key id m.user_sessions })
insert-Owned m key id owned owns = record {
  owns = λ k j e. elim (Bool-cases (equals key k)) [
    | inl hit ↦
        let at_id : id ≡ j = ground (arith, lookup-insert key k id m.user_sessions) in
        subst₂ (λ q i. Owns m.sessions q i) (pair_sound hit) at_id owns
    | inr other ↦ owned.owns k j (ground (arith, lookup-insert key k id m.user_sessions))
  ];
}

pub create_session-Owned :
    (m : SessionManager) (user : Option Bytes) (channel : Bytes) (fresh now : ℕ)
    → lookup fresh m.sessions ≡ none
    → Owned m
    → Owned (create_session m user channel fresh now).1
unfolding create_session
create_session-Owned m none channel fresh now new_id owned = record {
  owns = λ key id e. Owns-insert m.sessions key id fresh _ new_id (owned.owns key id e);
}
create_session-Owned m (some u) channel fresh now new_id owned =
    insert-Owned
      (record m { sessions = insert fresh (new_session m (some u) channel fresh now) m.sessions })
      (u, channel) fresh
      (record {
        owns = λ key id e. Owns-insert m.sessions key id fresh _ new_id (owned.owns key id e);
      })
      (record {
        session = new_session m (some u) channel fresh now;
        found =
            rw
              (
                lookup-insert fresh fresh (new_session m (some u) channel fresh now) m.sessions,
                ==_refl fresh,
              )
              refl;
        user = refl;
        channel = refl;
      })

pub get_or_create-Owned :
    (m : SessionManager) (user : Option Bytes) (channel : Bytes) (fresh now : ℕ)
    → lookup fresh m.sessions ≡ none
    → Owned m
    → Owned (get_or_create m user channel fresh now).1
unfolding get_or_create
get_or_create-Owned m none channel fresh now new_id owned =
    create_session-Owned m none channel fresh now new_id owned
get_or_create-Owned m (some u) channel fresh now new_id owned =
    elim (Option-cases (active_session_for_key m (u, channel))) [
      | inl e ↦
          rw (e, get_or_create) (create_session-Owned m (some u) channel fresh now new_id owned)
      | inr (id, e) ↦ rw (e, get_or_create) owned
    ]

pub record_message-Owned :
    (m : SessionManager) (id tokens now : ℕ) → Owned m → Owned (record_message m id tokens now)
unfolding record_message
record_message-Owned m id tokens now = modify-Owned m id _ (λ s. (refl, refl))

pub touch_session-Owned :
    (m : SessionManager) (id now : ℕ) → Owned m → Owned (touch_session m id now)
unfolding touch_session
touch_session-Owned m id now = modify-Owned m id _ (λ s. (refl, refl))

pub end_session-Owned : (m : SessionManager) (id : ℕ) → Owned m → Owned (end_session m id)
unfolding end_session
end_session-Owned m id = modify-Owned m id _ (λ s. (refl, refl))

pub merge-Owned :
    (m : SessionManager) (id : ℕ) (key : Key) (existing now : ℕ)
    → Owned m
    → Owned (merge m id key existing now)
unfolding merge detach_user_mapping_for_session
merge-Owned m id key existing now owned =
    touch_session-Owned _ existing now
      (detach-Owned (end_session m id) key id (end_session-Owned m id owned))

differ : (i j : ℕ) → (j == i) ≡ false → (i == j) ≡ false
differ i j e = ground arith

pub rebind-Owned :
    (m : SessionManager) (id : ℕ) (current : Session) (user : Bytes) (now : ℕ)
    → Owned m
    → lookup id m.sessions ≡ some current
    → Owned (record m {
      sessions = modify id (λ s. record s { user_id = some user; last_active = now }) m.sessions;
      user_sessions =
          insert (user, current.origin_channel) id (detach (owner_key current) id m.user_sessions);
    })
unfolding rebound
rebind-Owned m id current user now owned here =
    let change : Session → Session = λ s. record s { user_id = some user; last_active = now } in
    let users = detach (owner_key current) id m.user_sessions in
    insert-Owned (record m { sessions = modify id change m.sessions; user_sessions = users })
      (user, current.origin_channel) id
      (record {
        owns = λ k j e.
            let other : (j == id) ≡ false = detached m id current k j owned here e in
            let owns =
              owned.owns k j (lookup-detach (owner_key current) k id j m.user_sessions e) in
            record {
              session = owns.session;
              found = rw (lookup-modify id j change m.sessions, differ id j other) owns.found;
              user = owns.user;
              channel = owns.channel;
            };
      })
      (record {
        session = change current;
        found = rw (lookup-modify id id change m.sessions, ==_refl id, here) refl;
        user = refl;
        channel = refl;
      })

prune_session-Owned : (m : SessionManager) (id : ℕ) → Owned m → Owned (prune_session m id)
unfolding prune_session
prune_session-Owned m id owned = elim (Option-cases (lookup id m.sessions)) [
  | inl e ↦ rw (e, prune_session) owned
  | inr (s, here) ↦
      rw (here, prune_session)
        (record {
          owns = λ k j e.
              let other : (j == id) ≡ false = detached m id s k j owned here e in
              let owns = owned.owns k j (lookup-detach (owner_key s) k id j m.user_sessions e) in
              record {
                session = owns.session;
                found = rw (lookup-remove id j m.sessions, differ id j other) owns.found;
                user = owns.user;
                channel = owns.channel;
              };
        })
]

pub prune_all-Owned : (ids : List ℕ) (m : SessionManager) → Owned m → Owned (prune_all m ids)
unfolding prune_all
prune_all-Owned [] m owned = owned
prune_all-Owned (id ∷ ids) m owned =
    prune_all-Owned ids (prune_session m id) (prune_session-Owned m id owned)
