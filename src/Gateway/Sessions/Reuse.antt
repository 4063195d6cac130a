-- ===== src/Gateway/Sessions/Reuse.antt =====
-- Whom `get_or_create` of sessions.rs gives a session that exists.
use ngen_orca.Gateway.Sessions.{
  pair_key, create_session, get_or_create, active_session_for_key, SessionManager, is_live, Key,
  pair_refl, new_session,
}
use ngen_orca.Base.{
  Bytes, ℕ, some, ◌≡◌, Option-cases, lookup, inl, insert, inr, lookup-insert, ==_refl, refl,
  nat_key,
}

create_session-active :
    (m : SessionManager) (u channel : Bytes) (fresh now : ℕ)
    → active_session_for_key (create_session m (some u) channel fresh now).1 (u, channel)
      ≡ some fresh
unfolding create_session active_session_for_key is_live
create_session-active m u channel fresh now =
    let key : Key = (u, channel) in
    let mapped : lookup key (insert key fresh m.user_sessions) ≡ some fresh =
      rw (lookup-insert key key fresh m.user_sessions, pair_refl key) refl in
    let stored = lookup-insert fresh fresh (new_session m (some u) channel fresh now) m.sessions in
    rw (mapped, stored, ==_refl fresh, active_session_for_key) refl

get_or_create-active :
    (m : SessionManager) (u channel : Bytes) (fresh now : ℕ)
    → active_session_for_key (get_or_create m (some u) channel fresh now).1 (u, channel)
      ≡ some (get_or_create m (some u) channel fresh now).0
unfolding get_or_create create_session
get_or_create-active m u channel fresh now =
    elim (Option-cases (active_session_for_key m (u, channel))) [
      | inl e ↦ rw (e, get_or_create) (create_session-active m u channel fresh now)
      | inr (id, e) ↦ rw (e, get_or_create) e
    ]

get_or_create-reuse :
    (m : SessionManager) (u channel : Bytes) (id fresh now : ℕ)
    → active_session_for_key m (u, channel) ≡ some id
    → get_or_create m (some u) channel fresh now ≡ (id, m)
unfolding get_or_create
get_or_create-reuse m u channel id fresh now e = rw (e, get_or_create) refl

-- A second call for the same user and channel, at whatever time, gives the session of the first one
-- and changes nothing.
pub get_or_create-twice :
    (m : SessionManager) (u channel : Bytes) (fresh now fresh' now' : ℕ)
    → get_or_create (get_or_create m (some u) channel fresh now).1 (some u) channel fresh' now'
      ≡ get_or_create m (some u) channel fresh now
get_or_create-twice m u channel fresh now fresh' now' =
    get_or_create-reuse (get_or_create m (some u) channel fresh now).1 u channel _ fresh' now'
      (get_or_create-active m u channel fresh now)
