-- ===== src/Gateway/Sessions/Reached.antt =====
-- The states that the methods of sessions.rs lead to, each called with a new UUID.
use ngen_orca.Gateway.Sessions.Promoted.{missing, own, merged, moved}
use ngen_orca.Gateway.Sessions.{
  pair_key, SessionManager, promote_alias_to_user, new, prune_expired, PromoteError,
  promote_to_user, get_or_create, record_message, end_session, owner_key, rebound, hour,
  expired_ids,
}
use ngen_orca.Gateway.Sessions.Owned.{Owned}
use ngen_orca.Base.{
  Bytes, Result, ℕ, Option, Bool-cases, lookup, err, ◌≡◌, same, none, ok, inl, subst, inr,
  Option-cases, nat_key, ◌>>=◌, some, Bool, get_or,
}
use ngen_orca.Core.Session.{ThinkingLevel}
use ngen_orca.Gateway.Sessions.Kept.{
  get_or_create-Owned, record_message-Owned, end_session-Owned, prune_all-Owned,
  touch_session-Owned, merge-Owned, rebind-Owned,
}
use ngen_orca.Gateway.Sessions.Promoted.{Promoted, promote_to_user-Promoted}

pub data Reached (model : Bytes) (level : ThinkingLevel) : SessionManager → Type 0 where
  start : Reached model level (new model level)
  called :
      (m : SessionManager) (user : Option Bytes) (channel : Bytes) (fresh now : ℕ)
      → lookup fresh m.sessions ≡ none
      → Reached model level m
      → Reached model level (get_or_create m user channel fresh now).1
  messaged :
      (m : SessionManager) (id tokens now : ℕ)
      → Reached model level m
      → Reached model level (record_message m id tokens now)
  promoted :
      (m m' : SessionManager) (id id' : ℕ) (user : Bytes) (now : ℕ)
      → promote_to_user m id user now ≡ ok (id', m')
      → Reached model level m
      → Reached model level m'
  alias_promoted :
      (m m' : SessionManager) (alias channel user : Bytes) (now : ℕ) (id : Option ℕ)
      → promote_alias_to_user m alias channel user now ≡ ok (id, m')
      → Reached model level m
      → Reached model level m'
  closed :
      (m : SessionManager) (id : ℕ) → Reached model level m → Reached model level (end_session m id)
  pruned :
      (from_std : ℕ → Option ℕ) (in_range : ℕ → ℕ → Bool) (m : SessionManager) (ttl now : ℕ)
      → Reached model level m
      → Reached model level (prune_expired from_std in_range m ttl now).1

abbrev After {ℓ} :
    {A : Type ℓ} → (SessionManager → Type 0) → Result PromoteError (A × SessionManager) → Type 0
After P (err e) = Unit
After P (ok (a, m)) = P m

Promoted-Owned :
    (m : SessionManager) (id : ℕ) (user : Bytes) (now : ℕ)
    (r : Result PromoteError (ℕ × SessionManager))
    → Promoted m id user now r
    → Owned m
    → After Owned r
unfolding rebound
Promoted-Owned m id user now _ (missing e) owned = tt
Promoted-Owned m id user now _ (own s here e) owned = touch_session-Owned m id now owned
Promoted-Owned m id user now _ (merged s existing here e n) owned =
    merge-Owned m id (owner_key s) existing now owned
Promoted-Owned m id user now _ (moved s here n) owned = rebind-Owned m id s user now owned here

promote_to_user-Owned :
    (m m' : SessionManager) (id id' : ℕ) (user : Bytes) (now : ℕ)
    → promote_to_user m id user now ≡ ok (id', m')
    → Owned m
    → Owned m'
promote_to_user-Owned m m' id id' user now e owned =
    subst (After Owned) e
      (Promoted-Owned m id user now _ (promote_to_user-Promoted m id user now) owned)

After-named :
    (r : Result PromoteError (ℕ × SessionManager))
    → After Owned r
    → After Owned (r >>= λ a. ok (some a.0, a.1))
After-named (err e) h = h
After-named (ok (id, m)) h = h

promote_alias_to_user-Owned :
    (m : SessionManager) (alias channel user : Bytes) (now : ℕ)
    → Owned m
    → After Owned (promote_alias_to_user m alias channel user now)
unfolding promote_alias_to_user
promote_alias_to_user-Owned m alias channel user now owned = elim (Bool-cases (same alias user)) [
  | inl e ↦ rw (e, promote_alias_to_user) owned
  | inr e ↦ elim (Option-cases (lookup (alias, channel) m.user_sessions)) [
    | inl f ↦ rw (e, f, promote_alias_to_user) owned
    | inr (id, f) ↦
        rw (e, f, promote_alias_to_user)
          (After-named (promote_to_user m id user now)
            (Promoted-Owned m id user now _ (promote_to_user-Promoted m id user now) owned))
  ]
]

new-Owned : (model : Bytes) (level : ThinkingLevel) → Owned (new model level)
unfolding new
new-Owned model level = record { owns = λ key id e. absurd cc }

prune_expired-Owned :
    (from_std : ℕ → Option ℕ) (in_range : ℕ → ℕ → Bool) (m : SessionManager) (ttl now : ℕ)
    → Owned m
    → Owned (prune_expired from_std in_range m ttl now).1
unfolding prune_expired
prune_expired-Owned from_std in_range m ttl now owned =
    let time = get_or (from_std ttl) hour in
    elim (Bool-cases (in_range now time)) [
      | inl e ↦ rw (e, prune_expired) (prune_all-Owned (expired_ids time now m.sessions) m owned)
      | inr e ↦ rw (e, prune_expired) owned
    ]

-- In every state that the methods lead to, an entry of the map of users under a user and a channel
-- names a session that exists, and that session belongs to this user and this channel.
pub Reached-Owned :
    (model : Bytes) (level : ThinkingLevel) (m : SessionManager) → Reached model level m → Owned m
Reached-Owned model level _ start = new-Owned model level
Reached-Owned model level _ (called m user channel fresh now new_id r) =
    get_or_create-Owned m user channel fresh now new_id (Reached-Owned model level m r)
Reached-Owned model level _ (messaged m id tokens now r) =
    record_message-Owned m id tokens now (Reached-Owned model level m r)
Reached-Owned model level _ (promoted m m' id id' user now e r) =
    promote_to_user-Owned m m' id id' user now e (Reached-Owned model level m r)
Reached-Owned model level _ (alias_promoted m m' alias channel user now id e r) =
    subst (After Owned) e
      (promote_alias_to_user-Owned m alias channel user now (Reached-Owned model level m r))
Reached-Owned model level _ (closed m id r) = end_session-Owned m id (Reached-Owned model level m r)
Reached-Owned model level _ (pruned from_std in_range m ttl now r) =
    prune_expired-Owned from_std in_range m ttl now (Reached-Owned model level m r)
