-- ===== src/Gateway/Sessions/Promote.antt =====
-- What a promotion of sessions.rs does to the session and the user.
use ngen_orca.Gateway.Sessions.Promoted.{missing, own, merged, moved}
use ngen_orca.Gateway.Sessions.{
  pair_key, active_session_for_key, merge, touch_session, SessionManager, Key,
  detach_user_mapping_for_session, rebound, end_session, PromoteError, promote_to_user, owner_key,
  wake, is_live,
}
use ngen_orca.Gateway.Sessions.Owned.{Owned, Owns}
use ngen_orca.Base.{
  ℕ, ◌≡◌, Bytes, some, Result, lookup, ◌≢◌, ok, ◌==◌, false, nat_key, arith, lookup-modify, modify,
  ==_refl, inr, Option, Option-cases, inl, none, if◌then◌else◌, subst, ◌∙◌, get_or, sym, [], ap,
  ◌⊎◌, refl,
}
use ngen_orca.Core.Session.{Session, ended}
use ngen_orca.Gateway.Sessions.Promoted.{Promoted, promote_to_user-Promoted}

-- The session that `id`, a session `s`, was promoted to, in the state afterwards.
pub record PromotedTo (id : ℕ) (s : Session) (owner : Bytes) (id' : ℕ) (m' : SessionManager)
    : Type 0 where
  pub session : Session
  pub found : lookup id' m'.sessions ≡ some session
  pub user : get_or session.user_id [] ≡ owner
  pub channel : session.origin_channel ≡ s.origin_channel
  pub replaced : (id' ≡ id) ⊎ ((t : Session) × (lookup id m'.sessions ≡ some t) × (t.state ≡ ended))

-- The rest of `active_session_for_key`.
abbrev target : SessionManager → Option ℕ → Option ℕ
target m o = elim o [
  | none ↦ none
  | some id ↦ elim (lookup id m.sessions) [
    | none ↦ none
    | some s ↦ if is_live s.state then some id else none
  ]
]

target-id : (m : SessionManager) (j id : ℕ) → target m (some j) ≡ some id → some j ≡ some id
target-id m j id e = ground arith

active-lookup :
    (m : SessionManager) (key : Key) (id : ℕ)
    → active_session_for_key m key ≡ some id
    → lookup key m.user_sessions ≡ some id
unfolding active_session_for_key
active-lookup m key id e = elim (Option-cases (lookup key m.user_sessions)) [
  | inl f ↦ let bad : none ≡ some id = subst (λ o. target m o ≡ some id) f e in cc
  | inr (j, f) ↦ f ∙ target-id m j id (subst (λ o. target m o ≡ some id) f e)
]

merged-PromotedTo :
    (m : SessionManager) (id existing : ℕ) (s : Session) (user : Bytes) (now : ℕ)
    → Owns m.sessions (user, s.origin_channel) existing
    → lookup id m.sessions ≡ some s
    → existing ≢ id
    → PromotedTo id s user existing (merge m id (owner_key s) existing now)
unfolding merge touch_session detach_user_mapping_for_session end_session
merged-PromotedTo m id existing s user now owns here apart =
    let far : (id == existing) ≡ false = ground arith in
    let near : (existing == id) ≡ false = ground arith in
    let close : Session → Session = λ t. record t { state = ended } in
    let wake_up : Session → Session = λ t. record t { last_active = now; state = wake t.state } in
    record {
      session = wake_up owns.session;
      found =
          rw
            (
              lookup-modify existing existing wake_up (modify id close m.sessions),
              ==_refl existing,
              lookup-modify id existing close m.sessions,
              far,
              owns.found,
            )
            refl;
      user = rw owns.user refl;
      channel = owns.channel;
      replaced = inr (
        close s,
        rw
            (
              lookup-modify existing id wake_up (modify id close m.sessions),
              near,
              lookup-modify id id close m.sessions,
              ==_refl id,
              here,
            )
            refl,
        refl,
      );
    }

-- A result that is a session promoted to the user.
abbrev Succeeds : ℕ → Session → Bytes → Result PromoteError (ℕ × SessionManager) → Type 0
Succeeds id s user r =
    (id' : ℕ) × (m' : SessionManager) × (r ≡ ok (id', m')) × PromotedTo id s user id' m'

Promoted-Succeeds :
    (m : SessionManager) (id : ℕ) (s : Session) (user : Bytes) (now : ℕ)
    (r : Result PromoteError (ℕ × SessionManager))
    → Owned m
    → lookup id m.sessions ≡ some s
    → Promoted m id user now r
    → Succeeds id s user r
unfolding touch_session rebound
Promoted-Succeeds m id s user now _ owned here (missing e) =
    let bad : none ≡ some s = sym e ∙ here in absurd cc
Promoted-Succeeds m id s user now _ owned here (own t at_t key) =
    let same_session : t ≡ s = cc (here, at_t) in
    (
      id,
      touch_session m id now,
      refl,
      record {
        session = record t { last_active = now; state = wake t.state };
        found =
            rw
              (
                lookup-modify id id (λ t. record t { last_active = now; state = wake t.state })
                    m.sessions,
                ==_refl id,
                at_t,
              )
              refl;
        user = ap (λ k. k.0) key;
        channel = ap (λ q. q.origin_channel) same_session;
        replaced = inl refl;
      },
    )
Promoted-Succeeds m id s user now _ owned here (merged t existing at_t active apart) =
    let same_session : t ≡ s = cc (here, at_t) in
    let owns =
      owned.owns (user, t.origin_channel) existing
        (active-lookup m (user, t.origin_channel) existing active) in
    (
      existing,
      merge m id (owner_key t) existing now,
      refl,
      subst (λ q. PromotedTo id q user existing (merge m id (owner_key t) existing now))
          same_session (merged-PromotedTo m id existing t user now owns at_t apart),
    )
Promoted-Succeeds m id s user now _ owned here (moved t at_t apart) =
    let same_session : t ≡ s = cc (here, at_t) in
    (
      id,
      rebound m id (owner_key t) user t.origin_channel now,
      refl,
      record {
        session = record t { user_id = some user; last_active = now };
        found =
            rw
              (
                lookup-modify id id (λ t. record t { user_id = some user; last_active = now })
                    m.sessions,
                ==_refl id,
                at_t,
              )
              refl;
        user = refl;
        channel = ap (λ q. q.origin_channel) same_session;
        replaced = inl refl;
      },
    )

-- Where the map of users is in step with the sessions, the promotion of a session that exists succeeds.
-- The session it returns belongs to the user (a session without a user counts as one of the empty
-- name) and to the channel of the one promoted, which is the session returned or has ended.
pub promote_to_user-PromotedTo :
    (m : SessionManager) (id : ℕ) (s : Session) (user : Bytes) (now : ℕ)
    → Owned m
    → lookup id m.sessions ≡ some s
    → (id' : ℕ) × (m' : SessionManager) × (promote_to_user m id user now ≡ ok (id', m'))
      × PromotedTo id s user id' m'
promote_to_user-PromotedTo m id s user now owned here =
    Promoted-Succeeds m id s user now _ owned here (promote_to_user-Promoted m id user now)
