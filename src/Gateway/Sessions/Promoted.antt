-- ===== src/Gateway/Sessions/Promoted.antt =====
-- The four ways out of `promote_to_user`.
use ngen_orca.Gateway.Sessions.{
  pair_key, SessionManager, promote_session, promote_to_user, rebind, PromoteError,
  session_not_found, owner_key, pair_sound, touch_session, active_session_for_key, merge, rebound,
}
use ngen_orca.Base.{
  ℕ, Bytes, ◌==◌, Result, ◌≡◌, Option-cases, false, lookup, none, ◌≢◌, some, inl, err, arith,
  Bool-cases, inr, equals, ok, equals_iff, true, sym, ◌∙◌, nat_key,
}
use ngen_orca.Core.Session.{Session}

pub data Promoted (m : SessionManager) (id : ℕ) (user : Bytes) (now : ℕ)
    : Result PromoteError (ℕ × SessionManager) → Type 0 where
  missing : lookup id m.sessions ≡ none → Promoted m id user now (err (session_not_found id))
  own :
      (s : Session)
      → lookup id m.sessions ≡ some s
      → owner_key s ≡ (user, s.origin_channel)
      → Promoted m id user now (ok (id, touch_session m id now))
  merged :
      (s : Session) (existing : ℕ)
      → lookup id m.sessions ≡ some s
      → active_session_for_key m (user, s.origin_channel) ≡ some existing
      → existing ≢ id
      → Promoted m id user now (ok (existing, merge m id (owner_key s) existing now))
  moved :
      (s : Session)
      → lookup id m.sessions ≡ some s
      → owner_key s ≢ (user, s.origin_channel)
      → Promoted m id user now (ok (id, rebound m id (owner_key s) user s.origin_channel now))

-- `==` on a pair of numbers that differ.
≢-of-== : (i j : ℕ) → (i == j) ≡ false → i ≢ j
≢-of-== i j e h = ground arith

promote_session-Promoted :
    (m : SessionManager) (id : ℕ) (s : Session) (user : Bytes) (now : ℕ)
    → lookup id m.sessions ≡ some s
    → Promoted m id user now (promote_session m id s user now)
unfolding promote_session rebind
promote_session-Promoted m id s user now here =
    elim (Bool-cases (equals (owner_key s) (user, s.origin_channel))) [
      | inl hit ↦ rw (hit, promote_session) (own s here (pair_sound hit))
      | inr miss ↦
          let apart : owner_key s ≢ (user, s.origin_channel) = λ e.
            let hit = (equals_iff (owner_key s) (user, s.origin_channel)).1 e in
            let bad : true ≡ false = sym hit ∙ miss in cc in
          elim (Option-cases (active_session_for_key m (user, s.origin_channel))) [
            | inl e ↦ rw (miss, e, here, promote_session, rebind) (moved s here apart)
            | inr (existing, e) ↦ elim (Bool-cases (existing == id)) [
              | inl at_id ↦ rw (miss, e, at_id, here, promote_session, rebind) (moved s here apart)
              | inr other ↦
                  rw (miss, e, other, promote_session)
                    (merged s existing here e (≢-of-== existing id other))
            ]
          ]
    ]

pub promote_to_user-Promoted :
    (m : SessionManager) (id : ℕ) (user : Bytes) (now : ℕ)
    → Promoted m id user now (promote_to_user m id user now)
unfolding promote_to_user
promote_to_user-Promoted m id user now = elim (Option-cases (lookup id m.sessions)) [
  | inl e ↦ rw (e, promote_to_user) (missing e)
  | inr (s, here) ↦ rw (here, promote_to_user) (promote_session-Promoted m id s user now here)
]
