-- ===== src/Gateway/Sessions/Owned.antt =====
-- How the map of users and the sessions of sessions.rs fit together.
use ngen_orca.Base.{none, ap}
use ngen_orca.Gateway.Sessions.{pair_key}
use ngen_orca.Base.{
  List, ℕ, ◌≡◌, lookup, modify, some, Bool-cases, nat_key, text_key, equals, inl, lookup-modify,
  remove, ◌==◌, ◌∙◌, subst, false, inr, if◌then◌else◌, refl, arith, ==_sound, lookup-remove,
  equals_iff, sym,
}
use ngen_orca.Gateway.Sessions.{SessionManager, detach, Key, maps_to, owner_key}
use ngen_orca.Core.Session.{Session}

pub record Owns (sessions : List (ℕ × Session)) (key : Key) (id : ℕ) : Type 0 where
  pub session : Session
  pub found : lookup id sessions ≡ some session
  pub user : session.user_id ≡ some key.0
  pub channel : session.origin_channel ≡ key.1

pub record Owned (m : SessionManager) : Type 0 where
  pub owns : (key : Key) (id : ℕ) → lookup key m.user_sessions ≡ some id → Owns m.sessions key id

-- Updates that leave the user and the channel of a session.
abbrev pub Keeps : (Session → Session) → Type 0
Keeps f = (s : Session) → ((f s).user_id ≡ s.user_id) × ((f s).origin_channel ≡ s.origin_channel)

Owns-modify :
    (sessions : List (ℕ × Session)) (key : Key) (id j : ℕ) (f : Session → Session)
    → Keeps f
    → Owns sessions key id
    → Owns (modify j f sessions) key id
Owns-modify sessions key id j f keeps owns = elim (Bool-cases (equals j id)) [
  | inl e ↦ record {
    session = f owns.session;
    found = rw (lookup-modify j id f sessions, e, owns.found) refl;
    user = (keeps owns.session).0 ∙ owns.user;
    channel = (keeps owns.session).1 ∙ owns.channel;
  }
  | inr e ↦ record {
    session = owns.session;
    found = rw (lookup-modify j id f sessions, e) owns.found;
    user = owns.user;
    channel = owns.channel;
  }
]

-- The same on the manager.
pub modify-Owned :
    (m : SessionManager) (j : ℕ) (f : Session → Session)
    → Keeps f
    → Owned m
    → Owned (record m { sessions = modify j f m.sessions })
modify-Owned m j f keeps owned = record {
  owns = λ key id e. Owns-modify m.sessions key id j f keeps (owned.owns key id e);
}

pub lookup-detach :
    (key k : Key) (id j : ℕ) (users : List (Key × ℕ))
    → lookup k (detach key id users) ≡ some j
    → lookup k users ≡ some j
unfolding detach
lookup-detach key k id j users e = elim (Bool-cases (maps_to key id users)) [
  | inl t ↦
      let removed : lookup k (remove key users) ≡ some j =
        subst (λ b. lookup k (if b then remove key users else users) ≡ some j) t e in
      ground (arith, lookup-remove key k users)
  | inr f ↦ subst (λ b. lookup k (if b then remove key users else users) ≡ some j) f e
]

pub detach-gone :
    (key : Key) (id : ℕ) (users : List (Key × ℕ)) → ¬ (lookup key (detach key id users) ≡ some id)
unfolding detach maps_to
detach-gone key id users e = elim (Bool-cases (maps_to key id users)) [
  | inl t ↦
      let removed : lookup key (remove key users) ≡ some id =
        subst (λ b. lookup key (if b then remove key users else users) ≡ some id) t e in
      ground (arith, lookup-remove key key users, equals_iff key key)
  | inr f ↦
      let kept : lookup key users ≡ some id =
        subst (λ b. lookup key (if b then remove key users else users) ≡ some id) f e in
      let no : (id == id) ≡ false =
        subst (λ o. elim o [ none ↦ false | some j ↦ j == id ] ≡ false) kept f in
      ground arith
]

pub detach-Owned :
    (m : SessionManager) (key : Key) (id : ℕ)
    → Owned m
    → Owned (record m { user_sessions = detach key id m.user_sessions })
detach-Owned m key id owned = record {
  owns = λ k j e. owned.owns k j (lookup-detach key k id j m.user_sessions e);
}

owner_key-eq :
    (s : Session) (k : Key) → s.user_id ≡ some k.0 → s.origin_channel ≡ k.1 → owner_key s ≡ k
owner_key-eq s (u, c) e f = rw (e, f) refl

-- Once its own key is detached, no key leads to a session.
pub detached :
    (m : SessionManager) (id : ℕ) (s : Session) (k : Key) (j : ℕ)
    → Owned m
    → lookup id m.sessions ≡ some s
    → lookup k (detach (owner_key s) id m.user_sessions) ≡ some j
    → (j == id) ≡ false
detached m id s k j owned here e = elim (Bool-cases (j == id)) [
  | inr other ↦ other
  | inl hit ↦
      let at_id : j ≡ id = ==_sound hit in
      let owns = owned.owns k j (lookup-detach (owner_key s) k id j m.user_sessions e) in
      let same_session : owns.session ≡ s = cc (sym here, owns.found, at_id) in
      let key_eq : owner_key s ≡ k =
        owner_key-eq s k (subst (λ t. t.user_id ≡ some k.0) same_session owns.user)
          (subst (λ t. t.origin_channel ≡ k.1) same_session owns.channel) in
      absurd (
        detach-gone k id m.user_sessions (
          subst (λ q. lookup k (detach q id m.user_sessions) ≡ some id) key_eq (e ∙ ap some at_id)))
]
