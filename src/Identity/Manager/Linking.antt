-- ===== src/Identity/Manager/Linking.antt =====
-- Linking a handle to a user.
use ngen_orca.Base.{true, false}
use ngen_orca.Core.Identity.{handle_key, ChannelKind, same_handle}
use ngen_orca.Identity.Manager.{add_all, link_channel, Done, find_conflict, channel_binding}
use ngen_orca.Base.{
  Bool, Bytes, List, Option, ℕ, if◌then◌else◌, true, ◌≡◌, some, ◌∷◌, ◌||◌, ok, same, err, none,
  insert, Option-cases, ◌∙◌, ◌⊎◌, Bool-cases, inr, ap, inl, same_iff, refl, [],
}
use ngen_orca.Identity.Store.{Tables, is_user, handle_conflict}
use ngen_orca.Identity.Manager.Conflicts.{
  HoldersThere, listed, find_conflict-HeldByOther, HeldByOther, find_conflict-none,
}
use ngen_orca.Identity.Candidates.{channel_handle_candidates}
use ngen_orca.Identity.Store.Laws.{holder, add_channel-ok, holder-insert}

add_all-step :
    (t : Tables) (user channel_id : Bytes) (kind : ChannelKind) (c : Bytes) (cs : List Bytes)
    (now : ℕ)
    → is_user t user ≡ true
    → add_all t user channel_id kind (c ∷ cs) now
      ≡ add_all
          (record t {
            channel_bindings =
                insert (kind, c) (user, channel_binding channel_id kind c now) t.channel_bindings;
          })
          user
          channel_id
          kind
          cs
          now
unfolding add_all
add_all-step t user channel_id kind c cs now e =
    rw (add_channel-ok t user (channel_binding channel_id kind c now) e, add_all) refl

if_or :
    (a b : Bool) (x y : Option Bytes)
    → (if b then x else if a then x else y) ≡ (if a || b then x else y)
if_or true true x y = refl
if_or true false x y = refl
if_or false true x y = refl
if_or false false x y = refl

-- What the second loop leaves, if the user is there.
record Added (t : Tables) (user : Bytes) (kind : ChannelKind) (cs : List Bytes)
    (r : Done (Unit {0})) : Type 0 where
  done : r.0 ≡ ok tt
  users : r.1.users ≡ t.users
  pairing : r.1.pairing_requests ≡ t.pairing_requests
  holders :
      (k : ChannelKind) (h : Bytes)
      → holder r.1 k h ≡ (if listed kind cs k h then some user else holder t k h)

add_all-Added :
    (cs : List Bytes) (t : Tables) (user channel_id : Bytes) (kind : ChannelKind) (now : ℕ)
    → is_user t user ≡ true
    → Added t user kind cs (add_all t user channel_id kind cs now)
unfolding add_all
add_all-Added [] t user channel_id kind now e = record {
  done = refl;
  users = refl;
  pairing = refl;
  holders = λ k h. refl;
}
add_all-Added (c ∷ cs) t user channel_id kind now e =
    let b = channel_binding channel_id kind c now in
    let t' : Tables = record t {
      channel_bindings = insert (kind, c) (user, b) t.channel_bindings;
    } in
    let rest = add_all-Added cs t' user channel_id kind now e in
    rw (add_all-step t user channel_id kind c cs now e) (record {
      done = rest.done;
      users = rest.users;
      pairing = rest.pairing;
      holders = λ k h.
          rest.holders k h
          ∙ ap (λ o. if listed kind cs k h then some user else o) (holder-insert t user b k h)
          ∙ if_or (same_handle (kind, c) (k, h)) (listed kind cs k h) (some user) (holder t k h);
    })

-- Nobody else is in the place.
abbrev pub free_for : Bytes → Option Bytes → Bool
free_for user none = true
free_for user (some other) = same other user

-- Every candidate has been given to the user, of those that nobody else held.
pub record Given (t : Tables) (user : Bytes) (kind : ChannelKind) (cs : List Bytes)
    (r : Done (Unit {0})) : Type 0 where
  pub done : r.0 ≡ ok tt
  pub users : r.1.users ≡ t.users
  pub holders :
      (k : ChannelKind) (h : Bytes)
      → holder r.1 k h ≡ (if listed kind cs k h then some user else holder t k h)
  pub free :
      (k : ChannelKind) (h : Bytes)
      → (if listed kind cs k h then free_for user (holder t k h) else true) ≡ true

-- What `link_channel` may come to: a conflict with another user who holds a candidate, which leaves the tables, or the handles
-- given.
abbrev pub Linked : Tables → Bytes → ChannelKind → Bytes → Done (Unit {0}) → Type 0
Linked t user kind handle r =
    ((other : Bytes) × HeldByOther t user kind (channel_handle_candidates kind handle) other
      × (r ≡ (err (handle_conflict handle other), t)))
    ⊎ Given t user kind (channel_handle_candidates kind handle) r

find_conflict-free :
    (cs : List Bytes) (t : Tables) (user : Bytes) (kind : ChannelKind)
    → HoldersThere t
    → find_conflict t user kind cs ≡ none
    → (k : ChannelKind) (h : Bytes)
    → (if listed kind cs k h then free_for user (holder t k h) else true) ≡ true
find_conflict-free cs t user kind there e k h = elim (Bool-cases (listed kind cs k h)) [
  | inr f ↦ rw f refl
  | inl l ↦ elim (Option-cases (holder t k h)) [
    | inl f ↦ rw (l, f) refl
    | inr (other, f) ↦
        rw (l, f)
          ((same_iff other user).1 (find_conflict-none cs t user kind there e k h other l f))
  ]
]

-- For a user who is there, linking a handle either reports another user who holds a candidate and leaves
-- the tables, or gives every candidate to the user. Then no candidate was held by another user, and every
-- other handle stays with its holder. The holders of all handles are users who are there.
pub link_channel-Linked :
    (t : Tables) (user channel_id : Bytes) (kind : ChannelKind) (handle : Bytes) (now : ℕ)
    → is_user t user ≡ true
    → HoldersThere t
    → Linked t user kind handle (link_channel t user channel_id kind handle now)
unfolding link_channel
link_channel-Linked t user channel_id kind handle now e there =
    let cs : List Bytes = channel_handle_candidates kind handle in
    elim (Option-cases (find_conflict t user kind cs)) [
      | inr (other, f) ↦
          rw (f, link_channel) (inl (other, find_conflict-HeldByOther cs t user other kind f, refl))
      | inl f ↦
          let added = add_all-Added cs t user channel_id kind now e in
          rw (f, link_channel)
            (inr (record {
              done = added.done;
              users = added.users;
              holders = added.holders;
              free = find_conflict-free cs t user kind there f;
            }))
    ]

pub link_channel-pairing_requests :
    (t : Tables) (user channel_id : Bytes) (kind : ChannelKind) (handle : Bytes) (now : ℕ)
    → is_user t user ≡ true
    → (link_channel t user channel_id kind handle now).1.pairing_requests ≡ t.pairing_requests
unfolding link_channel
link_channel-pairing_requests t user channel_id kind handle now e =
    let cs : List Bytes = channel_handle_candidates kind handle in
    elim (Option-cases (find_conflict t user kind cs)) [
      | inr (other, f) ↦ rw (f, link_channel) refl
      | inl f ↦ rw (f, link_channel) (add_all-Added cs t user channel_id kind now e).pairing
    ]
