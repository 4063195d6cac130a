-- ===== src/Identity/Store/Laws.antt =====
-- Who holds a handle, and what the statements of the store change.
use ngen_orca.Core.Identity.{handle_key, ChannelKind, ChannelBinding, UserIdentity, same_handle}
use ngen_orca.Base.{
  Option, Bool, Bytes, lookup, false, ◌≡◌, some, true, none, if◌then◌else◌, insert, ap,
  Option-cases, refl, ok, inl, lookup-insert, sym, inr, ◌∙◌, arith, text_key,
}
use ngen_orca.Identity.Store.{
  Tables, get_user, find_by_channel, add_channel, UserRow, is_user, identity_of,
}

abbrev pub user_in : Option (Bytes × ChannelBinding) → Option Bytes
user_in none = none
user_in (some row) = some row.0

-- The user of the binding for a handle.
abbrev pub holder : Tables → ChannelKind → Bytes → Option Bytes
holder t kind handle = user_in (lookup (kind, handle) t.channel_bindings)

abbrev present : Option UserRow → Bool
present none = false
present (some r) = true

pub get_user-is_user :
    (t : Tables) (user : Bytes)
    → is_user t user ≡ true
    → (row : UserRow) × (get_user t user ≡ some (identity_of t user row))
unfolding get_user
get_user-is_user t user e = elim (Option-cases (lookup user t.users)) [
  | inl f ↦ let bad : false ≡ true = sym (ap present f) ∙ ground arith in cc
  | inr (row, f) ↦ (row, rw (f, get_user) refl)
]

find_row : Tables → Option (Bytes × ChannelBinding) → Option UserIdentity
find_row t none = none
find_row t (some row) = get_user t row.0

find_row-user :
    (t : Tables) (o : Option (Bytes × ChannelBinding)) (user : Bytes)
    → user_in o ≡ some user
    → find_row t o ≡ get_user t user
unfolding find_row
find_row-user t none user e = cc
find_row-user t (some row) user e = let at_user : row.0 ≡ user = cc in ap (get_user t) at_user

pub find_by_channel-holder :
    (t : Tables) (kind : ChannelKind) (handle user : Bytes)
    → holder t kind handle ≡ some user
    → find_by_channel t kind handle ≡ get_user t user
unfolding find_by_channel find_row
find_by_channel-holder t kind handle user e =
    elim (Option-cases (lookup (kind, handle) t.channel_bindings)) [
      | inl f ↦ let bad : none ≡ some user = sym (ap user_in f) ∙ e in cc
      | inr (row, f) ↦
          rw (f, find_by_channel) (find_row-user t (some row) user (sym (ap user_in f) ∙ e))
    ]

get_user-user_id :
    (t : Tables) (user : Bytes) (u : UserIdentity) → get_user t user ≡ some u → u.user_id ≡ user
unfolding get_user
get_user-user_id t user u e = elim (Option-cases (lookup user t.users)) [
  | inl f ↦
      let bad : ◌≡◌ {A = Option UserIdentity} none (some u) = rw (f, get_user) at e in absurd cc
  | inr (row, f) ↦
      let found : some (identity_of t user row) ≡ some u = rw (f, get_user) at e in
      let same_user : identity_of t user row ≡ u = cc in ap (λ v. v.user_id) (sym same_user)
]

-- A user that is found for a handle holds it.
pub holder-find_by_channel :
    (t : Tables) (kind : ChannelKind) (handle : Bytes) (u : UserIdentity)
    → find_by_channel t kind handle ≡ some u
    → holder t kind handle ≡ some u.user_id
unfolding find_by_channel
holder-find_by_channel t kind handle u e =
    elim (Option-cases (lookup (kind, handle) t.channel_bindings)) [
      | inl f ↦
          let bad : ◌≡◌ {A = Option UserIdentity} none (some u) = rw (f, find_by_channel) at e in
          absurd cc
      | inr (row, f) ↦
          let found : get_user t row.0 ≡ some u = rw (f, find_by_channel) at e in
          ap user_in f ∙ ap some (sym (get_user-user_id t row.0 u found))
    ]

pub find_by_channel-none :
    (t : Tables) (kind : ChannelKind) (handle : Bytes)
    → holder t kind handle ≡ none
    → find_by_channel t kind handle ≡ none
unfolding find_by_channel
find_by_channel-none t kind handle e =
    elim (Option-cases (lookup (kind, handle) t.channel_bindings)) [
      | inl f ↦ rw (f, find_by_channel) refl
      | inr (row, f) ↦ let bad : some row.0 ≡ none = sym (ap user_in f) ∙ e in cc
    ]

user_in-if :
    (b : Bool) (row : Bytes × ChannelBinding) (o : Option (Bytes × ChannelBinding))
    → user_in (if b then some row else o) ≡ (if b then some row.0 else user_in o)
user_in-if true row o = refl
user_in-if false row o = refl

-- What `add_channel` does for a user who is there.
pub add_channel-ok :
    (t : Tables) (user : Bytes) (c : ChannelBinding)
    → is_user t user ≡ true
    → add_channel t user c
      ≡ ok (record t {
        channel_bindings = insert (c.channel_kind, c.handle) (user, c) t.channel_bindings;
      })
unfolding add_channel
add_channel-ok t user c e = rw (e, add_channel) refl

pub holder-insert :
    (t : Tables) (user : Bytes) (c : ChannelBinding) (kind : ChannelKind) (handle : Bytes)
    → user_in
        (lookup (kind, handle) (insert (c.channel_kind, c.handle) (user, c) t.channel_bindings))
      ≡ (if same_handle (c.channel_kind, c.handle) (kind, handle)
          then some user
          else holder t kind handle)
holder-insert t user c kind handle =
    ap user_in
      (lookup-insert (c.channel_kind, c.handle) (kind, handle) (user, c) t.channel_bindings)
    ∙ user_in-if (same_handle (c.channel_kind, c.handle) (kind, handle)) (user, c) _
