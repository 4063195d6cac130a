-- ===== src/Identity/Manager/Resolving.antt =====
-- Resolving a handle that has been linked.
use ngen_orca.Core.Identity.{handle_key, channel, ChannelKind, same_handle_refl}
use ngen_orca.Identity.Store.{Tables, is_user, handle_conflict}
use ngen_orca.Identity.Manager.{resolve_first, resolve_by_channel, link_channel, Done}
use ngen_orca.Base.{
  Bytes, List, ℕ, ◌≡◌, true, some, ◌∷◌, ok, refl, inl, err, sym, ap, ◌∙◌, inr, subst, if◌then◌else◌,
}
use ngen_orca.Identity.Store.Laws.{holder, get_user-is_user, find_by_channel-holder}
use ngen_orca.Identity.Manager.Conflicts.{HoldersThere, listed}
use ngen_orca.Identity.Candidates.{channel_handle_candidates}
use ngen_orca.Identity.Manager.Linking.{link_channel-Linked}

resolve_first-holder :
    (t : Tables) (user : Bytes) (kind : ChannelKind) (c : Bytes) (cs : List Bytes)
    → is_user t user ≡ true
    → holder t kind c ≡ some user
    → resolve_first t kind (c ∷ cs) ≡ some (user, channel)
unfolding resolve_first
resolve_first-holder t user kind c cs e held =
    let (row, found) = get_user-is_user t user e in
    rw (find_by_channel-holder t kind c user held, found, resolve_first) refl

-- After a handle with a candidate is linked to a user who is there, the handle resolves to this user, with
-- the trust of a channel.
pub resolve_by_channel-link_channel :
    (t : Tables) (user channel_id : Bytes) (kind : ChannelKind) (handle c : Bytes) (cs : List Bytes)
    (now : ℕ)
    → is_user t user ≡ true
    → HoldersThere t
    → channel_handle_candidates kind handle ≡ c ∷ cs
    → (link_channel t user channel_id kind handle now).0 ≡ ok tt
    → resolve_by_channel (link_channel t user channel_id kind handle now).1 kind handle
      ≡ some (user, channel)
unfolding resolve_by_channel
resolve_by_channel-link_channel t user channel_id kind handle c cs now e there first linked =
    let r : Done (Unit {0}) = link_channel t user channel_id kind handle now in
    elim (link_channel-Linked t user channel_id kind handle now e there) [
      | inl (other, apart, f) ↦
          let bad : err (handle_conflict handle other) ≡ ok tt = sym (ap (λ p. p.0) f) ∙ linked in
          absurd cc
      | inr given ↦
          let hit : listed kind (c ∷ cs) kind c ≡ true = rw (same_handle_refl (kind, c)) refl in
          let held : holder r.1 kind c ≡ some user =
            subst
              (λ cs'.
                holder r.1 kind c ≡ (if listed kind cs' kind c then some user else holder t kind c))
              first (given.holders kind c)
            ∙ ap (λ b. if b then some user else holder t kind c) hit in
          rw (first) (
            resolve_first-holder r.1 user kind c cs
              (subst (λ us. is_user (record t { users = us }) user ≡ true) (sym given.users) e)
              held)
    ]
