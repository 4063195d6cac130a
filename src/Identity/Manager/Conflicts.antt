-- ===== src/Identity/Manager/Conflicts.antt =====
-- The search of `link_channel` for another user who holds a candidate.
use ngen_orca.Core.Identity.{handle_key, ChannelKind, UserIdentity, same_handle, same_handle_sound}
use ngen_orca.Identity.Store.{Tables, is_user, identity_of}
use ngen_orca.Identity.Manager.{conflict_or, find_conflict}
use ngen_orca.Base.{
  List, Bytes, Bool, Option, ◌≡◌, false, some, none, ◌∷◌, arith, Bool-cases, ◌⊎◌, true, ◌≢◌, same,
  inl, ◌||◌, same_sound, subst, inr, [], if◌then◌else◌, same_iff, sym, ◌∙◌, refl, Mem, ap,
}
use mathlib.Core.List.{mem-cons_of_mem, mem-cons_self}
use ngen_orca.Identity.Store.Laws.{
  holder, get_user-is_user, find_by_channel-holder, holder-find_by_channel,
}

-- The handle is one of those listed.
abbrev pub listed : ChannelKind → List Bytes → ChannelKind → Bytes → Bool
listed kind [] k h = false
listed kind (c ∷ cs) k h = same_handle (kind, c) (k, h) || listed kind cs k h

-- Every handle is held by a user who is there.
abbrev pub HoldersThere : Tables → Type 0
HoldersThere t =
    (k : ChannelKind) (h user : Bytes) → holder t k h ≡ some user → is_user t user ≡ true

conflict_or-none :
    (user : Bytes) (rest : Option Bytes) (o : Option UserIdentity)
    → conflict_or user rest o ≡ none
    → rest ≡ none
unfolding conflict_or
conflict_or-none user rest none e = e
conflict_or-none user rest (some u) e = ground arith

conflict_or-same :
    (user : Bytes) (rest : Option Bytes) (u : UserIdentity)
    → conflict_or user rest (some u) ≡ none
    → u.user_id ≡ user
unfolding conflict_or
conflict_or-same user rest u e = elim (Bool-cases (same u.user_id user)) [
  | inl f ↦ same_sound f
  | inr f ↦
      let bad : some u.user_id ≡ none =
        subst (λ b. (if b then rest else some u.user_id) ≡ none) f e in
      cc
]

-- A conflict that is reported comes later, or is with the user found here.
conflict_or-other :
    (user other : Bytes) (rest : Option Bytes) (o : Option UserIdentity)
    → conflict_or user rest o ≡ some other
    → (rest ≡ some other)
      ⊎ ((u : UserIdentity) × (o ≡ some u) × (u.user_id ≡ other) × (other ≢ user))
unfolding conflict_or
conflict_or-other user other rest none e = inl e
conflict_or-other user other rest (some u) e = elim (Bool-cases (same u.user_id user)) [
  | inl f ↦ inl (subst (λ b. (if b then rest else some u.user_id) ≡ some other) f e)
  | inr f ↦
      let at_other : some u.user_id ≡ some other =
        subst (λ b. (if b then rest else some u.user_id) ≡ some other) f e in
      let same_user : u.user_id ≡ other = cc in
      inr (
        u,
        refl,
        same_user,
        λ h.
            let hit : same u.user_id user ≡ true = (same_iff u.user_id user).1 (same_user ∙ h) in
            let bad : true ≡ false = sym hit ∙ f in cc,
      )
]

-- Where there is no conflict, who holds a candidate is the user.
pub find_conflict-none :
    (cs : List Bytes) (t : Tables) (user : Bytes) (kind : ChannelKind)
    → HoldersThere t
    → find_conflict t user kind cs ≡ none
    → (k : ChannelKind) (h other : Bytes) → listed kind cs k h ≡ true
    → holder t k h ≡ some other
    → other ≡ user
unfolding find_conflict
find_conflict-none [] t user kind there e k h other l held = cc
find_conflict-none (c ∷ cs) t user kind there e k h other l held =
    elim (Bool-cases (same_handle (kind, c) (k, h))) [
      | inr miss ↦
          find_conflict-none cs t user kind there (conflict_or-none user _ _ e) k h other
            (subst (λ b. (b || listed kind cs k h) ≡ true) miss l) held
      | inl hit ↦
          let at : (kind, c) ≡ (k, h) = same_handle_sound {j = (kind, c)} {k = (k, h)} hit in
          let held_c : holder t kind c ≡ some other =
            subst (λ p. holder t p.0 p.1 ≡ some other) (sym at) held in
          let (row, found) = get_user-is_user t other (there k h other held) in
          conflict_or-same user (find_conflict t user kind cs) (identity_of t other row) (
            subst (λ o. conflict_or user (find_conflict t user kind cs) o ≡ none)
              (find_by_channel-holder t kind c other held_c ∙ found) e)
    ]

-- Another user who holds one of the candidates.
pub record HeldByOther (t : Tables) (user : Bytes) (kind : ChannelKind) (cs : List Bytes)
    (other : Bytes) : Type 0 where
  pub candidate : Bytes
  pub is_candidate : Mem candidate cs
  pub held : holder t kind candidate ≡ some other
  pub is_other : other ≢ user

pub find_conflict-HeldByOther :
    (cs : List Bytes) (t : Tables) (user other : Bytes) (kind : ChannelKind)
    → find_conflict t user kind cs ≡ some other
    → HeldByOther t user kind cs other
unfolding find_conflict
find_conflict-HeldByOther [] t user other kind e = absurd cc
find_conflict-HeldByOther (c ∷ cs) t user other kind e = elim (conflict_or-other user other _ _ e) [
  | inl later ↦
      let h = find_conflict-HeldByOther cs t user other kind later in
      record {
        candidate = h.candidate;
        is_candidate = mem-cons_of_mem c h.is_candidate;
        held = h.held;
        is_other = h.is_other;
      }
  | inr (u, found, same_user, apart) ↦ record {
    candidate = c;
    is_candidate = mem-cons_self;
    held = holder-find_by_channel t kind c u found ∙ ap some same_user;
    is_other = apart;
  }
]
