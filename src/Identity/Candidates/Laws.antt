-- ===== src/Identity/Candidates/Laws.antt =====
-- The candidates of resolver.rs and what `push_unique` keeps.
use ngen_orca.Core.Identity.{
  ChannelKind, custom, discord, i_message, irc, matrix, signal, slack, teams, telegram, web_chat,
  whats_app,
}
use ngen_orca.Base.{
  List, ◌∷◌, Bool, Bool-cases, Option-cases, [], ◌≡◌, any, inl, inr, codes, false, same, ◌++◌, true,
  refl, subst, ◌||◌, same_iff, sym, same_sound, ◌∙◌,
}
use ngen_orca.Identity.Texts.{
  Text, is_empty, trim, trim_start_matches, split_once, to_ascii_lowercase,
}
use ngen_orca.Identity.Candidates.{
  push_unique, push_basic_candidates, push_username_candidates, push_phone_candidates,
  push_email_candidates, push_matrix_candidates, push_bracketed_mention_candidates, kind_candidates,
  channel_handle_candidates, phone_digits, push_web_candidates, mention,
}

module _ (P : List Text → Type 0)
    (push : (values : List Text) (candidate : Text)
      → P values
      → P (push_unique values candidate)) where
  basic-P : (values : List Text) (raw : Text) → P values → P (push_basic_candidates values raw)
  unfolding push_basic_candidates
  basic-P values raw h =
      let once : P (push_unique values (trim raw)) = push values (trim raw) h in
      elim (Bool-cases (is_empty (trim raw))) [
        | inl e ↦ rw (e, push_basic_candidates) h
        | inr e ↦ elim (Bool-cases (same (to_ascii_lowercase (trim raw)) (trim raw))) [
          | inl f ↦ rw (e, f, push_basic_candidates) once
          | inr f ↦ rw (e, f, push_basic_candidates) (push _ (to_ascii_lowercase (trim raw)) once)
        ]
      ]

  username-P :
      (values : List Text) (raw : Text) → P values → P (push_username_candidates values raw)
  unfolding push_username_candidates
  username-P values raw h =
      elim (Bool-cases (is_empty (trim_start_matches (codes "@") (trim raw)))) [
        | inl e ↦ rw (e, push_username_candidates) h
        | inr e ↦ rw (e, push_username_candidates) (basic-P _ _ (basic-P values _ h))
      ]

  phone-P : (values : List Text) (raw : Text) → P values → P (push_phone_candidates values raw)
  unfolding push_phone_candidates
  phone-P values raw h = elim (Bool-cases (is_empty (phone_digits raw))) [
    | inl e ↦ rw (e, push_phone_candidates) h
    | inr e ↦ rw (e, push_phone_candidates) (push _ _ (push values _ h))
  ]

  email-P : (values : List Text) (raw : Text) → P values → P (push_email_candidates values raw)
  unfolding push_email_candidates
  email-P values raw h = elim (Option-cases (split_once 64 (trim raw))) [
    | inl e ↦ rw (e, push_email_candidates) h
    | inr (parts, e) ↦ rw (e, push_email_candidates) (basic-P values parts.0 h)
  ]

  matrix-P : (values : List Text) (raw : Text) → P values → P (push_matrix_candidates values raw)
  unfolding push_matrix_candidates
  matrix-P values raw h = elim (Bool-cases (is_empty (trim raw))) [
    | inl e ↦ rw (e, push_matrix_candidates) h
    | inr e ↦ elim (Option-cases (split_once 58 (trim raw))) [
      | inl f ↦ rw (e, f, push_matrix_candidates) (username-P _ _ (basic-P values _ h))
      | inr (parts, f) ↦ rw (e, f, push_matrix_candidates) (username-P _ _ (basic-P values _ h))
    ]
  ]

  bracketed-P :
      (values : List Text) (raw : Text)
      → P values
      → P (push_bracketed_mention_candidates values raw)
  unfolding push_bracketed_mention_candidates
  bracketed-P values raw h = elim (Option-cases (mention (trim raw))) [
    | inl e ↦ rw (e, push_bracketed_mention_candidates) h
    | inr (inner, e) ↦ rw (e, push_bracketed_mention_candidates) (basic-P values _ h)
  ]

  kind-P :
      (kind : ChannelKind) (values : List Text) (raw : Text)
      → P values
      → P (kind_candidates kind values raw)
  unfolding kind_candidates push_web_candidates
  kind-P telegram values raw h = bracketed-P _ raw (username-P values raw h)
  kind-P discord values raw h = bracketed-P _ raw (username-P values raw h)
  kind-P irc values raw h = bracketed-P _ raw (username-P values raw h)
  kind-P whats_app values raw h = phone-P values raw h
  kind-P signal values raw h = phone-P values raw h
  kind-P i_message values raw h = phone-P values raw h
  kind-P matrix values raw h = matrix-P values raw h
  kind-P slack values raw h = username-P _ raw (bracketed-P _ raw (basic-P values _ h))
  kind-P teams values raw h = email-P _ _ (username-P _ _ (basic-P values _ h))
  kind-P web_chat values raw h = email-P _ raw (basic-P values raw h)
  kind-P (custom _) values raw h = email-P _ raw (phone-P _ raw (username-P values raw h))

  -- What every push keeps holds of the candidates.
  candidates-P :
      (kind : ChannelKind) (handle : Text) → P [] → P (channel_handle_candidates kind handle)
  unfolding channel_handle_candidates
  candidates-P kind handle h = elim (Bool-cases (is_empty (trim handle))) [
    | inl e ↦ rw (e, channel_handle_candidates) h
    | inr e ↦ rw (e, channel_handle_candidates) (kind-P kind _ _ (basic-P _ _ (basic-P [] _ h)))
  ]

-- No text is empty, and none is repeated.
abbrev pub Clean : List Text → Type 0
Clean [] = Unit
Clean (v ∷ values) =
    (is_empty v ≡ false) × (any (λ other. same other v) values ≡ false) × Clean values

any-append :
    (p : Text → Bool) (values : List Text) (x : Text)
    → any p values ≡ false
    → p x ≡ false
    → any p (values ++ x ∷ []) ≡ false
any-append p [] x h e = rw e refl
any-append p (v ∷ values) x h e = elim (Bool-cases (p v)) [
  | inl f ↦ let bad : true ≡ false = subst (λ b. (b || any p values) ≡ false) f h in absurd cc
  | inr f ↦ rw f (any-append p values x (subst (λ b. (b || any p values) ≡ false) f h) e)
]

neither : (a b : Bool) → (a || b) ≡ false → (a ≡ false) × (b ≡ false)
neither true b h = absurd cc
neither false b h = (refl, h)

same-swap : (v x : Text) → same v x ≡ false → same x v ≡ false
same-swap v x e = elim (Bool-cases (same x v)) [
  | inr f ↦ f
  | inl f ↦
      let hit : same v x ≡ true = (same_iff v x).1 (sym (same_sound f)) in
      let bad : true ≡ false = sym hit ∙ e in absurd cc
]

append-Clean :
    (values : List Text) (x : Text)
    → Clean values
    → is_empty x ≡ false
    → any (λ v. same v x) values ≡ false
    → Clean (values ++ x ∷ [])
append-Clean [] x clean full new = (full, refl, tt)
append-Clean (v ∷ values) x (full_v, alone, clean) full new =
    let apart : same v x ≡ false = (neither (same v x) (any (λ w. same w x) values) new).0 in
    let later : any (λ w. same w x) values ≡ false =
      (neither (same v x) (any (λ w. same w x) values) new).1 in
    (
      full_v,
      any-append (λ other. same other v) values x alone (same-swap v x apart),
      append-Clean values x clean full later,
    )

push_unique-Clean :
    (values : List Text) (candidate : Text) → Clean values → Clean (push_unique values candidate)
unfolding push_unique
push_unique-Clean values candidate clean = elim (Bool-cases (is_empty candidate)) [
  | inl e ↦ rw (e, push_unique) clean
  | inr e ↦ elim (Bool-cases (any (λ existing. same existing candidate) values)) [
    | inl f ↦ rw (e, f, push_unique) clean
    | inr f ↦ rw (e, f, push_unique) (append-Clean values candidate clean e f)
  ]
]

-- On every kind of channel and for every handle, the candidates are texts that are not empty, and none
-- of them is listed twice.
pub channel_handle_candidates-Clean :
    (kind : ChannelKind) (handle : Text) → Clean (channel_handle_candidates kind handle)
channel_handle_candidates-Clean kind handle = candidates-P Clean push_unique-Clean kind handle tt
