-- ===== src/WaBinary/Written.antt =====
-- What the encoder wrote for a string.
use ngen_orca.WaBinary.Encoder.{
  split_at_sign, jid_parts, write_string_from, write_string, write_raw, write_byte_length,
}
use ngen_orca.Base.{
  map-parts, Bytes, ◌≡◌, ℕ, some, ok, ◌≤◌, ◌++◌, Option-cases, ◌∷◌, suc, length, Bool-cases, inl,
  [], inr, arith, ◌==◌, ap, sym, zero, none, ◌≢◌,
}
use ngen_orca.WaBinary.Tokens.{token_index}

-- What a JID consists of.
pub split_at_sign-eq :
    (s user server : Bytes) → split_at_sign s ≡ some (user, server) → user ++ b'@' ∷ server ≡ s
unfolding split_at_sign
split_at_sign-eq [] user server e = cc
split_at_sign-eq (b ∷ s) user server e = elim (Bool-cases (b == b'@')) [
  | inl at ↦ ground arith
  | inr other ↦ elim (Option-cases (split_at_sign s)) [
    | inl missing ↦ ground arith
    | inr ((u, v), found) ↦ ground (arith, split_at_sign-eq s u v found)
  ]
]

pub jid_parts-eq :
    (s user : Bytes) (t : ℕ)
    → jid_parts s ≡ some (user, t)
    → (server : Bytes) × (token_index server ≡ some t) × (split_at_sign s ≡ some (user, server))
unfolding jid_parts
jid_parts-eq s user t e = elim (Option-cases (split_at_sign s)) [
  | inl missing ↦ absurd (ground arith)
  | inr ((u, server), found) ↦ (server, ground arith, ground arith)
]

-- The three forms in which `write_string` writes `s` as `bs`.
pub data Written : Bytes → Bytes → Type 0 where
  as_token : {s bs : Bytes} (t : ℕ) → token_index s ≡ some t → bs ≡ t ∷ [] → Written s bs
  as_raw : {s bs : Bytes} → bs ≡ write_raw s → Written s bs
  as_jid :
      {s bs : Bytes} (user server u : Bytes) (t : ℕ)
      → user ++ b'@' ∷ server ≡ s
      → token_index server ≡ some t
      → Written user u
      → bs ≡ 0xFC ∷ (u ++ t ∷ [])
      → Written s bs

write_string_from-Written : (f : ℕ) (s bs : Bytes) → write_string_from f s ≡ ok bs → Written s bs
unfolding write_string_from
write_string_from-Written zero s bs e = cc
write_string_from-Written (suc f) s bs e = elim (Option-cases (token_index s)) [
  | inr (t, known) ↦ as_token t known (ground arith)
  | inl free ↦ elim (Option-cases (jid_parts s)) [
    | inl raw ↦ as_raw (ground arith)
    | inr ((user, t), jid) ↦
        let (server, known, split) = jid_parts-eq s user t jid in
        let (u, wrote, done) =
          map-parts (write_string_from f user) (λ u. 0xFC ∷ (u ++ t ∷ [])) (ground arith) in
        as_jid user server u t (split_at_sign-eq s user server split) known
          (write_string_from-Written f user u wrote) (sym done)
  ]
]

pub write_string-Written : (s bs : Bytes) → write_string s ≡ ok bs → Written s bs
unfolding write_string
write_string-Written s bs e = write_string_from-Written (suc (length s)) s bs e

pub Written-pos : {s bs : Bytes} → Written s bs → 1 ≤ length bs
unfolding write_raw write_byte_length
Written-pos (as_token t known e) = omega (arith, ap length e)
Written-pos (as_raw {s} {bs} e) = rw e (ground arith)
Written-pos (as_jid user server u t _ _ w e) = omega (arith, ap length e)

module _ (s bs : Bytes) (e : write_string s ≡ ok bs) where
  pub write_string_token : (t : ℕ) → token_index s ≡ some t → bs ≡ t ∷ []
  unfolding write_string
  write_string_token t known = ground arith

  pub write_string_raw : token_index s ≡ none → jid_parts s ≡ none → bs ≡ write_raw s
  unfolding write_string
  write_string_raw free raw = ground arith

  pub write_string_jid :
      (user : Bytes) (t : ℕ)
      → token_index s ≡ none
      → jid_parts s ≡ some (user, t)
      → (r : Bytes) × (bs ≡ 0xFC ∷ r)
  unfolding write_string
  write_string_jid user t free jid =
      let (u, _, done) =
        map-parts (write_string_from (length s) user) (λ u. 0xFC ∷ (u ++ t ∷ [])) (ground arith) in
      (u ++ t ∷ [], sym done)

pub jid-ne-nil : (s user : Bytes) (t : ℕ) → jid_parts s ≡ some (user, t) → s ≢ []
unfolding jid_parts split_at_sign
jid-ne-nil [] user t jid = cc
jid-ne-nil (b ∷ s) user t jid = λ e. cc
