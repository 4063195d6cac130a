-- ===== src/WaNoise/Handshake.antt =====
-- The keys and the nonces that the handshake of noise.rs uses.
use ngen_orca.WaNoise.{
  Crypto, NoiseHandler, decrypt_and_hash, encrypt_and_hash, take_payload, mix_hash, zeros,
  NoiseError, gcm_decrypt, gcm_encrypt, mix_key, panic, take_static, process_server_hello,
  build_client_finish, missing_static_key, hello_too_short, mix_static, no_ephemeral_key,
  split_keys,
}
use ngen_orca.Base.{
  Bytes, ◌≡◌, err, ok, some, Option-cases, Bool-cases, inl, length, Result, ◌==◌, and_then-parts,
  ap, subst, inr, sym, ◌∙◌, drop, if◌then◌else◌, ◌++◌, ltb, and_then, take, true,
}

module _ (c : Crypto) where
  decrypt_and_hash-parts :
      (n n' : NoiseHandler) (ct p : Bytes)
      → decrypt_and_hash c n ct ≡ (ok p, n')
      → (c.unseal n.enc_key (zeros 12) ct n.h ≡ some p) × (n' ≡ mix_hash c n ct)
  unfolding decrypt_and_hash
  decrypt_and_hash-parts n n' ct p e = elim (Option-cases (c.unseal n.enc_key (zeros 12) ct n.h)) [
    | inl f ↦
        let bad : ◌≡◌ {A = Result NoiseError Bytes} (err gcm_decrypt) (ok p) =
          ap (λ r. r.0) (rw (f, decrypt_and_hash) at e) in
        absurd cc
    | inr (x, f) ↦
        let e' = rw (f, decrypt_and_hash) at e in
        let same : ◌≡◌ {A = Result NoiseError Bytes} (ok x) (ok p) = ap (λ r. r.0) e' in
        (f ∙ cc, sym (ap (λ r. r.1) e'))
  ]

  encrypt_and_hash-parts :
      (n n' : NoiseHandler) (p ct : Bytes)
      → encrypt_and_hash c n p ≡ (ok ct, n')
      → (c.seal n.enc_key (zeros 12) p n.h ≡ some ct) × (n' ≡ mix_hash c n ct)
  unfolding encrypt_and_hash
  encrypt_and_hash-parts n n' p ct e = elim (Option-cases (c.seal n.enc_key (zeros 12) p n.h)) [
    | inl f ↦
        let bad : ◌≡◌ {A = Result NoiseError Bytes} (err gcm_encrypt) (ok ct) =
          ap (λ r. r.0) (rw (f, encrypt_and_hash) at e) in
        absurd cc
    | inr (x, f) ↦
        let e' = rw (f, encrypt_and_hash) at e in
        let same : ◌≡◌ {A = Result NoiseError Bytes} (ok x) (ok ct) = ap (λ r. r.0) e' in
        (f ∙ cc, sym (ap (λ r. r.1) e') ∙ ap (mix_hash c n) cc)
  ]

  take_payload-parts :
      (secret payload_enc server_static : Bytes) (n n' : NoiseHandler) (p : Bytes)
      → take_payload c secret payload_enc server_static n ≡ (ok p, n')
      → (h : Bytes) × (c.unseal n'.enc_key (zeros 12) payload_enc h ≡ some p)
  unfolding take_payload mix_hash
  take_payload-parts secret payload_enc server_static n n' p e =
      elim (Bool-cases (length server_static == 32)) [
        | inl f ↦
            let (u, m, mixed, opened) =
              and_then-parts (mix_key c n (c.exchange secret server_static))
                (λ _ n'. decrypt_and_hash c n' payload_enc) p n' (rw (f, take_payload) at e) in
            let (reads, after) = decrypt_and_hash-parts m n' payload_enc p opened in
            (
              m.h,
              subst (λ k. c.unseal k (zeros 12) payload_enc m.h ≡ some p)
                  (ap (λ k. k.enc_key) (sym after)) reads,
            )
        | inr f ↦
            let bad : ◌≡◌ {A = Result NoiseError Bytes} (err panic) (ok p) =
              ap (λ r. r.0) (rw (f, take_payload) at e) in
            absurd cc
      ]

  take_static-parts :
      (secret server_eph rest : Bytes) (n n' : NoiseHandler) (p : Bytes)
      → take_static c secret server_eph rest n ≡ (ok p, n')
      → (h : Bytes) × (c.unseal n'.enc_key (zeros 12) (drop 48 rest) h ≡ some p)
  unfolding take_static
  take_static-parts secret server_eph rest n n' p e =
      let (u, m, mixed, e1) =
        and_then-parts (mix_key c n (c.exchange secret server_eph))
          (λ _ n'.
            if ltb (length rest) 48
            then (err missing_static_key, n')
            else and_then (decrypt_and_hash c n' (take 48 rest))
                (take_payload c secret (drop 48 rest)))
          p n' e in
      elim (Bool-cases (ltb (length rest) 48)) [
        | inl f ↦
            let bad : ◌≡◌ {A = Result NoiseError Bytes} (err missing_static_key) (ok p) =
              ap (λ r. r.0) (rw f at e1) in
            absurd cc
        | inr f ↦
            let (server_static, m', opened, e2) =
              and_then-parts (decrypt_and_hash c m (take 48 rest))
                (take_payload c secret (drop 48 rest)) p n' (rw f at e1) in
            take_payload-parts secret (drop 48 rest) server_static m' n' p e2
      ]

  process_server_hello-parts :
      (n n' : NoiseHandler) (hello p : Bytes)
      → process_server_hello c n hello ≡ (ok p, n')
      → (h : Bytes) × (c.unseal n'.enc_key (zeros 12) (drop 48 (drop 32 hello)) h ≡ some p)
  unfolding process_server_hello
  process_server_hello-parts n n' hello p e =
      let server_eph = take 32 hello in
      let noted = record (mix_hash c n server_eph) { server_ephemeral = some server_eph } in
      elim (Bool-cases (ltb (length hello) 32)) [
        | inl f ↦
            let bad : ◌≡◌ {A = Result NoiseError Bytes} (err hello_too_short) (ok p) =
              ap (λ r. r.0) (rw f at e) in
            absurd cc
        | inr f ↦ elim (Option-cases n.ephemeral_secret) [
          | inl g ↦
              let bad : ◌≡◌ {A = Result NoiseError Bytes} (err no_ephemeral_key) (ok p) =
                ap (λ r. r.0) (rw (f, g) at e) in
              absurd cc
          | inr (secret, g) ↦
              take_static-parts secret server_eph (drop 32 hello) noted n' p (sym (simp (f, g)) ∙ e)
        ]
      ]

  finish-parts :
      (static_enc : Bytes) (n n' : NoiseHandler) (payload answer : Bytes)
      → and_then (mix_static c n) (λ _ n2.
        and_then (encrypt_and_hash c n2 payload) (λ payload_enc n3.
          and_then
            (split_keys c n3)
            (λ _ n4. (ok (static_enc ++ payload_enc), record n4 { handshake_complete = true }))))
        ≡ (ok answer, n')
      → (rest : Bytes) × (answer ≡ static_enc ++ rest)
  finish-parts static_enc n n' payload answer e =
      let (u, n2, mixed, e2) =
        and_then-parts (mix_static c n)
          (λ _ n2. and_then (encrypt_and_hash c n2 payload) (λ payload_enc n3.
            and_then (split_keys c n3)
              (λ _ n4. (ok (static_enc ++ payload_enc), record n4 { handshake_complete = true }))))
          answer n' e in
      let (payload_enc, n3, sealed, e3) =
        and_then-parts (encrypt_and_hash c n2 payload)
          (λ payload_enc n3.
            and_then (split_keys c n3)
              (λ _ n4. (ok (static_enc ++ payload_enc), record n4 { handshake_complete = true })))
          answer n' e2 in
      let (u', n4, split, e4) =
        and_then-parts (split_keys c n3)
          (λ _ n4. (ok (static_enc ++ payload_enc), record n4 { handshake_complete = true })) answer
          n' e3 in
      let same : ◌≡◌ {A = Result NoiseError Bytes} (ok (static_enc ++ payload_enc)) (ok answer) =
        ap (λ r. r.0) e4 in
      (payload_enc, sym cc)

  -- A key and a nonce that open the payload of the server's hello and seal the client's static key, which
  -- is the first part of the client's answer.
  pub record SameNonce (hello p public answer : Bytes) : Type 0 where
    pub key : Bytes
    pub nonce : Bytes
    pub opened_with : Bytes
    pub opened : c.unseal key nonce (drop 48 (drop 32 hello)) opened_with ≡ some p
    pub sealed_with : Bytes
    pub static_enc : Bytes
    pub sealed : c.seal key nonce public sealed_with ≡ some static_enc
    pub rest : Bytes
    pub sent : answer ≡ static_enc ++ rest

  -- Where the server's hello is read and the client's answer is built from the handler that this leaves,
  -- one key and one nonce serve twice: to open the payload of the hello, and to seal the client's
  -- static key at the head of the answer.
  pub build_client_finish-SameNonce :
      (n n1 n2 : NoiseHandler) (hello p payload answer : Bytes)
      → process_server_hello c n hello ≡ (ok p, n1)
      → build_client_finish c n1 payload ≡ (ok answer, n2)
      → SameNonce hello p n1.static_public answer
  unfolding build_client_finish
  build_client_finish-SameNonce n n1 n2 hello p payload answer read built =
      let (h, opened) = process_server_hello-parts n n1 hello p read in
      let (static_enc, k1, sealed, e1) =
        and_then-parts (encrypt_and_hash c n1 n1.static_public)
          (λ static_enc n1. and_then (mix_static c n1) (λ _ n2.
            and_then (encrypt_and_hash c n2 payload) (λ payload_enc n3.
              and_then (split_keys c n3) (λ _ n4.
                (ok (static_enc ++ payload_enc), record n4 { handshake_complete = true })))))
          answer n2 built in
      let (sealing, after) = encrypt_and_hash-parts n1 k1 n1.static_public static_enc sealed in
      let (rest, sent) = finish-parts static_enc k1 n2 payload answer e1 in
      record {
        key = n1.enc_key;
        nonce = zeros 12;
        opened_with = h;
        opened = opened;
        sealed_with = n1.h;
        static_enc = static_enc;
        sealed = sealing;
        rest = rest;
        sent = sent;
      }
