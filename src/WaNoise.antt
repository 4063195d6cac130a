-- ===== src/WaNoise.antt =====
-- ngenorca-whatsapp-web/src/noise.rs, and the functions of crypto.rs that it calls. The cryptographic
-- crates are a record of functions; the ephemeral key is an argument of the step that generates it. A
-- method returns its result and the handler it leaves, also when it fails. Counters are `u32` and wrap.
pub mod Transport
pub mod Handshake
mod Tests
use ngen_orca.Base.{
  Bytes, Run, ℕ, [], none, Option, suc, codes, ◌++◌, false, err, some, if◌then◌else◌, and_then,
  take, ok, Bool, ◌∷◌, ◌/◌, drop, length, ltb, true, ok_or, zero, ◌^◌, ◌==◌, add32, ◌%◌,
}

-- `hash` is SHA-256, `expand` HKDF-SHA256 of a salt, key material and a length (its info is empty), `seal`
-- and `unseal` are AES-256-GCM of a key, a nonce, a text and associated data.
pub record Crypto : Type 0 where
  pub hash : Bytes → Bytes
  pub expand : Bytes → Bytes → ℕ → Option Bytes
  pub seal : Bytes → Bytes → Bytes → Bytes → Option Bytes
  pub unseal : Bytes → Bytes → Bytes → Bytes → Option Bytes
  pub exchange : Bytes → Bytes → Bytes
  pub public_of : Bytes → Bytes

-- `panic` is the `expect` on a key derivation, or a copy of the wrong length.
pub data NoiseError : Type 0 where
  hello_too_short : NoiseError
  no_ephemeral_key : NoiseError
  missing_static_key : NoiseError
  not_complete : NoiseError
  gcm_encrypt : NoiseError
  gcm_decrypt : NoiseError
  panic : NoiseError

pub record NoiseHandler : Type 0 where
  pub h : Bytes
  pub ck : Bytes
  pub enc_key : Bytes
  pub static_secret : Bytes
  pub static_public : Bytes
  pub ephemeral_secret : Option Bytes
  pub ephemeral_public : Option Bytes
  pub server_ephemeral : Option Bytes
  pub send_key : Option Bytes
  pub recv_key : Option Bytes
  pub send_counter : ℕ
  pub recv_counter : ℕ
  pub handshake_complete : Bool

abbrev pub Step {ℓ} : Type ℓ → Type ℓ
Step A = Run NoiseHandler NoiseError A

abbrev pub zeros : ℕ → Bytes
zeros zero = []
zeros (suc n) = 0 ∷ zeros n

-- `PROTOCOL_NAME`.
abbrev protocol_name : Bytes
protocol_name = codes "Noise_XX_25519_AESGCM_SHA256" ++ zeros 4

unfoldable pub prologue : Bytes
prologue = codes "WA" ++ 6 ∷ 3 ∷ []

-- The last four of the twelve bytes are the counter, big-endian.
unfoldable pub counter_to_nonce : ℕ → Bytes
counter_to_nonce n =
    zeros 8 ++ n / 2 ^ 24 % 2 ^ 8 ∷ n / 2 ^ 16 % 2 ^ 8 ∷ n / 2 ^ 8 % 2 ^ 8 ∷ n % 2 ^ 8 ∷ []

module _ (c : Crypto) where
  unfoldable pub with_static_key : Bytes → Bytes → NoiseHandler
  with_static_key secret public = record {
    h = c.hash protocol_name;
    ck = c.hash protocol_name;
    enc_key = zeros 32;
    static_secret = secret;
    static_public = public;
    ephemeral_secret = none;
    ephemeral_public = none;
    server_ephemeral = none;
    send_key = none;
    recv_key = none;
    send_counter = 0;
    recv_counter = 0;
    handshake_complete = false;
  }

  unfoldable pub mix_hash : NoiseHandler → Bytes → NoiseHandler
  mix_hash n input = record n { h = c.hash (n.h ++ input) }

  unfoldable pub mix_key : NoiseHandler → Bytes → Step (Unit {0})
  mix_key n dh_output = elim (c.expand n.ck dh_output 64) [
    | none ↦ (err panic, n)
    | some derived ↦ (ok tt, record n { ck = take 32 derived; enc_key = take 32 (drop 32 derived) })
  ]

  unfoldable pub encrypt_and_hash : NoiseHandler → Bytes → Step Bytes
  encrypt_and_hash n plaintext = elim (c.seal n.enc_key (zeros 12) plaintext n.h) [
    | none ↦ (err gcm_encrypt, n)
    | some ct ↦ (ok ct, mix_hash n ct)
  ]

  unfoldable pub decrypt_and_hash : NoiseHandler → Bytes → Step Bytes
  decrypt_and_hash n ciphertext = elim (c.unseal n.enc_key (zeros 12) ciphertext n.h) [
    | none ↦ (err gcm_decrypt, n)
    | some pt ↦ (ok pt, mix_hash n ciphertext)
  ]

  unfoldable pub split_keys : NoiseHandler → Step (Unit {0})
  split_keys n = elim (c.expand n.ck [] 64) [
    | none ↦ (err panic, n)
    | some derived ↦ (
      ok tt,
      record n {
        send_key = some (take 32 derived);
        recv_key = some (take 32 (drop 32 derived));
        send_counter = 0;
        recv_counter = 0;
      },
    )
  ]

  unfoldable pub init_handshake : NoiseHandler → Bytes → Bytes × NoiseHandler
  init_handshake n fresh =
      let n' = mix_hash n prologue in
      let public = c.public_of fresh in
      (
        public,
        mix_hash (record n' { ephemeral_secret = some fresh; ephemeral_public = some public })
            public,
      )

  -- The static key of the server, which is copied into 32 bytes, and what follows.
  unfoldable pub take_payload : Bytes → Bytes → Bytes → NoiseHandler → Step Bytes
  take_payload secret payload_enc server_static n =
      if length server_static == 32
      then and_then (mix_key n (c.exchange secret server_static))
          (λ _ n'. decrypt_and_hash n' payload_enc)
      else (err panic, n)

  -- From the exchange with the server's ephemeral key on.
  unfoldable pub take_static : Bytes → Bytes → Bytes → NoiseHandler → Step Bytes
  take_static secret server_eph rest n =
      and_then (mix_key n (c.exchange secret server_eph)) (λ _ n'.
        if ltb (length rest) 48
        then (err missing_static_key, n')
        else and_then (decrypt_and_hash n' (take 48 rest)) (take_payload secret (drop 48 rest)))

  unfoldable pub process_server_hello : NoiseHandler → Bytes → Step Bytes
  process_server_hello n server_hello =
      let server_eph = take 32 server_hello in
      let noted = record (mix_hash n server_eph) { server_ephemeral = some server_eph } in
      if ltb (length server_hello) 32 then (err hello_too_short, n) else elim n.ephemeral_secret [
        | none ↦ (err no_ephemeral_key, noted)
        | some secret ↦ take_static secret server_eph (drop 32 server_hello) noted
      ]

  -- The third exchange, if the server's ephemeral key is known.
  unfoldable pub mix_static : NoiseHandler → Step (Unit {0})
  mix_static n = elim n.server_ephemeral [
    | none ↦ (ok tt, n)
    | some server_eph ↦ mix_key n (c.exchange n.static_secret server_eph)
  ]

  unfoldable pub build_client_finish : NoiseHandler → Bytes → Step Bytes
  build_client_finish n payload = and_then (encrypt_and_hash n n.static_public) (λ static_enc n1.
      and_then (mix_static n1) (λ _ n2. and_then (encrypt_and_hash n2 payload) (λ payload_enc n3.
        and_then (split_keys n3)
          (λ _ n4. (ok (static_enc ++ payload_enc), record n4 { handshake_complete = true })))))

  unfoldable pub encrypt : NoiseHandler → Bytes → Step Bytes
  encrypt n plaintext = elim n.send_key [
    | none ↦ (err not_complete, n)
    | some key ↦ (
      ok_or (c.seal key (counter_to_nonce n.send_counter) plaintext []) gcm_encrypt,
      record n { send_counter = add32 n.send_counter 1 },
    )
  ]

  unfoldable pub decrypt : NoiseHandler → Bytes → Step Bytes
  decrypt n ciphertext = elim n.recv_key [
    | none ↦ (err not_complete, n)
    | some key ↦ (
      ok_or (c.unseal key (counter_to_nonce n.recv_counter) ciphertext []) gcm_decrypt,
      record n { recv_counter = add32 n.recv_counter 1 },
    )
  ]
