-- ===== src/WaSignal.antt =====
-- ngenorca-whatsapp-web/src/signal.rs, its sessions, and the functions of crypto.rs that they call. The
-- cryptographic crates are a record of functions. The secret key that a step generates is an argument.
-- A method returns its result and the session it leaves, also when it fails. Counters are `u32` and wrap.
mod Laws
pub mod Chain
pub mod Turns
mod Tests
use ngen_orca.Base.{
  Bytes, ℕ, Result, Option, [], if◌then◌else◌, ok_or, ◌∷◌, codes, take, err, ◌>>=◌, suc, length,
  drop, ok, ◌++◌, same, zero, ◌==◌, add32,
}

-- `expand` is HKDF-SHA256 of a salt, the key material, an info text and a length, which refuses a
-- length; `exchange` is X25519 of a private and a public key.
pub record Crypto : Type 0 where
  pub hmac : Bytes → Bytes → Bytes
  pub expand : Bytes → Bytes → Bytes → ℕ → Option Bytes
  pub cbc_encrypt : Bytes → Bytes → Bytes → Bytes
  pub cbc_decrypt : Bytes → Bytes → Bytes → Option Bytes
  pub exchange : Bytes → Bytes → Bytes
  pub public_of : Bytes → Bytes

-- `panic` is the `expect` on a ratchet key that is not 32 bytes long.
pub data SignalError : Type 0 where
  hkdf_expand : SignalError
  aes_cbc_decrypt : SignalError
  key_length : ℕ → SignalError
  panic : SignalError

pub record SignalSession : Type 0 where
  pub remote_identity : Bytes
  pub ratchet_private : Bytes
  pub remote_ratchet_public : Bytes
  pub root_key : Bytes
  pub send_chain_key : Bytes
  pub recv_chain_key : Bytes
  pub send_counter : ℕ
  pub recv_counter : ℕ
  pub prev_send_counter : ℕ

pub record EncryptedMessage : Type 0 where
  pub ciphertext : Bytes
  pub counter : ℕ
  pub previous_counter : ℕ
  pub ratchet_key : Bytes
  pub mac : Bytes

abbrev pub repeat : ℕ → ℕ → Bytes
repeat zero b = []
repeat (suc n) b = b ∷ repeat n b

-- The salt of 32 zero bytes.
abbrev pub zeros : Bytes
zeros = repeat 32 0

-- `to_x25519_public` and `to_x25519_secret`.
unfoldable pub to_x25519 : Bytes → Result SignalError Bytes
to_x25519 key = if length key == 32 then ok key else err (key_length (length key))

module _ (c : Crypto) where
  unfoldable pub hkdf_sha256 : Bytes → Bytes → Bytes → ℕ → Result SignalError Bytes
  hkdf_sha256 salt ikm info n = ok_or (c.expand salt ikm info n) hkdf_expand

  unfoldable pub derive_message_key : Bytes → Bytes
  derive_message_key chain_key = c.hmac chain_key (1 ∷ [])

  unfoldable pub advance_chain_key : Bytes → Bytes
  advance_chain_key chain_key = c.hmac chain_key (2 ∷ [])

  -- The 80 bytes that a message key is expanded to: encryption key, authentication key and IV.
  unfoldable pub message_keys : Bytes → Result SignalError Bytes
  message_keys msg_key = hkdf_sha256 zeros msg_key (codes "WhisperMessageKeys") 80

  abbrev pub enc_key : Bytes → Bytes
  enc_key keys = take 32 keys

  abbrev pub auth_key : Bytes → Bytes
  auth_key keys = take 32 (drop 32 keys)

  abbrev pub iv : Bytes → Bytes
  iv keys = take 16 (drop 64 keys)

  unfoldable pub ratchet_public_bytes : SignalSession → Result SignalError Bytes
  ratchet_public_bytes s = elim (to_x25519 s.ratchet_private) [
    | err e ↦ err panic
    | ok secret ↦ ok (c.public_of secret)
  ]

  -- The message for a plaintext under the keys, with the counter and ratchet key of the session.
  unfoldable pub seal : SignalSession → Bytes → Bytes → Bytes → EncryptedMessage
  seal s keys public plaintext =
      let body = c.cbc_encrypt (enc_key keys) (iv keys) plaintext in
      record {
        ciphertext = body;
        counter = s.send_counter;
        previous_counter = s.prev_send_counter;
        ratchet_key = public;
        mac = take 8 (c.hmac (auth_key keys) (s.remote_ratchet_public ++ body));
      }

  unfoldable pub encrypt :
      SignalSession → Bytes → Result SignalError EncryptedMessage × SignalSession
  encrypt s plaintext =
      let advanced = record s { send_chain_key = advance_chain_key s.send_chain_key } in
      elim (message_keys (derive_message_key s.send_chain_key)) [
        | err e ↦ (err e, advanced)
        | ok keys ↦
            let counted = record advanced { send_counter = add32 s.send_counter 1 } in
            elim (ratchet_public_bytes s) [
              | err e ↦ (err e, counted)
              | ok public ↦ (ok (seal s keys public plaintext), counted)
            ]
      ]

  -- What a root key and an exchanged secret derive: the next root key and a chain key.
  unfoldable pub ratchet_keys : Bytes → Bytes → Result SignalError Bytes
  ratchet_keys root secret = hkdf_sha256 root secret (codes "WhisperRatchet") 64

  -- The sending half of the step, with the new secret key.
  unfoldable pub send_step :
      SignalSession → Bytes → Bytes → Result {0, 0} SignalError Unit × SignalSession
  send_step s remote fresh = elim (ratchet_keys s.root_key (c.exchange fresh remote)) [
    | err e ↦ (err e, s)
    | ok derived ↦ (
      ok tt,
      record s {
        root_key = take 32 derived;
        send_chain_key = take 32 (drop 32 derived);
        ratchet_private = fresh;
      },
    )
  ]

  unfoldable pub dh_ratchet_step :
      SignalSession → Bytes → Bytes → Result {0, 0} SignalError Unit × SignalSession
  dh_ratchet_step s remote fresh =
      let noted = record s {
        prev_send_counter = s.send_counter;
        send_counter = 0;
        recv_counter = 0;
        remote_ratchet_public = remote;
      } in
      elim (to_x25519 remote >>= λ public. to_x25519 s.ratchet_private >>= λ secret.
      ratchet_keys s.root_key (c.exchange secret public)) [
        | err e ↦ (err e, noted)
        | ok derived ↦
            send_step
              (record noted {
                root_key = take 32 derived;
                recv_chain_key = take 32 (drop 32 derived);
              })
              remote fresh
      ]

  -- The rest of `decrypt`, after the ratchet step if there was one.
  unfoldable pub unseal :
      SignalSession → EncryptedMessage → Result SignalError Bytes × SignalSession
  unseal s msg =
      let advanced = record s { recv_chain_key = advance_chain_key s.recv_chain_key } in
      elim (message_keys (derive_message_key s.recv_chain_key) >>= λ keys.
      ok_or (c.cbc_decrypt (enc_key keys) (iv keys) msg.ciphertext) aes_cbc_decrypt) [
        | err e ↦ (err e, advanced)
        | ok plaintext ↦ (ok plaintext, record advanced { recv_counter = add32 s.recv_counter 1 })
      ]

  unfoldable pub decrypt :
      SignalSession → EncryptedMessage → Bytes → Result SignalError Bytes × SignalSession
  decrypt s msg fresh =
      if same msg.ratchet_key s.remote_ratchet_public
      then unseal s msg
      else (let (stepped, s') = dh_ratchet_step s msg.ratchet_key fresh in
          elim stepped [ err e ↦ (err e, s') | ok _ ↦ unseal s' msg ])
