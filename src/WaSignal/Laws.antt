-- ===== src/WaSignal/Laws.antt =====
-- What the cryptographic crates document, and the steps of a session that then succeed.
use ngen_orca.WaSignal.{
  Crypto, to_x25519, hkdf_sha256, encrypt, unseal, ratchet_public_bytes, seal, SignalSession,
  message_keys, derive_message_key, advance_chain_key,
}
use ngen_orca.Base.{
  Bytes, ℕ, length, ◌≤◌, ◌≡◌, some, ok, ◌==◌, refl, true, arith, add32, take, drop,
}

pub record Documented (c : Crypto) : Type 0 where
  pub expands :
      (salt ikm info : Bytes) (n : ℕ)
      → n ≤ 8160
      → (okm : Bytes) × (c.expand salt ikm info n ≡ some okm) × (length okm ≡ n)
  pub decrypts :
      (key iv text : Bytes) → c.cbc_decrypt key iv (c.cbc_encrypt key iv text) ≡ some text
  pub agrees : (a b : Bytes) → c.exchange a (c.public_of b) ≡ c.exchange b (c.public_of a)
  pub public_length : (a : Bytes) → length (c.public_of a) ≡ 32

pub to_x25519-ok : (key : Bytes) → length key ≡ 32 → to_x25519 key ≡ ok key
unfolding to_x25519
to_x25519-ok key e = let fits : (length key == 32) ≡ true = ground arith in rw fits refl

module _ (c : Crypto) (documented : Documented c) where
  pub hkdf_sha256-ok :
      (salt ikm info : Bytes) (n : ℕ)
      → n ≤ 8160
      → (okm : Bytes) × (hkdf_sha256 c salt ikm info n ≡ ok okm)
  unfolding hkdf_sha256
  hkdf_sha256-ok salt ikm info n le =
      let (okm, e, _) = documented.expands salt ikm info n le in (okm, rw e refl)

  -- A message is sealed whenever the session's key is a key.
  pub encrypt-ok :
      (s : SignalSession) (keys plaintext : Bytes)
      → length s.ratchet_private ≡ 32
      → message_keys c (derive_message_key c s.send_chain_key) ≡ ok keys
      → encrypt c s plaintext ≡ (
        ok (seal c s keys (c.public_of s.ratchet_private) plaintext),
        record s {
          send_chain_key = advance_chain_key c s.send_chain_key;
          send_counter = add32 s.send_counter 1;
        },
      )
  unfolding encrypt ratchet_public_bytes
  encrypt-ok s keys plaintext size e =
      rw (e, to_x25519-ok s.ratchet_private size, encrypt, ratchet_public_bytes) refl

  pub unseal-seal :
      (s r : SignalSession) (keys public plaintext : Bytes)
      → message_keys c (derive_message_key c r.recv_chain_key) ≡ ok keys
      → unseal c r (seal c s keys public plaintext) ≡ (
        ok plaintext,
        record r {
          recv_chain_key = advance_chain_key c r.recv_chain_key;
          recv_counter = add32 r.recv_counter 1;
        },
      )
  unfolding unseal seal
  unseal-seal s r keys public plaintext e =
      let back = documented.decrypts (take 32 keys) (take 16 (drop 64 keys)) plaintext in
      rw (e, back, unseal, seal) refl
