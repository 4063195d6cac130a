-- ===== src/WaSignal/Chain.antt =====
-- Messages that one side of a session sends in a row.
use ngen_orca.WaSignal.Laws.{Documented, hkdf_sha256-ok, encrypt-ok, unseal-seal}
use ngen_orca.WaSignal.{
  Crypto, SignalSession, decrypt, EncryptedMessage, unseal, SignalError, encrypt, zeros,
  derive_message_key, seal, message_keys, advance_chain_key,
}
use ngen_orca.Base.{
  List, ◌≡◌, Bytes, length, Result, ok, same, ◌∷◌, ◌>>=◌, true, [], subst, same_refl, codes, arith,
  sym, ◌∙◌, add32, ap, refl,
}

module _ (c : Crypto) where
  -- The receiver's chain is the sender's, and the receiver knows the sender's ratchet key.
  pub record InStep (s r : SignalSession) : Type 0 where
    pub chain : r.recv_chain_key ≡ s.send_chain_key
    pub key : r.remote_ratchet_public ≡ c.public_of s.ratchet_private
    pub size : length s.ratchet_private ≡ 32

  unfoldable pub encrypt_all :
      SignalSession → List Bytes → Result SignalError (List EncryptedMessage)
  encrypt_all s [] = ok []
  encrypt_all s (p ∷ ps) =
      let (sealed, s') = encrypt c s p in
      let rest = encrypt_all s' ps in sealed >>= λ msg. rest >>= λ msgs. ok (msg ∷ msgs)

  unfoldable pub decrypt_all :
      SignalSession → Bytes → List EncryptedMessage → Result SignalError (List Bytes)
  decrypt_all r fresh [] = ok []
  decrypt_all r fresh (msg ∷ msgs) =
      let (opened, r') = decrypt c r msg fresh in
      let rest = decrypt_all r' fresh msgs in opened >>= λ p. rest >>= λ ps. ok (p ∷ ps)

  decrypt-InStep :
      (r : SignalSession) (msg : EncryptedMessage) (fresh : Bytes)
      → msg.ratchet_key ≡ r.remote_ratchet_public
      → decrypt c r msg fresh ≡ unseal c r msg
  unfolding decrypt
  decrypt-InStep r msg fresh e =
      let hit : same msg.ratchet_key r.remote_ratchet_public ≡ true =
        subst (λ k. same msg.ratchet_key k ≡ true) e (same_refl msg.ratchet_key) in
      rw (hit, decrypt) refl

  -- Where the receiver's chain is the sender's and the crates do what they document, any messages that
  -- the sender encrypts are decrypted, in the order sent, to what was encrypted.
  pub decrypt_all-encrypt_all :
      (documented : Documented c) (ps : List Bytes) (s r : SignalSession) (fresh : Bytes)
      → InStep s r
      → (msgs : List EncryptedMessage) × (encrypt_all s ps ≡ ok msgs)
        × (decrypt_all r fresh msgs ≡ ok ps)
  unfolding encrypt_all decrypt_all message_keys seal
  decrypt_all-encrypt_all documented [] s r fresh step = ([], refl, refl)
  decrypt_all-encrypt_all documented (p ∷ ps) s r fresh step =
      let (keys, made) =
        hkdf_sha256-ok c documented zeros (derive_message_key c s.send_chain_key)
          (codes "WhisperMessageKeys") 80 (omega arith) in
      let msg : EncryptedMessage = seal c s keys (c.public_of s.ratchet_private) p in
      let sealed = encrypt-ok c documented s keys p step.size made in
      let same_keys : message_keys c (derive_message_key c r.recv_chain_key) ≡ ok keys =
        subst (λ k. message_keys c (derive_message_key c k) ≡ ok keys) (sym step.chain) made in
      let opened =
        decrypt-InStep r msg fresh (sym step.key)
        ∙ unseal-seal c documented s r keys (c.public_of s.ratchet_private) p same_keys in
      let s' : SignalSession = record s {
        send_chain_key = advance_chain_key c s.send_chain_key;
        send_counter = add32 s.send_counter 1;
      } in
      let r' : SignalSession = record r {
        recv_chain_key = advance_chain_key c r.recv_chain_key;
        recv_counter = add32 r.recv_counter 1;
      } in
      let (msgs, sent, read) = decrypt_all-encrypt_all documented ps s' r' fresh (record {
        chain = ap (advance_chain_key c) step.chain;
        key = step.key;
        size = step.size;
      }) in
      (msg ∷ msgs, rw (sealed, sent) refl, rw (opened, read) refl)
