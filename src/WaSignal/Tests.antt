-- ===== src/WaSignal/Tests.antt =====
-- The ratchets on a toy cryptography, which keeps just enough to agree on keys.
use ngen_orca.WaSignal.Laws.{Documented}
use ngen_orca.WaSignal.Chain.{InStep, encrypt_all, decrypt_all, decrypt_all-encrypt_all}
use ngen_orca.WaSignal.Turns.{Paired, dh_ratchet_step-Paired}
use ngen_orca.Base.{
  Bytes, ℕ, List, ◌∷◌, length, ◌*◌, ◌+◌, [], refl, codes, ◌≡◌, some, ap, suc, drop, arith, ok, zero,
}
use ngen_orca.WaSignal.{
  Crypto, repeat, SignalSession, ratchet_keys, EncryptedMessage, hkdf_sha256, dh_ratchet_step,
}

abbrev head_or : Bytes → ℕ
head_or [] = 0
head_or (b ∷ s) = b

length-repeat : (n b : ℕ) → length (repeat n b) ≡ n
length-repeat zero b = refl
length-repeat (suc n) b = ap suc (length-repeat n b)

abbrev toy : Crypto
toy = record {
  hmac = λ key text. (head_or key * 7 + head_or text) ∷ [];
  expand = λ salt ikm info n. some (repeat n (head_or salt + head_or ikm));
  cbc_encrypt = λ key iv text. head_or key ∷ text;
  cbc_decrypt = λ key iv body. some (drop 1 body);
  exchange = λ a b. (head_or a + head_or b) ∷ [];
  public_of = λ a. repeat 32 (head_or a);
}

toy-Documented : Documented toy
toy-Documented = record {
  expands = λ salt ikm info n le. (repeat n (head_or salt + head_or ikm), refl, length-repeat n _);
  decrypts = λ key iv text. refl;
  agrees = λ a b. ap (λ n. n ∷ []) (omega arith);
  public_length = λ a. refl;
}

-- Bob has made a step with the key 5 after alice's key 3.
abbrev alice : SignalSession
alice = record {
  remote_identity = [];
  ratchet_private = repeat 32 3;
  remote_ratchet_public = [];
  root_key = repeat 32 10;
  send_chain_key = repeat 32 1;
  recv_chain_key = repeat 32 2;
  send_counter = 4;
  recv_counter = 2;
  prev_send_counter = 0;
}

abbrev bob : SignalSession
bob = record alice {
  ratchet_private = repeat 32 5;
  remote_ratchet_public = repeat 32 3;
  root_key = repeat 32 18;
  send_chain_key = repeat 32 18;
}

turn : Paired toy alice bob
unfolding ratchet_keys hkdf_sha256
turn = record {
  derived = repeat 64 18;
  made = refl;
  root = refl;
  chain = refl;
  size_a = refl;
  size_b = refl;
}

dh_ratchet_step-Paired_example :
    (a' : SignalSession) × (dh_ratchet_step toy alice
        (toy.public_of bob.ratchet_private)
        (repeat 32 9)
      ≡ (ok tt, a'))
    × InStep toy bob a'
    × Paired toy bob a'
dh_ratchet_step-Paired_example =
    dh_ratchet_step-Paired toy toy-Documented alice bob (repeat 32 9) turn refl

-- Carol follows bob's chain.
abbrev carol : SignalSession
carol = record alice { remote_ratchet_public = repeat 32 5; recv_chain_key = repeat 32 18 }

in_step : InStep toy bob carol
in_step = record { chain = refl; key = refl; size = refl }

abbrev letters : List Bytes
letters = codes "hello" ∷ codes "bye" ∷ []

decrypt_all-encrypt_all_example :
    (msgs : List EncryptedMessage) × (encrypt_all toy bob letters ≡ ok msgs)
    × (decrypt_all toy carol (repeat 32 9) msgs ≡ ok letters)
decrypt_all-encrypt_all_example =
    decrypt_all-encrypt_all toy toy-Documented letters bob carol (repeat 32 9) in_step
