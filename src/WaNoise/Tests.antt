-- ===== src/WaNoise/Tests.antt =====
-- The handler on a toy cryptography, whose sealed texts have sixteen bytes in front.
use ngen_orca.Base.{
  refl, take, ap, ◌∷◌, Bytes, Result, some, List, ◌≡◌, ◌++◌, none, [], ok, drop, sym, ℕ, arith,
}
use ngen_orca.WaNoise.{
  Crypto, NoiseHandler, counter_to_nonce, init_handshake, with_static_key, zeros, NoiseError,
  process_server_hello, build_client_finish,
}
use ngen_orca.WaNoise.Transport.{
  Opens, InStep, seal_all, open_all, open_all-seal_all, counter_to_nonce_inj,
}
use ngen_orca.WaNoise.Handshake.{SameNonce, build_client_finish-SameNonce}

abbrev toy : Crypto
toy = record {
  hash = λ text. take 32 (text ++ zeros 32);
  expand = λ salt ikm n. some (zeros n);
  seal = λ key nonce text aad. some (zeros 16 ++ text);
  unseal = λ key nonce text aad. some (drop 16 text);
  exchange = λ a b. a;
  public_of = λ a. 9 ∷ a;
}

toy-Opens : Opens toy
toy-Opens key nonce text aad ct e =
    ap (λ o. elim o [ none ↦ none | some s ↦ some (drop 16 s) ]) (sym e)

abbrev fresh : NoiseHandler
fresh = with_static_key toy (1 ∷ []) (2 ∷ [])

abbrev started : NoiseHandler
started = (init_handshake toy fresh (3 ∷ [])).1

-- The ephemeral key, the static key and a payload of two bytes.
abbrev hello : Bytes
hello = zeros 80 ++ zeros 16 ++ 7 ∷ 8 ∷ []

abbrev greeted : Result NoiseError Bytes × NoiseHandler
greeted = process_server_hello toy started hello

abbrev finished : Result NoiseError Bytes × NoiseHandler
finished = build_client_finish toy greeted.1 (5 ∷ [])

abbrev sender : NoiseHandler
sender = record fresh { send_key = some (1 ∷ []) }

abbrev receiver : NoiseHandler
receiver = record fresh { recv_key = some (1 ∷ []) }

abbrev texts : List Bytes
texts = (1 ∷ 2 ∷ []) ∷ (3 ∷ []) ∷ []

build_client_finish-SameNonce_example :
    SameNonce toy hello (7 ∷ 8 ∷ []) greeted.1.static_public (zeros 16 ++ 2 ∷ zeros 16 ++ 5 ∷ [])
unfolding ngen_orca.WaNoise.prologue ngen_orca.WaNoise.counter_to_nonce
    ngen_orca.WaNoise.with_static_key ngen_orca.WaNoise.mix_hash ngen_orca.WaNoise.mix_key
    ngen_orca.WaNoise.encrypt_and_hash ngen_orca.WaNoise.decrypt_and_hash
    ngen_orca.WaNoise.split_keys ngen_orca.WaNoise.init_handshake ngen_orca.WaNoise.take_payload
    ngen_orca.WaNoise.take_static ngen_orca.WaNoise.process_server_hello
    ngen_orca.WaNoise.mix_static ngen_orca.WaNoise.build_client_finish ngen_orca.WaNoise.encrypt
    ngen_orca.WaNoise.decrypt ngen_orca.WaNoise.Transport.seal_all
    ngen_orca.WaNoise.Transport.open_all
build_client_finish-SameNonce_example =
    build_client_finish-SameNonce toy started greeted.1 finished.1 hello (7 ∷ 8 ∷ []) (5 ∷ [])
      (zeros 16 ++ 2 ∷ zeros 16 ++ 5 ∷ []) refl refl

open_all-seal_all_example :
    (m' : NoiseHandler) × (open_all toy receiver
        ((zeros 16 ++ 1 ∷ 2 ∷ []) ∷ (zeros 16 ++ 3 ∷ []) ∷ [])
      ≡ (ok texts, m'))
    × InStep toy (seal_all toy sender texts).1 m'
unfolding ngen_orca.WaNoise.prologue ngen_orca.WaNoise.counter_to_nonce
    ngen_orca.WaNoise.with_static_key ngen_orca.WaNoise.mix_hash ngen_orca.WaNoise.mix_key
    ngen_orca.WaNoise.encrypt_and_hash ngen_orca.WaNoise.decrypt_and_hash
    ngen_orca.WaNoise.split_keys ngen_orca.WaNoise.init_handshake ngen_orca.WaNoise.take_payload
    ngen_orca.WaNoise.take_static ngen_orca.WaNoise.process_server_hello
    ngen_orca.WaNoise.mix_static ngen_orca.WaNoise.build_client_finish ngen_orca.WaNoise.encrypt
    ngen_orca.WaNoise.decrypt ngen_orca.WaNoise.Transport.seal_all
    ngen_orca.WaNoise.Transport.open_all
open_all-seal_all_example =
    open_all-seal_all toy toy-Opens texts ((zeros 16 ++ 1 ∷ 2 ∷ []) ∷ (zeros 16 ++ 3 ∷ []) ∷ [])
      sender (seal_all toy sender texts).1 receiver (record { key = refl; counter = refl }) refl

finished_result : finished.0 ≡ ok (zeros 16 ++ 2 ∷ zeros 16 ++ 5 ∷ [])
unfolding ngen_orca.WaNoise.prologue ngen_orca.WaNoise.counter_to_nonce
    ngen_orca.WaNoise.with_static_key ngen_orca.WaNoise.mix_hash ngen_orca.WaNoise.mix_key
    ngen_orca.WaNoise.encrypt_and_hash ngen_orca.WaNoise.decrypt_and_hash
    ngen_orca.WaNoise.split_keys ngen_orca.WaNoise.init_handshake ngen_orca.WaNoise.take_payload
    ngen_orca.WaNoise.take_static ngen_orca.WaNoise.process_server_hello
    ngen_orca.WaNoise.mix_static ngen_orca.WaNoise.build_client_finish ngen_orca.WaNoise.encrypt
    ngen_orca.WaNoise.decrypt ngen_orca.WaNoise.Transport.seal_all
    ngen_orca.WaNoise.Transport.open_all
finished_result = refl

counter_to_nonce_inj_example : ◌≡◌ {A = ℕ} 258 258
counter_to_nonce_inj_example = counter_to_nonce_inj 258 258 (omega arith) (omega arith) refl
