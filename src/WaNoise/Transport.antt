-- ===== src/WaNoise/Transport.antt =====
-- The transport of noise.rs: nonces, and messages in order.
use ngen_orca.WaNoise.{
  Crypto, encrypt, decrypt, counter_to_nonce, NoiseHandler, Step, NoiseError, not_complete,
  gcm_encrypt, gcm_decrypt,
}
use ngen_orca.Base.{
  ℕ, List, ◌<◌, Bytes, ◌^◌, ◌≡◌, ok, ◌∷◌, and_then, [], get_or, some, Result, get_elem?, add32, ◌/◌,
  Option-cases, ap, ◌%◌, inl, subst, arith, err, and_then-parts, ◌∙◌, inr, sym, refl, ok_or,
}

-- Two counters below 2 ^ 32 that differ give nonces that differ.
pub counter_to_nonce_inj :
    (m n : ℕ) → m < 2 ^ 32 → n < 2 ^ 32 → counter_to_nonce m ≡ counter_to_nonce n → m ≡ n
unfolding counter_to_nonce
counter_to_nonce_inj m n hm hn e =
    let at : ℕ → Bytes → ℕ = λ i s. get_or (get_elem? s i) 0 in
    let e8 : m / 2 ^ 24 % 2 ^ 8 ≡ n / 2 ^ 24 % 2 ^ 8 = ap (at 8) e in
    let e9 : m / 2 ^ 16 % 2 ^ 8 ≡ n / 2 ^ 16 % 2 ^ 8 = ap (at 9) e in
    let e10 : m / 2 ^ 8 % 2 ^ 8 ≡ n / 2 ^ 8 % 2 ^ 8 = ap (at 10) e in
    let e11 : m % 2 ^ 8 ≡ n % 2 ^ 8 = ap (at 11) e in omega arith

module _ (c : Crypto) where
  unfoldable pub seal_all : NoiseHandler → List Bytes → Step (List Bytes)
  seal_all n [] = (ok [], n)
  seal_all n (p ∷ ps) =
      and_then (encrypt c n p)
        (λ ct n'. and_then (seal_all n' ps) (λ cts n''. (ok (ct ∷ cts), n'')))

  unfoldable pub open_all : NoiseHandler → List Bytes → Step (List Bytes)
  open_all n [] = (ok [], n)
  open_all n (ct ∷ cts) =
      and_then (decrypt c n ct) (λ p n'. and_then (open_all n' cts) (λ ps n''. (ok (p ∷ ps), n'')))

  -- What AES-GCM documents: it opens what it sealed.
  abbrev pub Opens : Type 0
  Opens =
      (key nonce text aad ct : Bytes)
      → c.seal key nonce text aad ≡ some ct
      → c.unseal key nonce ct aad ≡ some text

  -- The receiver has the key and the counter of the sender.
  pub record InStep (n m : NoiseHandler) : Type 0 where
    pub key : m.recv_key ≡ n.send_key
    pub counter : m.recv_counter ≡ n.send_counter

  encrypt-parts :
      (n n' : NoiseHandler) (p ct : Bytes)
      → encrypt c n p ≡ (ok ct, n')
      → (key : Bytes) × (n.send_key ≡ some key)
        × (c.seal key (counter_to_nonce n.send_counter) p [] ≡ some ct)
        × (n' ≡ record n { send_counter = add32 n.send_counter 1 })
  unfolding encrypt
  encrypt-parts n n' p ct e = elim (Option-cases n.send_key) [
    | inl f ↦
        let bad : ◌≡◌ {A = Result NoiseError Bytes} (err not_complete) (ok ct) =
          ap (λ r. r.0) (rw (f, encrypt) at e) in
        absurd cc
    | inr (key, f) ↦
        let e' = rw (f, encrypt) at e in
        elim (Option-cases (c.seal key (counter_to_nonce n.send_counter) p [])) [
          | inl g ↦
              let bad : ◌≡◌ {A = Result NoiseError Bytes} (err gcm_encrypt) (ok ct) =
                ap (λ r. r.0) (rw g at e') in
              absurd cc
          | inr (x, g) ↦
              let same_ct : ◌≡◌ {A = Result NoiseError Bytes} (ok x) (ok ct) =
                ap (λ r. r.0) (rw g at e') in
              (key, f, g ∙ cc, sym (ap (λ r. r.1) e'))
        ]
  ]

  decrypt-ok :
      (m : NoiseHandler) (key p ct : Bytes)
      → m.recv_key ≡ some key
      → c.unseal key (counter_to_nonce m.recv_counter) ct [] ≡ some p
      → decrypt c m ct ≡ (ok p, record m { recv_counter = add32 m.recv_counter 1 })
  unfolding decrypt
  decrypt-ok m key p ct e f =
      let after : NoiseHandler = record m { recv_counter = add32 m.recv_counter 1 } in
      let opened : Result NoiseError Bytes =
        ok_or (c.unseal key (counter_to_nonce m.recv_counter) ct []) gcm_decrypt in
      let read : decrypt c m ct ≡ (opened, after) = rw e refl in
      read ∙ ap (λ r. (ok_or r gcm_decrypt, after)) f

  -- Where the receiver has the sender's key and counter and AES-GCM opens what it sealed, the receiver
  -- reads the messages that the sender sealed, in the order sent, and is again at the sender's counter.
  pub open_all-seal_all :
      (opens : Opens) (ps cts : List Bytes) (n n' m : NoiseHandler)
      → InStep n m
      → seal_all n ps ≡ (ok cts, n')
      → (m' : NoiseHandler) × (open_all m cts ≡ (ok ps, m')) × InStep n' m'
  unfolding seal_all open_all
  open_all-seal_all opens [] cts n n' m step e =
      let none_sent : ◌≡◌ {A = Result NoiseError (List Bytes)} (ok []) (ok cts) = ap (λ r. r.0) e in
      let same_n : n ≡ n' = ap (λ r. r.1) e in
      let same_cts : cts ≡ [] = cc in (m, rw same_cts refl, subst (λ k. InStep k m) same_n step)
  open_all-seal_all opens (p ∷ ps) cts n n' m step e =
      let (ct, n1, sealed, e1) =
        and_then-parts (encrypt c n p)
          (λ ct n'. and_then (seal_all n' ps) (λ cts n''. (ok (ct ∷ cts), n''))) cts n' e in
      let (rest, n2, sent, e2) =
        and_then-parts (seal_all n1 ps) (λ cts n''. (ok (ct ∷ cts), n'')) cts n' e1 in
      let (key, has_key, sealing, n1_eq) = encrypt-parts n n1 p ct sealed in
      let m1 : NoiseHandler = record m { recv_counter = add32 m.recv_counter 1 } in
      let opened : decrypt c m ct ≡ (ok p, m1) = decrypt-ok m key p ct (step.key ∙ has_key) (
        opens key (counter_to_nonce m.recv_counter) p [] ct (
          subst (λ k. c.seal key (counter_to_nonce k) p [] ≡ some ct) (sym step.counter)
            sealing)) in
      let in_step : InStep n1 m1 = record {
        key = step.key ∙ ap (λ k. k.send_key) (sym n1_eq);
        counter = ap (λ k. add32 k 1) step.counter ∙ ap (λ k. k.send_counter) (sym n1_eq);
      } in
      let (m', read, after) = open_all-seal_all opens ps rest n1 n2 m1 in_step sent in
      let all_cts : ◌≡◌ {A = Result NoiseError (List Bytes)} (ok (ct ∷ rest)) (ok cts) =
        ap (λ r. r.0) e2 in
      let cts_eq : cts ≡ ct ∷ rest = cc in
      let all_read : open_all m (ct ∷ rest) ≡ (ok (p ∷ ps), m') = rw (opened, read) refl in
      (
        m',
        subst (λ k. open_all m k ≡ (ok (p ∷ ps), m')) (sym cts_eq) all_read,
        subst (λ k. InStep k m') (ap (λ r. r.1) e2) after,
      )
