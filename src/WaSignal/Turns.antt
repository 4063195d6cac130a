-- ===== src/WaSignal/Turns.antt =====
-- The DH ratchet, when the two sides of a session take turns.
use ngen_orca.WaSignal.Laws.{Documented, to_x25519-ok, hkdf_sha256-ok}
use ngen_orca.WaSignal.Chain.{InStep}
use ngen_orca.WaSignal.{Crypto, SignalSession, dh_ratchet_step, ratchet_keys, send_step}
use ngen_orca.Base.{Bytes, ◌≡◌, take, length, ok, drop, codes, arith, sym, refl}

module _ (c : Crypto) where
  -- `b` has made the last step: its keys are those that `a` will derive from the exchanged secret.
  pub record Paired (a b : SignalSession) : Type 0 where
    pub derived : Bytes
    pub made :
        ratchet_keys c a.root_key (c.exchange a.ratchet_private (c.public_of b.ratchet_private))
        ≡ ok derived
    pub root : b.root_key ≡ take 32 derived
    pub chain : b.send_chain_key ≡ take 32 (drop 32 derived)
    pub size_a : length a.ratchet_private ≡ 32
    pub size_b : length b.ratchet_private ≡ 32

  -- What a step leaves, from what its two derivations give.
  abbrev after_step : SignalSession → Bytes → Bytes → Bytes → Bytes → SignalSession
  after_step s remote fresh derived derived' = record s {
    prev_send_counter = s.send_counter;
    send_counter = 0;
    recv_counter = 0;
    remote_ratchet_public = remote;
    recv_chain_key = take 32 (drop 32 derived);
    root_key = take 32 derived';
    send_chain_key = take 32 (drop 32 derived');
    ratchet_private = fresh;
  }

  dh_ratchet_step-ok :
      (s : SignalSession) (remote fresh derived derived' : Bytes)
      → length remote ≡ 32
      → length s.ratchet_private ≡ 32
      → ratchet_keys c s.root_key (c.exchange s.ratchet_private remote) ≡ ok derived
      → ratchet_keys c (take 32 derived) (c.exchange fresh remote) ≡ ok derived'
      → dh_ratchet_step c s remote fresh ≡ (ok tt, after_step s remote fresh derived derived')
  unfolding dh_ratchet_step send_step
  dh_ratchet_step-ok s remote fresh derived derived' size_r size_s e f =
      rw
        (
          to_x25519-ok remote size_r,
          to_x25519-ok s.ratchet_private size_s,
          e,
          f,
          dh_ratchet_step,
          send_step,
        )
        refl

  -- Where the crates do what they document and the other side made the last step, the step that answers
  -- its ratchet key succeeds. The receiving chain is then the other side's sending chain, and the new
  -- keys are those that the other side will derive in its turn.
  pub dh_ratchet_step-Paired :
      (documented : Documented c) (a b : SignalSession) (fresh : Bytes)
      → Paired a b
      → length fresh ≡ 32
      → (a' : SignalSession) × (dh_ratchet_step c a (c.public_of b.ratchet_private) fresh
          ≡ (ok tt, a'))
        × InStep c b a'
        × Paired b a'
  unfolding ratchet_keys
  dh_ratchet_step-Paired documented a b fresh paired size =
      let remote : Bytes = c.public_of b.ratchet_private in
      let (derived', made') =
        hkdf_sha256-ok c documented (take 32 paired.derived) (c.exchange fresh remote)
          (codes "WhisperRatchet") 64 (omega arith) in
      (
        after_step a remote fresh paired.derived derived',
        dh_ratchet_step-ok a remote fresh paired.derived derived'
            (documented.public_length b.ratchet_private) paired.size_a paired.made made',
        record { chain = sym paired.chain; key = refl; size = paired.size_b },
        record {
          derived = derived';
          made = rw (paired.root, documented.agrees b.ratchet_private fresh) made';
          root = refl;
          chain = refl;
          size_a = paired.size_b;
          size_b = size;
        },
      )
