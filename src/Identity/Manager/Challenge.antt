-- ===== src/Identity/Manager/Challenge.antt =====
-- A challenge is answered once, with a signature by the device's key.
use ngen_orca.Core.Identity.{TrustLevel, DeviceBinding, UserIdentity}
use ngen_orca.Identity.Store.{
  find_by_device, Tables, IdentityError, ChallengeRequest, mark_challenge_request_verified,
  device_not_found, get_challenge_request, get_user, already_done, unauthorized,
}
use ngen_orca.Identity.Manager.{
  Primitives, check_response, accept_response, verify_signature_for_device, standard, decode_base64,
  verify_challenge_response, is_some,
}
use ngen_orca.Base.{
  Option, Bytes, ◌≡◌, ok_or, some, ok, ℕ, none, true, >>=-parts, ◌>>=◌, Option-cases, err, inl, inr,
  Result-cases, ap, ◌≤◌, Bool-cases, lookup, ◌∙◌, subst, sym, text_key, refl, Result, lookup-modify,
  same_refl,
}
use ngen_orca.Identity.Device.{find_device, device_trust}
use ngen_orca.Identity.Manager.{verify_device_signature, resolve_by_device}
use ngen_orca.Identity.Manager.Steps.{on_open-parts, is_some-false}

-- The signature verifies with the key of the device that the store has.
pub record Signed (o : Primitives) (t : Tables) (device_id signature_b64 nonce_b64 : Bytes)
    : Type 0 where
  pub identity : UserIdentity
  pub device : DeviceBinding
  pub key : Bytes
  pub signature : Bytes
  pub nonce : Bytes
  pub stored : find_by_device t device_id ≡ some identity
  pub bound : find_device device_id identity.devices ≡ some device
  pub decoded_key : o.decode standard device.public_key_hash ≡ some key
  pub decoded_signature : decode_base64 o signature_b64 ≡ ok signature
  pub decoded_nonce : decode_base64 o nonce_b64 ≡ ok nonce
  pub valid : o.verify key nonce signature ≡ true

ok_or-parts {ℓ} :
    {A : Type ℓ} (o : Option A) (e : IdentityError) (a : A) → ok_or o e ≡ ok a → o ≡ some a
ok_or-parts none e a h = cc
ok_or-parts (some b) e a h = cc

signature-parts :
    (o : Primitives) (key_b64 signature message : Bytes)
    → verify_device_signature o key_b64 signature message ≡ ok true
    → (key : Bytes) × (o.decode standard key_b64 ≡ some key)
      × (o.verify key message signature ≡ true)
unfolding verify_device_signature
signature-parts o key_b64 signature message e = elim (Option-cases (o.decode standard key_b64)) [
  | inl f ↦ let bad = rw (f, verify_device_signature) at e in absurd cc
  | inr (key, f) ↦ (key, f, let h = rw (f, verify_device_signature) at e in cc)
]

check_response-Signed :
    (o : Primitives) (t : Tables) (r : ChallengeRequest) (signature_b64 : Bytes)
    → check_response o t r signature_b64 ≡ ok true
    → Signed o t r.device_id signature_b64 r.nonce_b64
unfolding check_response verify_signature_for_device
check_response-Signed o t r signature_b64 e =
    let (signature, s_eq, e1) =
      >>=-parts (decode_base64 o signature_b64)
        (λ s. decode_base64 o r.nonce_b64 >>= λ n. verify_signature_for_device o t r.device_id s n)
        e in
    let (nonce, n_eq, e2) =
      >>=-parts (decode_base64 o r.nonce_b64)
        (λ n. verify_signature_for_device o t r.device_id signature n) e1 in
    let (identity, i_eq, e3) =
      >>=-parts (ok_or (find_by_device t r.device_id) (device_not_found r.device_id))
        (λ u. ok_or (find_device r.device_id u.devices) (device_not_found r.device_id) >>= λ d.
          verify_device_signature o d.public_key_hash signature nonce)
        e2 in
    let (device, d_eq, e4) =
      >>=-parts (ok_or (find_device r.device_id identity.devices) (device_not_found r.device_id))
        (λ d. verify_device_signature o d.public_key_hash signature nonce) e3 in
    let (key, k_eq, valid) = signature-parts o device.public_key_hash signature nonce e4 in
    record {
      identity = identity;
      device = device;
      key = key;
      signature = signature;
      nonce = nonce;
      stored = ok_or-parts _ _ identity i_eq;
      bound = ok_or-parts _ _ device d_eq;
      decoded_key = k_eq;
      decoded_signature = s_eq;
      decoded_nonce = n_eq;
      valid = valid;
    }

accept_response-parts :
    (o : Primitives) (t : Tables) (id : Bytes) (r : ChallengeRequest) (signature_b64 : Bytes)
    (now : ℕ) (user : Bytes) (trust : TrustLevel) (t' : Tables)
    → accept_response o t id r signature_b64 now ≡ (ok (user, trust), t')
    → (check_response o t r signature_b64 ≡ ok true)
      × (t' ≡ mark_challenge_request_verified t id now)
      × (resolve_by_device t' r.device_id ≡ some (user, trust))
unfolding accept_response
accept_response-parts o t id r signature_b64 now user trust t' e =
    let marked : Tables = mark_challenge_request_verified t id now in
    elim (Result-cases (check_response o t r signature_b64)) [
      | inl (x, f) ↦
          let left = rw (f, accept_response) at e in
          let bad : ◌≡◌ {A = Result IdentityError (Bytes × TrustLevel)} (err x) (ok (user, trust)) =
            ap (λ p. p.0) left in
          absurd cc
      | inr (valid, f) ↦ elim (Bool-cases valid) [
        | inr no_match ↦
            let left = rw (f, no_match, accept_response) at e in
            let bad : ◌≡◌ {A = Result IdentityError (Bytes × TrustLevel)}
                (err (unauthorized r.device_id)) (ok (user, trust)) =
              ap (λ p. p.0) left in
            absurd cc
        | inl good ↦
            let left : (
              ok_or (resolve_by_device marked r.device_id) (device_not_found r.device_id),
              marked,
            )
                ≡ (ok (user, trust), t') =
              rw (f, good, accept_response) at e in
            let left_tables : marked ≡ t' = ap (λ p. p.1) left in
            (
              f ∙ ap ok good,
              sym left_tables,
              subst (λ s. resolve_by_device s r.device_id ≡ some (user, trust)) left_tables
                  (ok_or-parts (resolve_by_device marked r.device_id) _ (user, trust)
                    (ap (λ p. p.0) left)),
            )
      ]
    ]

-- What an answer that was accepted means.
pub record Answered (o : Primitives) (t : Tables) (id signature_b64 : Bytes) (now : ℕ)
    (user : Bytes) (trust : TrustLevel) (t' : Tables) : Type 0 where
  pub request : ChallengeRequest
  pub found : get_challenge_request t id ≡ some request
  pub open_before : request.verified_at ≡ none
  pub in_time : now ≤ request.expires_at
  pub signed : Signed o t request.device_id signature_b64 request.nonce_b64
  pub owner : user ≡ signed.identity.user_id
  pub level : trust ≡ signed.device.trust
  pub refused :
      (again : Bytes) (later : ℕ)
      → verify_challenge_response o t' id again later ≡ (err (already_done id), t')

refused-verified :
    (o : Primitives) (t : Tables) (id : Bytes) (r : ChallengeRequest) (at_time : ℕ) (again : Bytes)
    (now : ℕ)
    → get_challenge_request t id ≡ some r
    → r.verified_at ≡ some at_time
    → verify_challenge_response o t id again now ≡ (err (already_done id), t)
unfolding verify_challenge_response get_challenge_request
refused-verified o t id r at_time again now e f = rw (e, f, verify_challenge_response) refl

find_by_device-mark :
    (t : Tables) (id : Bytes) (now : ℕ) (device_id : Bytes)
    → find_by_device (mark_challenge_request_verified t id now) device_id
      ≡ find_by_device t device_id
unfolding mark_challenge_request_verified find_by_device get_user
find_by_device-mark t id now device_id = refl

-- Marking a request does not touch the users and devices.
resolve-marked :
    (t : Tables) (id : Bytes) (now : ℕ) (device_id : Bytes) (identity : UserIdentity)
    (device : DeviceBinding) (user : Bytes) (trust : TrustLevel)
    → find_by_device t device_id ≡ some identity
    → find_device device_id identity.devices ≡ some device
    → resolve_by_device (mark_challenge_request_verified t id now) device_id ≡ some (user, trust)
    → (user ≡ identity.user_id) × (trust ≡ device.trust)
unfolding resolve_by_device device_trust
resolve-marked t id now device_id identity device user trust found bound e =
    let known : find_by_device (mark_challenge_request_verified t id now) device_id
        ≡ some identity =
      find_by_device-mark t id now device_id ∙ found in
    let parts = rw (known, bound, resolve_by_device, device_trust) at e in (cc, cc)

-- An answer that is accepted is to a challenge that was there, open and not expired, and carries a
-- signature of its nonce by the key of its device. The user and the trust returned are those of the device,
-- and every later answer to the challenge is refused and leaves the tables.
pub verify_challenge_response-Answered :
    (o : Primitives) (t : Tables) (id signature_b64 : Bytes) (now : ℕ) (user : Bytes)
    (trust : TrustLevel) (t' : Tables)
    → verify_challenge_response o t id signature_b64 now ≡ (ok (user, trust), t')
    → Answered o t id signature_b64 now user trust t'
unfolding verify_challenge_response get_challenge_request mark_challenge_request_verified
verify_challenge_response-Answered o t id signature_b64 now user trust t' e =
    let (r, found, fresh, in_time, accepted) =
      on_open-parts t id (λ r. is_some r.verified_at) (λ r. r.expires_at) now
        (λ r. accept_response o t id r signature_b64 now) (lookup id t.challenge_requests)
        (user, trust) t' e in
    let (checked, after, resolved) =
      accept_response-parts o t id r signature_b64 now user trust t' accepted in
    let signed = check_response-Signed o t r signature_b64 checked in
    let (owner, level) =
      resolve-marked t id now r.device_id signed.identity signed.device user trust signed.stored
        signed.bound
        (subst (λ s. resolve_by_device s r.device_id ≡ some (user, trust)) after resolved) in
    let change : ChallengeRequest → ChallengeRequest = λ q. record q { verified_at = some now } in
    record {
      request = r;
      found = found;
      open_before = is_some-false r.verified_at fresh;
      in_time = in_time;
      signed = signed;
      owner = owner;
      level = level;
      refused = λ again later.
          refused-verified o t' id (change r) now again later
            (rw
              (
                after,
                mark_challenge_request_verified,
                lookup-modify id id change t.challenge_requests,
                same_refl id,
                found,
              )
              refl)
            refl;
    }
