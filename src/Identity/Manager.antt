-- ===== src/Identity/Manager.antt =====
-- `IdentityManager` of ngenorca-identity/src/lib.rs on the tables of its store. The time of a call, a new
-- request id and a nonce are arguments; base64, Ed25519 and the text of a kind are parameters. A method
-- returns its result with the tables it leaves, also when it fails.
mod Conflicts
pub mod Linking
pub mod Resolving
mod Steps
pub mod Pairing
pub mod Challenge
mod Tests
use ngen_orca.Core.Identity.{
  DeviceBinding, ChannelBinding, UserIdentity, UserRole, ChannelKind, handle_key, AttestationType,
  TrustLevel, channel, hardware, composite_fingerprint,
}
use ngen_orca.Identity.Candidates.{channel_handle_candidates}
use ngen_orca.Identity.Device.{find_device, device_trust}
use ngen_orca.Base.{
  Bytes, Option, Result, Bool, err, List, ℕ, some, ◌++◌, ok, none, [], ◌+◌, false, codes, ok_or,
  ◌>>=◌, ◌∷◌, true, get_or, if◌then◌else◌, same, ltb, Run, and_then,
}
use ngen_orca.Identity.Store.{
  find_by_device, Tables, IdentityError, add_device, remove_device, PairingRequest,
  ChallengeRequest, handle_conflict, get_user, mark_pairing_request_completed, get_pairing_request,
  get_challenge_request, save_user, save_pairing_request, key_required, user_not_found,
  request_not_found, save_challenge_request, bad_base64, bad_public_key, device_not_found,
  mark_challenge_request_verified, find_by_channel, add_channel, already_done, unauthorized,
  request_expired,
}
use ngen_orca.Identity.Texts.{trim}

-- The engines of the base64 crate that `decode_base64` tries.
pub data Engine : Type 0 where
  standard : Engine
  standard_no_pad : Engine
  url_safe : Engine
  url_safe_no_pad : Engine

pub record Primitives : Type 0 where
  pub decode : Engine → Bytes → Option Bytes
  pub encode : Bytes → Bytes
  pub verify : Bytes → Bytes → Bytes → Bool
  pub kind_text : ChannelKind → Bytes

pub record PairingSeed : Type 0 where
  pub channel_kind : Option ChannelKind
  pub handle : Option Bytes
  pub device_id : Option Bytes
  pub device_name : Option Bytes
  pub requested_user_id : Option Bytes
  pub requested_display_name : Option Bytes

pub record PairingCompletion : Type 0 where
  pub user_id : Bytes
  pub display_name : Option Bytes
  pub role : UserRole
  pub channel_id : Option Bytes
  pub device_name : Option Bytes
  pub attestation : Option AttestationType
  pub public_key : Option Bytes

pub record ChallengeSeed : Type 0 where
  pub device_id : Bytes
  pub user_id : Option Bytes
  pub reason : Bytes

abbrev pub Done {ℓ} : Type ℓ → Type ℓ
Done A = Run Tables IdentityError A

-- A statement of the store, whose error leaves the tables.
abbrev pub run : Tables → Result IdentityError Tables → Done (Unit {0})
run t (err e) = (err e, t)
run t (ok t') = (ok tt, t')

unfoldable pub resolve_by_device : Tables → Bytes → Option (Bytes × TrustLevel)
resolve_by_device t device_id = elim (find_by_device t device_id) [
  | none ↦ none
  | some u ↦ some (u.user_id, device_trust device_id u)
]

-- The loop of `resolve_by_channel` over the candidates.
unfoldable pub resolve_first : Tables → ChannelKind → List Bytes → Option (Bytes × TrustLevel)
resolve_first t kind [] = none
resolve_first t kind (candidate ∷ candidates) = elim (find_by_channel t kind candidate) [
  | some u ↦ some (u.user_id, channel)
  | none ↦ resolve_first t kind candidates
]

unfoldable pub resolve_by_channel : Tables → ChannelKind → Bytes → Option (Bytes × TrustLevel)
resolve_by_channel t kind handle = resolve_first t kind (channel_handle_candidates kind handle)

unfoldable pub register_user : Tables → Bytes → Bytes → UserRole → ℕ → UserIdentity × Tables
register_user t user display_name role now =
    let identity : UserIdentity = record {
      user_id = user;
      display_name = display_name;
      role = role;
      devices = [];
      channels = [];
      created_at = now;
      last_seen = now;
    } in
    (identity, save_user t identity)

unfoldable pub pair_device : Tables → Bytes → DeviceBinding → Done (Unit {0})
pair_device t user device = run t (add_device t user device)

-- One turn of the first loop of `link_channel`; `rest` is what the later turns come to.
unfoldable pub conflict_or : Bytes → Option Bytes → Option UserIdentity → Option Bytes
conflict_or user rest none = rest
conflict_or user rest (some existing) =
    if same existing.user_id user then rest else some existing.user_id

-- The first loop: a user other than `user` who holds a candidate.
unfoldable pub find_conflict : Tables → Bytes → ChannelKind → List Bytes → Option Bytes
find_conflict t user kind [] = none
find_conflict t user kind (candidate ∷ candidates) =
    conflict_or user (find_conflict t user kind candidates) (find_by_channel t kind candidate)

abbrev pub channel_binding : Bytes → ChannelKind → Bytes → ℕ → ChannelBinding
channel_binding channel_id kind candidate now = record {
  channel_id = channel_id;
  channel_kind = kind;
  handle = candidate;
  trust = channel;
  linked_at = now;
}

-- The second loop.
unfoldable pub add_all : Tables → Bytes → Bytes → ChannelKind → List Bytes → ℕ → Done (Unit {0})
add_all t user channel_id kind [] now = (ok tt, t)
add_all t user channel_id kind (candidate ∷ candidates) now =
    and_then (run t (add_channel t user (channel_binding channel_id kind candidate now)))
      (λ _ t'. add_all t' user channel_id kind candidates now)

unfoldable pub link_channel : Tables → Bytes → Bytes → ChannelKind → Bytes → ℕ → Done (Unit {0})
link_channel t user channel_id kind handle now =
    let candidates = channel_handle_candidates kind handle in
    elim (find_conflict t user kind candidates) [
      | some other ↦ (err (handle_conflict handle other), t)
      | none ↦ add_all t user channel_id kind candidates now
    ]

unfoldable pub revoke_device : Tables → Bytes → Bytes → Tables
revoke_device t user device_id = remove_device t user device_id

unfoldable pub issue_pairing_request : Tables → PairingSeed → Bytes → ℕ → PairingRequest × Tables
issue_pairing_request t seed fresh now =
    let request : PairingRequest = record {
      request_id = fresh;
      channel_kind = seed.channel_kind;
      handle = seed.handle;
      device_id = seed.device_id;
      device_name = seed.device_name;
      requested_user_id = seed.requested_user_id;
      requested_display_name = seed.requested_display_name;
      created_at = now;
      expires_at = now + 3600000000000;
      completed_at = none;
    } in
    (request, save_pairing_request t request)

-- `a.or_else(|| b)`.
abbrev pub or_else {ℓ} : {A : Type ℓ} → Option A → Option A → Option A
or_else none b = b
or_else (some a) b = some a

abbrev pub is_some {ℓ} : {A : Type ℓ} → Option A → Bool
is_some none = false
is_some (some a) = true

-- The user is registered if there is none.
unfoldable pub ensure_user : Tables → PairingRequest → PairingCompletion → ℕ → Tables
ensure_user t r c now = elim (get_user t c.user_id) [
  | some _ ↦ t
  | none ↦
      (register_user t c.user_id
        (get_or (or_else c.display_name r.requested_display_name) c.user_id) c.role now).1
]

module _ (o : Primitives) where
  -- `format!("{channel_kind}:{handle}")`.
  abbrev pub default_channel_id : ChannelKind → Bytes → Bytes
  default_channel_id kind handle = o.kind_text kind ++ codes ":" ++ handle

  unfoldable pub link_request : Tables → PairingRequest → PairingCompletion → ℕ → Done (Unit {0})
  link_request t r c now = elim r.channel_kind [
    | none ↦ (ok tt, t)
    | some kind ↦ elim r.handle [
      | none ↦ (ok tt, t)
      | some handle ↦
          link_channel t c.user_id (get_or c.channel_id (default_channel_id kind handle)) kind
            handle now
    ]
  ]

unfoldable pub pair_request : Tables → PairingRequest → PairingCompletion → ℕ → Done (Unit {0})
pair_request t r c now = elim r.device_id [
  | none ↦ (ok tt, t)
  | some device_id ↦ elim c.public_key [
    | none ↦ (err (key_required device_id), t)
    | some public_key ↦ pair_device t c.user_id (record {
      device_id = device_id;
      device_name = get_or (or_else c.device_name r.device_name) (codes "Paired device");
      attestation = get_or c.attestation composite_fingerprint;
      public_key_hash = public_key;
      trust = hardware;
      paired_at = now;
      last_used = now;
    })
  ]
]

-- The checks that a request is there, still open and not expired, which both kinds of request begin with.
abbrev pub on_open {ℓ κ} :
    {R : Type ℓ} {A : Type κ}
    → Tables
    → Bytes
    → (R → Bool)
    → (R → ℕ)
    → ℕ
    → (R → Done A)
    → Option R
    → Done A
on_open t id is_done expires now next none = (err (request_not_found id), t)
on_open t id is_done expires now next (some r) =
    if is_done r
    then (err (already_done id), t)
    else (if ltb (expires r) now then (err (request_expired id), t) else next r)

-- The request is marked, and the user read.
unfoldable pub close_request : Tables → Bytes → Bytes → ℕ → Done UserIdentity
close_request t id user now =
    let marked = mark_pairing_request_completed t id now in
    (ok_or (get_user marked user) (user_not_found user), marked)

-- From the device on.
unfoldable pub pair_and_close :
    Bytes → PairingRequest → PairingCompletion → ℕ → Tables → Done UserIdentity
pair_and_close id r c now t =
    and_then (pair_request t r c now) (λ _ t'. close_request t' id c.user_id now)

module _ (o : Primitives) where
  -- From the registration on.
  unfoldable pub carry_out :
      Tables → Bytes → PairingRequest → PairingCompletion → ℕ → Done UserIdentity
  carry_out t id r c now =
      and_then (link_request o (ensure_user t r c now) r c now)
        (λ _ t'. pair_and_close id r c now t')

  unfoldable pub complete_pairing_request :
      Tables → Bytes → PairingCompletion → ℕ → Done UserIdentity
  complete_pairing_request t id c now =
      on_open t id (λ r. is_some r.completed_at) (λ r. r.expires_at) now
        (λ r. carry_out t id r c now) (get_pairing_request t id)

  unfoldable pub issue_challenge_request :
      Tables → ChallengeSeed → Bytes → Bytes → ℕ → ChallengeRequest × Tables
  issue_challenge_request t seed fresh nonce now =
      let request : ChallengeRequest = record {
        request_id = fresh;
        user_id = seed.user_id;
        device_id = seed.device_id;
        nonce_b64 = o.encode nonce;
        reason = seed.reason;
        created_at = now;
        expires_at = now + 900000000000;
        verified_at = none;
      } in
      (request, save_challenge_request t request)

  unfoldable pub decode_base64 : Bytes → Result IdentityError Bytes
  decode_base64 value =
      let s = trim value in
      ok_or
        (or_else (o.decode standard s) (
          or_else (o.decode standard_no_pad s)
            (or_else (o.decode url_safe s) (o.decode url_safe_no_pad s))))
        bad_base64

  unfoldable pub verify_device_signature : Bytes → Bytes → Bytes → Result IdentityError Bool
  verify_device_signature public_key_b64 signature message =
      elim (o.decode standard public_key_b64) [
        | none ↦ err bad_public_key
        | some key ↦ ok (o.verify key message signature)
      ]

  unfoldable pub verify_signature_for_device :
      Tables → Bytes → Bytes → Bytes → Result IdentityError Bool
  verify_signature_for_device t device_id signature message =
      ok_or (find_by_device t device_id) (device_not_found device_id) >>= λ identity.
      ok_or (find_device device_id identity.devices) (device_not_found device_id) >>= λ device.
      verify_device_signature device.public_key_hash signature message

  -- The decoding of the payloads and the check.
  unfoldable pub check_response : Tables → ChallengeRequest → Bytes → Result IdentityError Bool
  check_response t r signature_b64 = decode_base64 signature_b64 >>= λ signature.
      decode_base64 r.nonce_b64 >>= λ message.
      verify_signature_for_device t r.device_id signature message

  -- From the check on.
  unfoldable pub accept_response :
      Tables → Bytes → ChallengeRequest → Bytes → ℕ → Done (Bytes × TrustLevel)
  accept_response t id r signature_b64 now = elim (check_response t r signature_b64) [
    | err e ↦ (err e, t)
    | ok valid ↦
        let marked = mark_challenge_request_verified t id now in
        if valid
        then (ok_or (resolve_by_device marked r.device_id) (device_not_found r.device_id), marked)
        else (err (unauthorized r.device_id), t)
  ]

  unfoldable pub verify_challenge_response : Tables → Bytes → Bytes → ℕ → Done (Bytes × TrustLevel)
  verify_challenge_response t id signature_b64 now =
      on_open t id (λ r. is_some r.verified_at) (λ r. r.expires_at) now
        (λ r. accept_response t id r signature_b64 now) (get_challenge_request t id)
