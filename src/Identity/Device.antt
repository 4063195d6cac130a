-- ===== src/Identity/Device.antt =====
-- `resolve_from_device` of ngenorca-identity/src/resolver.rs and `resolve_by_device` of its lib.rs. The
-- store, the base64 decoder and the check of an Ed25519 signature are parameters.
pub mod Trust
mod Tests
use ngen_orca.Core.Identity.{
  TrustLevel, unknown, channel, rank, min_trust, DeviceBinding, UserIdentity,
}
use ngen_orca.Base.{
  ℕ, if◌then◌else◌, Bytes, Option, leb, List, Result, Bool, some, true, none, err, ◌>>=◌, ◌||◌, ◌∷◌,
  ok, false, ok_or, [], same,
}

pub data IdentityAction : Type 0 where
  proceed : IdentityAction
  proceed_reduced : IdentityAction
  require_pairing : IdentityAction
  challenge : IdentityAction
  block : IdentityAction

pub record ResolvedIdentity : Type 0 where
  pub user_id : Option Bytes
  pub trust : TrustLevel
  pub action : IdentityAction

-- `panic` is an `expect` that fails.
pub data ResolveError : Type 0 where
  store_error : ResolveError
  panic : ResolveError

pub record Outside : Type 0 where
  pub find_by_device : Bytes → Result ResolveError (Option UserIdentity)
  pub decode_base64 : Bytes → Option Bytes
  pub verify : Bytes → Bytes → Bytes → Bool

abbrev pub no_bytes : Bytes → Bool
no_bytes [] = true
no_bytes (b ∷ s) = false

unfoldable pub find_device : Bytes → List DeviceBinding → Option DeviceBinding
find_device device_id [] = none
find_device device_id (d ∷ devices) =
    if same d.device_id device_id then some d else find_device device_id devices

unfoldable pub device_trust : Bytes → UserIdentity → TrustLevel
device_trust device_id identity = elim (find_device device_id identity.devices) [
  | none ↦ channel
  | some d ↦ d.trust
]

abbrev pub challenged : Bytes → ResolvedIdentity
challenged user = record { user_id = some user; trust = unknown; action = challenge }

module _ (o : Outside) where
  unfoldable pub resolve_by_device : Bytes → Result ResolveError (Option (Bytes × TrustLevel))
  resolve_by_device device_id = elim (o.find_by_device device_id) [
    | err e ↦ err e
    | ok found ↦
        ok (elim found [ none ↦ none | some u ↦ some (u.user_id, device_trust device_id u) ])
  ]

  -- `none` is a key that cannot be decoded.
  unfoldable pub verify_device_signature : Bytes → Bytes → Bytes → Option Bool
  verify_device_signature public_key_b64 signature message = elim (o.decode_base64 public_key_b64) [
    | none ↦ none
    | some public_key ↦ some (o.verify public_key message signature)
  ]

  -- The match on the verification.
  unfoldable pub judge : Bytes → TrustLevel → Option Bool → ResolvedIdentity
  judge user stored (some true) = record { user_id = some user; trust = stored; action = proceed }
  judge user stored (some false) = challenged user
  judge user stored none = challenged user

  -- From the second look into the store on.
  unfoldable pub resolve_signed :
      Bytes → Bytes → Bytes → Bytes → TrustLevel → Result ResolveError ResolvedIdentity
  resolve_signed device_id signature message user stored = o.find_by_device device_id >>= λ found.
      ok_or found panic >>= λ identity.
      ok_or (find_device device_id identity.devices) panic >>= λ device.
      ok (judge user stored (verify_device_signature device.public_key_hash signature message))

  unfoldable pub resolve_known :
      Bytes → Bytes → Bytes → Bytes → TrustLevel → Result ResolveError ResolvedIdentity
  resolve_known device_id signature message user stored =
      if no_bytes signature || no_bytes message
      then ok (record {
        user_id = some user;
        trust = min_trust stored channel;
        action = proceed_reduced;
      })
      else resolve_signed device_id signature message user stored

  unfoldable pub resolve_from_device : Bytes → Bytes → Bytes → Result ResolveError ResolvedIdentity
  resolve_from_device device_id signature message = resolve_by_device device_id >>= λ resolved.
      elim resolved [
        | none ↦ ok (record { user_id = none; trust = unknown; action = require_pairing })
        | some known ↦ resolve_known device_id signature message known.0 known.1
      ]
