-- ===== src/Identity/Device/Trust.antt =====
-- When resolver.rs trusts a device.
use ngen_orca.Core.Identity.{
  DeviceBinding, TrustLevel, UserIdentity, certificate, channel, hardware, min_trust, rank, unknown,
}
use ngen_orca.Identity.Device.{
  Outside, ResolvedIdentity, judge, resolve_signed, resolve_known, resolve_from_device,
  ResolveError, verify_device_signature, resolve_by_device, device_trust, find_device, no_bytes,
  proceed,
}
use ngen_orca.Base.{
  Bytes, Result, ◌≡◌, some, err, ok, Option, ◌⊎◌, Option-cases, ◌≤◌, Bool-cases, inr, subst, true,
  ◌≢◌, inl, arith, refl, ◌||◌, none,
}

module _ (o : Outside) (device_id signature message : Bytes) where
  -- The signature is by the key of a device that the store has under this id.
  pub record Verified (user : Bytes) (trust : TrustLevel) : Type 0 where
    pub identity : UserIdentity
    pub device : DeviceBinding
    pub key : Bytes
    pub stored : o.find_by_device device_id ≡ ok (some identity)
    pub owner : user ≡ identity.user_id
    pub bound : find_device device_id identity.devices ≡ some device
    pub level : trust ≡ device.trust
    pub decoded : o.decode_base64 device.public_key_hash ≡ some key
    pub signed : o.verify key message signature ≡ true

  -- Either the full way or at most the trust of a channel.
  abbrev pub Judged : ResolvedIdentity → Type 0
  Judged r =
      ((user : Bytes) × (r.user_id ≡ some user) × Verified user r.trust)
      ⊎ ((rank r.trust ≤ 1) × (r.action ≢ proceed))

  abbrev pub WhenOk : Result ResolveError ResolvedIdentity → Type 0
  WhenOk (err e) = Unit
  WhenOk (ok r) = Judged r

  judged :
      (identity : UserIdentity) (device : DeviceBinding)
      → o.find_by_device device_id ≡ ok (some identity)
      → find_device device_id identity.devices ≡ some device
      → Judged (
          judge o identity.user_id
            (device_trust device_id identity)
            (verify_device_signature o device.public_key_hash signature message))
  unfolding judge verify_device_signature device_trust
  judged identity device stored bound =
      elim (Option-cases (o.decode_base64 device.public_key_hash)) [
        | inl e ↦ rw (e, judge, verify_device_signature) (inr (omega arith, λ h. cc))
        | inr (key, e) ↦ elim (Bool-cases (o.verify key message signature)) [
          | inr f ↦ rw (e, f, judge, verify_device_signature) (inr (omega arith, λ h. cc))
          | inl f ↦
              rw (e, f, judge, verify_device_signature)
                (inl (
                  identity.user_id,
                  refl,
                  record {
                    identity = identity;
                    device = device;
                    key = key;
                    stored = stored;
                    owner = refl;
                    bound = bound;
                    level = rw (bound, device_trust) refl;
                    decoded = e;
                    signed = f;
                  },
                ))
        ]
      ]

  signed-WhenOk :
      (identity : UserIdentity)
      → o.find_by_device device_id ≡ ok (some identity)
      → WhenOk (
          resolve_signed o device_id signature message identity.user_id
            (device_trust device_id identity))
  unfolding resolve_signed
  signed-WhenOk identity stored = elim (Option-cases (find_device device_id identity.devices)) [
    | inl e ↦ rw (stored, e, resolve_signed) tt
    | inr (device, e) ↦ rw (stored, e, resolve_signed) (judged identity device stored e)
  ]

  min_trust-channel : (t : TrustLevel) → rank (min_trust t channel) ≤ 1
  unfolding min_trust
  min_trust-channel unknown = omega arith
  min_trust-channel channel = omega arith
  min_trust-channel certificate = omega arith
  min_trust-channel hardware = omega arith

  known-WhenOk :
      (identity : UserIdentity)
      → o.find_by_device device_id ≡ ok (some identity)
      → WhenOk (
          resolve_known o device_id signature message identity.user_id
            (device_trust device_id identity))
  unfolding resolve_known
  known-WhenOk identity stored = elim (Bool-cases (no_bytes signature || no_bytes message)) [
    | inl e ↦
        rw (e, resolve_known) (inr (min_trust-channel (device_trust device_id identity), λ h. cc))
    | inr e ↦ rw (e, resolve_known) (signed-WhenOk identity stored)
  ]

  found-WhenOk :
      (found : Result ResolveError (Option UserIdentity))
      → o.find_by_device device_id ≡ found
      → WhenOk (resolve_from_device o device_id signature message)
  unfolding resolve_from_device resolve_by_device
  found-WhenOk (err e) stored = rw (stored, resolve_from_device, resolve_by_device) tt
  found-WhenOk (ok none) stored =
      rw (stored, resolve_from_device, resolve_by_device) (inr (omega arith, λ h. cc))
  found-WhenOk (ok (some identity)) stored =
      rw (stored, resolve_from_device, resolve_by_device) (known-WhenOk identity stored)

  -- If a device is resolved, then either the signature of the message is by the decoded key of the
  -- device that the store has under the id, and the user and the trust are those stored, or the trust is
  -- at most that of a channel and the action is not to proceed.
  pub resolve_from_device-Judged :
      (r : ResolvedIdentity) → resolve_from_device o device_id signature message ≡ ok r → Judged r
  resolve_from_device-Judged r e = subst WhenOk e (found-WhenOk (o.find_by_device device_id) refl)
