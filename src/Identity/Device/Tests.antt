-- ===== src/Identity/Device/Tests.antt =====
-- The resolution of a device, with a toy signature: the key itself.
use ngen_orca.Core.Identity.{owner, UserIdentity, hardware, tpm}
use ngen_orca.Identity.Device.Trust.{Judged, resolve_from_device-Judged}
use ngen_orca.Base.{Bytes, codes, ok, some, ◌∷◌, if◌then◌else◌, [], same, none, ◌≡◌, refl}
use ngen_orca.Identity.Device.{
  Outside, ResolvedIdentity, resolve_from_device, resolve_by_device, proceed, resolve_known,
  resolve_signed, judge, find_device, device_trust, verify_device_signature,
}

abbrev laptop : Bytes
laptop = codes "laptop"

abbrev secret : Bytes
secret = codes "key"

abbrev alice : UserIdentity
alice = record {
  user_id = codes "alice";
  display_name = codes "Alice";
  role = owner;
  devices =
      record {
        device_id = laptop;
        device_name = laptop;
        attestation = tpm;
        public_key_hash = secret;
        trust = hardware;
        paired_at = 0;
        last_used = 0;
      }
      ∷ [];
  channels = [];
  created_at = 0;
  last_seen = 0;
}

abbrev outside : Outside
outside = record {
  find_by_device = λ id. ok (if same id laptop then some alice else none);
  decode_base64 = some;
  verify = λ key message signature. same key signature;
}

abbrev resolved : ResolvedIdentity
resolved = record { user_id = some (codes "alice"); trust = hardware; action = proceed }

resolves : resolve_from_device outside laptop secret (codes "hi") ≡ ok resolved
unfolding resolve_from_device resolve_by_device resolve_known resolve_signed judge find_device
    device_trust verify_device_signature
resolves = refl

resolve_from_device-Judged_example : Judged outside laptop secret (codes "hi") resolved
resolve_from_device-Judged_example =
    resolve_from_device-Judged outside laptop secret (codes "hi") resolved resolves
