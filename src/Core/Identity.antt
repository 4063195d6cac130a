-- ===== src/Core/Identity.antt =====
-- The types of ngenorca-core/src/identity.rs, and the trust levels and channel kinds of
-- ngenorca-core/src/types.rs. A time is the nanoseconds since an epoch, a text its numbers.
use ngen_orca.Base.{
  ℕ, if◌then◌else◌, Bytes, Bool, ◌≡◌, HashKey, leb, List, [], ◌==◌, refl, true, ◌&&◌, same, ==_refl,
  arith, same_refl, same_iff, sym, ◌∙◌, ap, false, same_sound,
}

pub data TrustLevel : Type 0 where
  unknown : TrustLevel
  channel : TrustLevel
  certificate : TrustLevel
  hardware : TrustLevel

-- The discriminants, which order the levels.
abbrev pub rank : TrustLevel → ℕ
rank unknown = 0
rank channel = 1
rank certificate = 2
rank hardware = 3

-- `Ord::min`.
unfoldable pub min_trust : TrustLevel → TrustLevel → TrustLevel
min_trust a b = if leb (rank a) (rank b) then a else b

pub data ChannelKind : Type 0 where
  whats_app : ChannelKind
  telegram : ChannelKind
  discord : ChannelKind
  slack : ChannelKind
  signal : ChannelKind
  i_message : ChannelKind
  matrix : ChannelKind
  irc : ChannelKind
  web_chat : ChannelKind
  teams : ChannelKind
  custom : Bytes → ChannelKind

pub data UserRole : Type 0 where
  owner : UserRole
  family : UserRole
  guest : UserRole

pub data AttestationType : Type 0 where
  tpm : AttestationType
  secure_enclave : AttestationType
  strong_box : AttestationType
  client_certificate : AttestationType
  composite_fingerprint : AttestationType

pub record DeviceBinding : Type 0 where
  pub device_id : Bytes
  pub device_name : Bytes
  pub attestation : AttestationType
  pub public_key_hash : Bytes
  pub trust : TrustLevel
  pub paired_at : ℕ
  pub last_used : ℕ

pub record ChannelBinding : Type 0 where
  pub channel_id : Bytes
  pub channel_kind : ChannelKind
  pub handle : Bytes
  pub trust : TrustLevel
  pub linked_at : ℕ

pub record UserIdentity : Type 0 where
  pub user_id : Bytes
  pub display_name : Bytes
  pub role : UserRole
  pub devices : List DeviceBinding
  pub channels : List ChannelBinding
  pub created_at : ℕ
  pub last_seen : ℕ

-- The number of a kind and the name it carries.
abbrev tag : ChannelKind → ℕ
tag whats_app = 0
tag telegram = 1
tag discord = 2
tag slack = 3
tag signal = 4
tag i_message = 5
tag matrix = 6
tag irc = 7
tag web_chat = 8
tag teams = 9
tag (custom s) = 10

abbrev custom_name : ChannelKind → Bytes
custom_name (custom s) = s
custom_name _ = []

-- `==` on kinds.
abbrev pub same_kind : ChannelKind → ChannelKind → Bool
same_kind j k = (tag j == tag k) && same (custom_name j) (custom_name k)

abbrev kind_of : ℕ → Bytes → ChannelKind
kind_of n s =
    if n == 0
    then whats_app
    else if n == 1
    then telegram
    else if n == 2
    then discord
    else if n == 3
    then slack
    else if n == 4
    then signal
    else if n == 5
    then i_message
    else if n == 6
    then matrix
    else if n == 7
    then irc
    else if n == 8
    then web_chat
    else if n == 9
    then teams
    else custom s

kind_of-tag : (k : ChannelKind) → kind_of (tag k) (custom_name k) ≡ k
kind_of-tag whats_app = refl
kind_of-tag telegram = refl
kind_of-tag discord = refl
kind_of-tag slack = refl
kind_of-tag signal = refl
kind_of-tag i_message = refl
kind_of-tag matrix = refl
kind_of-tag irc = refl
kind_of-tag web_chat = refl
kind_of-tag teams = refl
kind_of-tag (custom s) = refl

pub same_kind_refl : (k : ChannelKind) → same_kind k k ≡ true
same_kind_refl k = rw (==_refl (tag k), same_refl (custom_name k)) refl

pub same_kind_sound : {j k : ChannelKind} → same_kind j k ≡ true → j ≡ k
same_kind_sound {j} {k} e =
    let tags : tag j ≡ tag k = ground arith in
    let names : custom_name j ≡ custom_name k =
      ground (arith, same_iff (custom_name j) (custom_name k)) in
    sym (kind_of-tag j)
    ∙ ap (λ n. kind_of n (custom_name j)) tags
    ∙ ap (kind_of (tag k)) names
    ∙ kind_of-tag k

-- The key of a binding: `UNIQUE(channel_kind, handle)`.
abbrev pub same_handle : ChannelKind × Bytes → ChannelKind × Bytes → Bool
same_handle (j, s) (k, t) = same_kind j k && same s t

pub same_handle_refl : (k : ChannelKind × Bytes) → same_handle k k ≡ true
same_handle_refl (k, s) = rw (same_kind_refl k, same_refl s) refl

both : (a b : Bool) → (a && b) ≡ true → (a ≡ true) × (b ≡ true)
both true b e = (refl, e)
both false b e = cc

pub same_handle_sound : {j k : ChannelKind × Bytes} → same_handle j k ≡ true → j ≡ k
same_handle_sound {j = (j, s)} {k = (k, t)} e =
    let parts = both (same_kind j k) (same s t) e in
    let kinds : j ≡ k = same_kind_sound parts.0 in let texts : s ≡ t = same_sound parts.1 in cc

instance abbrev pub handle_key : HashKey (ChannelKind × Bytes)
handle_key = record {
  equals = same_handle;
  equals_refl = same_handle_refl;
  equals_sound = same_handle_sound;
}
