-- ===== src/Identity/Store.antt =====
-- ngenorca-identity/src/store.rs: the tables of the database and its statements. A table is the map from
-- its primary key, or its UNIQUE columns, to the rest of the row. SQLite, as rusqlite bundles it, enforces
-- the foreign keys: a binding for a user who is not there is refused. Otherwise the database does not fail,
-- and the texts that the store writes for roles, kinds and times are read back as they were.
pub mod Laws
use ngen_orca.Core.Identity.{
  DeviceBinding, ChannelBinding, UserIdentity, UserRole, ChannelKind, handle_key,
}
use ngen_orca.Base.{
  Bytes, List, [], insert, ℕ, Option, ◌∷◌, Bool, Result, lookup, text_key, if◌then◌else◌, modify,
  same, ok, some, err, none, false, remove, true,
}

pub data IdentityError : Type 0 where
  database : IdentityError
  request_not_found : Bytes → IdentityError
  already_done : Bytes → IdentityError
  request_expired : Bytes → IdentityError
  handle_conflict : Bytes → Bytes → IdentityError
  key_required : Bytes → IdentityError
  user_not_found : Bytes → IdentityError
  device_not_found : Bytes → IdentityError
  unauthorized : Bytes → IdentityError
  bad_base64 : IdentityError
  bad_public_key : IdentityError

-- A row of `users`.
pub record UserRow : Type 0 where
  pub display_name : Bytes
  pub role : UserRole
  pub created_at : ℕ
  pub last_seen : ℕ

pub record PairingRequest : Type 0 where
  pub request_id : Bytes
  pub channel_kind : Option ChannelKind
  pub handle : Option Bytes
  pub device_id : Option Bytes
  pub device_name : Option Bytes
  pub requested_user_id : Option Bytes
  pub requested_display_name : Option Bytes
  pub created_at : ℕ
  pub expires_at : ℕ
  pub completed_at : Option ℕ

pub record ChallengeRequest : Type 0 where
  pub request_id : Bytes
  pub user_id : Option Bytes
  pub device_id : Bytes
  pub nonce_b64 : Bytes
  pub reason : Bytes
  pub created_at : ℕ
  pub expires_at : ℕ
  pub verified_at : Option ℕ

-- A binding is kept with the user it is for.
pub record Tables : Type 0 where
  pub users : List (Bytes × UserRow)
  pub device_bindings : List (Bytes × (Bytes × DeviceBinding))
  pub channel_bindings : List ((ChannelKind × Bytes) × (Bytes × ChannelBinding))
  pub pairing_requests : List (Bytes × PairingRequest)
  pub challenge_requests : List (Bytes × ChallengeRequest)

unfoldable pub no_tables : Tables
no_tables = record {
  users = [];
  device_bindings = [];
  channel_bindings = [];
  pairing_requests = [];
  challenge_requests = [];
}

abbrev pub row_of : UserIdentity → UserRow
row_of u = record {
  display_name = u.display_name;
  role = u.role;
  created_at = u.created_at;
  last_seen = u.last_seen;
}

unfoldable pub save_user : Tables → UserIdentity → Tables
save_user t u = record t { users = insert u.user_id (row_of u) t.users }

-- `WHERE user_id = ?1` on the bindings, which keeps the binding of each row.
abbrev pub bound_to {ℓ} : {K A : Type ℓ} → Bytes → List (K × (Bytes × A)) → List A
bound_to user [] = []
bound_to user ((key, (other, a)) ∷ rows) =
    if same other user then a ∷ bound_to user rows else bound_to user rows

abbrev pub identity_of : Tables → Bytes → UserRow → UserIdentity
identity_of t user row = record {
  user_id = user;
  display_name = row.display_name;
  role = row.role;
  devices = bound_to user t.device_bindings;
  channels = bound_to user t.channel_bindings;
  created_at = row.created_at;
  last_seen = row.last_seen;
}

unfoldable pub get_user : Tables → Bytes → Option UserIdentity
get_user t user = elim (lookup user t.users) [
  | none ↦ none
  | some row ↦ some (identity_of t user row)
]

unfoldable pub find_by_device : Tables → Bytes → Option UserIdentity
find_by_device t device_id = elim (lookup device_id t.device_bindings) [
  | none ↦ none
  | some row ↦ get_user t row.0
]

unfoldable pub find_by_channel : Tables → ChannelKind → Bytes → Option UserIdentity
find_by_channel t kind handle = elim (lookup (kind, handle) t.channel_bindings) [
  | none ↦ none
  | some row ↦ get_user t row.0
]

-- `REFERENCES users(user_id)`.
abbrev pub is_user : Tables → Bytes → Bool
is_user t user = elim (lookup user t.users) [ none ↦ false | some _ ↦ true ]

unfoldable pub add_device : Tables → Bytes → DeviceBinding → Result IdentityError Tables
add_device t user d =
    if is_user t user
    then ok (record t { device_bindings = insert d.device_id (user, d) t.device_bindings })
    else err database

unfoldable pub add_channel : Tables → Bytes → ChannelBinding → Result IdentityError Tables
add_channel t user c =
    if is_user t user
    then ok (record t {
      channel_bindings = insert (c.channel_kind, c.handle) (user, c) t.channel_bindings;
    })
    else err database

unfoldable pub remove_device : Tables → Bytes → Bytes → Tables
remove_device t user device_id = elim (lookup device_id t.device_bindings) [
  | none ↦ t
  | some row ↦
      if same row.0 user
      then record t { device_bindings = remove device_id t.device_bindings }
      else t
]

unfoldable pub save_pairing_request : Tables → PairingRequest → Tables
save_pairing_request t r = record t { pairing_requests = insert r.request_id r t.pairing_requests }

unfoldable pub get_pairing_request : Tables → Bytes → Option PairingRequest
get_pairing_request t id = lookup id t.pairing_requests

unfoldable pub mark_pairing_request_completed : Tables → Bytes → ℕ → Tables
mark_pairing_request_completed t id now = record t {
  pairing_requests = modify id (λ r. record r { completed_at = some now }) t.pairing_requests;
}

unfoldable pub save_challenge_request : Tables → ChallengeRequest → Tables
save_challenge_request t r = record t {
  challenge_requests = insert r.request_id r t.challenge_requests;
}

unfoldable pub get_challenge_request : Tables → Bytes → Option ChallengeRequest
get_challenge_request t id = lookup id t.challenge_requests

unfoldable pub mark_challenge_request_verified : Tables → Bytes → ℕ → Tables
mark_challenge_request_verified t id now = record t {
  challenge_requests = modify id (λ r. record r { verified_at = some now }) t.challenge_requests;
}
