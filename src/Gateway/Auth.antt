-- ===== src/Gateway/Auth.antt =====
-- ngenorca-gateway/src/auth.rs, and `AuthMode` of ngenorca-config/src/lib.rs. A text is its UTF-8 bytes,
-- on which `==` of texts and the constant-time comparison agree. The middleware answers the caller's
-- identity or a status; passing the request on is the caller's part. What a `HeaderMap` answers, base64 and
-- the parser of addresses are arguments.
pub mod Cidr
pub mod Separated
pub mod Shown
pub mod Proxy
pub mod Admission
mod Tests
use ngen_orca.Base.Options.{◌>>=◌}
use ngen_orca.Identity.Texts.{split, trim, strip_prefix, split_once}
use ngen_orca.Base.{
  Option, none, ℕ, Bytes, Bool, List, [], suc, ◌^◌, if◌then◌else◌, false, ◌==◌, some, same, Result,
  codes, ◌*◌, ◌-◌, leb, ◌∷◌, any, ◌||◌, true, map, err, ok, ◌/◌, ◌%◌, ltb, ◌&&◌, ◌+◌, zero,
}
use ngen_orca.Identity.Manager.{is_some}
use ngen_orca.WaBinary.Utf8.{is_utf8}

pub data AuthMode : Type 0 where
  none_mode : AuthMode
  password_mode : AuthMode
  token_mode : AuthMode
  certificate_mode : AuthMode
  trusted_proxy_mode : AuthMode

pub data AuthMethod : Type 0 where
  by_nothing : AuthMethod
  by_trusted_proxy : AuthMethod
  by_token : AuthMethod
  by_password : AuthMethod
  by_certificate : AuthMethod

pub record CallerIdentity : Type 0 where
  pub username : Option Bytes
  pub email : Option Bytes
  pub groups : List Bytes
  pub auth_method : AuthMethod

abbrev pub anonymous : CallerIdentity
anonymous = record { username = none; email = none; groups = []; auth_method = by_nothing }

-- `IpAddr` as its bits: 32 and 128 of them.
pub data IpAddr : Type 0 where
  v4 : ℕ → IpAddr
  v6 : ℕ → IpAddr

-- The fields of `GatewayConfig` that the middleware reads.
pub record AuthConfig : Type 0 where
  pub auth_mode : AuthMode
  pub proxy_user_header : Bytes
  pub proxy_email_header : Bytes
  pub proxy_groups_header : Bytes
  pub auth_password : Option Bytes
  pub auth_tokens : List Bytes
  pub trusted_proxy_sources : List Bytes

-- `header` is `headers.get(..)` where the value is visible ASCII; the source is the `ConnectInfo`.
pub record Request : Type 0 where
  pub path : Bytes
  pub source : Option IpAddr
  pub header : Bytes → Option Bytes

pub data StatusCode : Type 0 where
  unauthorized : StatusCode
  forbidden : StatusCode

-- `a & b` on w bits.
unfoldable pub bit_and : ℕ → ℕ → ℕ → ℕ
bit_and zero a b = 0
bit_and (suc w) a b = 2 * bit_and w (a / 2) (b / 2) + (a % 2) * (b % 2)

-- `!0 << k` on w bits.
unfoldable pub shifted_ones : ℕ → ℕ → ℕ
shifted_ones w k = (2 ^ w - 1) * 2 ^ k % 2 ^ w

unfoldable pub in_prefix : ℕ → ℕ → ℕ → ℕ → Bool
in_prefix w ip net prefix_len =
    let mask = if prefix_len == 0 then 0 else shifted_ones w (w - prefix_len) in
    if ltb w prefix_len then false else bit_and w ip mask == bit_and w net mask

unfoldable pub ip_in_cidr : IpAddr → IpAddr → ℕ → Bool
ip_in_cidr (v4 ip) (v4 net) prefix_len = in_prefix 32 ip net prefix_len
ip_in_cidr (v6 ip) (v6 net) prefix_len = in_prefix 128 ip net prefix_len
ip_in_cidr (v4 _) (v6 _) _ = false
ip_in_cidr (v6 _) (v4 _) _ = false

unfoldable pub same_ip : IpAddr → IpAddr → Bool
same_ip (v4 a) (v4 b) = a == b
same_ip (v6 a) (v6 b) = a == b
same_ip (v4 _) (v6 _) = false
same_ip (v6 _) (v4 _) = false

-- The digits that follow a value, which stays below 2 ^ 32.
unfoldable pub digits_u32 : ℕ → Bytes → Option ℕ
digits_u32 v [] = some v
digits_u32 v (c ∷ s) =
    let v' = v * 10 + (c - 48) in
    let rest = digits_u32 v' s in if leb 48 c && leb c 57 && ltb v' (2 ^ 32) then rest else none

-- A plus sign in front is no digit.
abbrev without_plus : Bytes → Bytes
without_plus [] = []
without_plus (c ∷ s) = if c == 43 then s else c ∷ s

-- `str::parse::<u32>`.
unfoldable pub parse_u32 : Bytes → Option ℕ
parse_u32 s = elim (without_plus s) [ [] ↦ none | c ∷ rest ↦ digits_u32 0 (c ∷ rest) ]

-- `is_some_and(|x| p(x))`.
abbrev pub some_and {ℓ} : {A : Type ℓ} → Option A → (A → Bool) → Bool
some_and none p = false
some_and (some a) p = p a

module _ (parse_ip : Bytes → Option IpAddr) (decode_base64 : Bytes → Option Bytes) where
  -- The network and the length of an entry that is in CIDR notation.
  unfoldable pub cidr_entry : Bytes → Option (IpAddr × ℕ)
  cidr_entry entry = do
    (net_str, prefix_str) ← split_once 47 entry
    network ← parse_ip net_str
    prefix_len ← parse_u32 prefix_str
    some (network, prefix_len)

  unfoldable pub entry_matches : IpAddr → Bytes → Bool
  entry_matches source_ip entry = elim (cidr_entry entry) [
    | some (network, prefix_len) ↦ ip_in_cidr source_ip network prefix_len
    | none ↦ some_and (parse_ip entry) (λ a. same_ip a source_ip)
  ]

  unfoldable pub ip_matches_allowlist : IpAddr → List Bytes → Bool
  ip_matches_allowlist source_ip allowed = any (entry_matches source_ip) allowed

  unfoldable pub is_exempt : Bytes → Bool
  is_exempt path =
      same path (codes "/health")
      || same path (codes "/metrics")
      || same path (codes "/")
      || is_some (strip_prefix (codes "/webhooks/") path)

  -- The connections that may set the headers of the proxy.
  unfoldable pub is_trusted : AuthConfig → Request → Bool
  is_trusted config request = elim config.trusted_proxy_sources [
    | [] ↦ true
    | entry ∷ more ↦ some_and request.source (λ ip. ip_matches_allowlist ip (entry ∷ more))
  ]

  unfoldable pub proxy_identity : AuthConfig → Request → Bytes → CallerIdentity
  proxy_identity config request user = record {
    username = some user;
    email = request.header config.proxy_email_header;
    groups = elim (request.header config.proxy_groups_header) [
      | none ↦ []
      | some s ↦ map trim (split 44 s)
    ];
    auth_method = by_trusted_proxy;
  }

  unfoldable pub trusted_proxy : AuthConfig → Request → Result StatusCode CallerIdentity
  trusted_proxy config request =
      if is_trusted config request
      then elim (request.header config.proxy_user_header) [
        | none ↦ err unauthorized
        | some user ↦ ok (proxy_identity config request user)
      ]
      else err forbidden

  unfoldable pub bearer_token : Request → Option Bytes
  bearer_token request = do
    v ← request.header (codes "authorization")
    t ← strip_prefix (codes "Bearer ") v
    some (trim t)

  unfoldable pub token_identity : CallerIdentity
  token_identity = record anonymous { username = some (codes "token-user"); auth_method = by_token }

  unfoldable pub token_auth : AuthConfig → Request → Result StatusCode CallerIdentity
  token_auth config request = elim (bearer_token request) [
    | none ↦ err unauthorized
    | some t ↦
        if any (λ valid. same valid t) config.auth_tokens
        then ok token_identity
        else err unauthorized
  ]

  -- The name and the password: without a colon all of it is the password.
  unfoldable pub basic_parts : Bytes → Bytes × Bytes
  basic_parts creds = elim (split_once 58 creds) [
    | none ↦ (codes "anonymous", creds)
    | some parts ↦ parts
  ]

  unfoldable pub basic_credentials : Request → Option Bytes
  basic_credentials request = do
    v ← request.header (codes "authorization")
    b64 ← strip_prefix (codes "Basic ") v
    bytes ← decode_base64 b64
    if is_utf8 bytes then some bytes else none

  unfoldable pub password_auth : AuthConfig → Request → Result StatusCode CallerIdentity
  password_auth config request = elim (basic_credentials request) [
    | none ↦ err unauthorized
    | some creds ↦
        let (user, pass) = basic_parts creds in
        if some_and config.auth_password (λ expected. same expected pass)
        then ok (record anonymous { username = some user; auth_method = by_password })
        else err unauthorized
  ]

  unfoldable pub certificate_auth : Request → CallerIdentity
  certificate_auth request = record anonymous {
    username = request.header (codes "x-client-cn");
    auth_method = by_certificate;
  }

  unfoldable pub authenticate : AuthConfig → Request → AuthMode → Result StatusCode CallerIdentity
  authenticate config request none_mode = ok anonymous
  authenticate config request trusted_proxy_mode = trusted_proxy config request
  authenticate config request token_mode = token_auth config request
  authenticate config request password_mode = password_auth config request
  authenticate config request certificate_mode = ok (certificate_auth request)

  unfoldable pub auth_middleware : AuthConfig → Request → Result StatusCode CallerIdentity
  auth_middleware config request =
      if is_exempt request.path then ok anonymous else authenticate config request config.auth_mode
