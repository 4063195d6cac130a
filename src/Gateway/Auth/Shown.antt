-- ===== src/Gateway/Auth/Shown.antt =====
-- What a request has to show to pass the middleware of auth.rs, and whom it is then taken for.
use ngen_orca.Base.{
  Bytes, List, Option, ℕ, none, some, [], ◌∷◌, ◌++◌, ◌≡◌, codes, true, Mem, map, All,
}
use ngen_orca.Gateway.Auth.{
  AuthConfig, Request, CallerIdentity, IpAddr, AuthMode, AuthMethod, none_mode, token_mode,
  by_nothing, password_mode, certificate_mode, trusted_proxy_mode, by_certificate, by_token,
  by_password, by_trusted_proxy, ip_in_cidr, parse_u32,
}
use ngen_orca.Gateway.Auth.Separated.{Without, joined}
use ngen_orca.Identity.Texts.{trim}

-- A caller with no address and no groups.
abbrev pub plain : AuthMethod → Option Bytes → CallerIdentity
plain how name = record { username = name; email = none; groups = []; auth_method = how }

-- The paths that are open to anyone.
pub data OpenPath : Bytes → Type 0 where
  health : OpenPath (codes "/health")
  metrics : OpenPath (codes "/metrics")
  root : OpenPath (codes "/")
  webhook : (rest : Bytes) → OpenPath (codes "/webhooks/" ++ rest)

-- The groups of a header: its parts between commas, trimmed.
pub data Groups : Option Bytes → List Bytes → Type 0 where
  no_header : Groups none []
  in_header :
      (part : Bytes) (parts : List Bytes)
      → All (Without 44) (part ∷ parts)
      → Groups (some (joined 44 part parts)) (map trim (part ∷ parts))

-- The name and the password of basic credentials: what is before the first colon and after it.
pub data UserPassword : Bytes → Bytes → Bytes → Type 0 where
  with_colon : (user pass : Bytes) → Without 58 user → UserPassword (user ++ 58 ∷ pass) user pass
  password_only : (pass : Bytes) → Without 58 pass → UserPassword pass (codes "anonymous") pass

module _ (parse_ip : Bytes → Option IpAddr) (decode_base64 : Bytes → Option Bytes) where
  -- The entry, a network and a length or an address, that lets an address set the headers of the proxy.
  pub data Listed (ip : IpAddr) : Bytes → Type 0 where
    in_block :
        (net prefix_len : Bytes) (network : IpAddr) (bits : ℕ)
        → Without 47 net
        → parse_ip net ≡ some network
        → parse_u32 prefix_len ≡ some bits
        → ip_in_cidr ip network bits ≡ true
        → Listed ip (net ++ 47 ∷ prefix_len)
    is_entry : (entry : Bytes) → parse_ip entry ≡ some ip → Listed ip entry

  pub data FromProxy (config : AuthConfig) (request : Request) : Type 0 where
    any_source : config.trusted_proxy_sources ≡ [] → FromProxy config request
    listed :
        (ip : IpAddr) (entry : Bytes)
        → request.source ≡ some ip
        → Mem entry config.trusted_proxy_sources
        → Listed ip entry
        → FromProxy config request

  -- What each mode asks for, and the identity that it gives.
  pub data Shown (config : AuthConfig) (request : Request)
      : AuthMode → CallerIdentity → Type 0 where
    open_access : Shown config request none_mode (plain by_nothing none)
    at_tls :
        Shown config request certificate_mode
          (plain by_certificate (request.header (codes "x-client-cn")))
    bearer :
        (v token : Bytes)
        → request.header (codes "authorization") ≡ some (codes "Bearer " ++ v)
        → trim v ≡ token
        → Mem token config.auth_tokens
        → Shown config request token_mode (plain by_token (some (codes "token-user")))
    basic :
        (v creds user pass : Bytes)
        → request.header (codes "authorization") ≡ some (codes "Basic " ++ v)
        → decode_base64 v ≡ some creds
        → UserPassword creds user pass
        → config.auth_password ≡ some pass
        → Shown config request password_mode (plain by_password (some user))
    proxied :
        (user : Bytes) (groups : List Bytes)
        → FromProxy config request
        → request.header config.proxy_user_header ≡ some user
        → Groups (request.header config.proxy_groups_header) groups
        → Shown config request trusted_proxy_mode (record {
          username = some user;
          email = request.header config.proxy_email_header;
          groups = groups;
          auth_method = by_trusted_proxy;
        })

  -- What a request that passes has shown: nothing, on the open paths.
  pub data Admitted (config : AuthConfig) (request : Request) : CallerIdentity → Type 0 where
    exempt : OpenPath request.path → Admitted config request (plain by_nothing none)
    shown :
        (caller : CallerIdentity)
        → Shown config request config.auth_mode caller
        → Admitted config request caller
