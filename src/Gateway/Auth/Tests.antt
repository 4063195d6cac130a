-- ===== src/Gateway/Auth/Tests.antt =====
-- Addresses, and requests to the middleware, with a parser of the two addresses that they name.
use ngen_orca.Base.{
  refl, Bytes, some, Option, codes, ◌≡◌, [], if◌then◌else◌, none, true, same, ◌∷◌, err, ◌↔◌, arith,
}
use ngen_orca.Gateway.Auth.Cidr.{Fits, SamePrefix, ip_in_cidr_iff}
use ngen_orca.Gateway.Auth.Shown.{Admitted}
use ngen_orca.Gateway.Auth.Admission.{auth_middleware-Admitted}
use ngen_orca.Gateway.Auth.{
  ip_in_cidr, AuthConfig, Request, CallerIdentity, auth_middleware, v4, trusted_proxy_mode, IpAddr,
  by_trusted_proxy, forbidden,
}

-- 10.1.2.3 and 10.0.0.0.
ip_in_cidr_iff_example :
    (ip_in_cidr (v4 167838211) (v4 167772160) 8 ≡ true) ↔ SamePrefix (v4 167838211) (v4 167772160) 8
unfolding Fits
ip_in_cidr_iff_example = ip_in_cidr_iff (v4 167838211) (v4 167772160) 8 (omega arith) (omega arith)

abbrev parse_two : Bytes → Option IpAddr
parse_two s =
    if same s (codes "10.0.0.0")
    then some (v4 167772160)
    else if same s (codes "10.1.2.3")
    then some (v4 167838211)
    else none

abbrev config : AuthConfig
config = record {
  auth_mode = trusted_proxy_mode;
  proxy_user_header = codes "Remote-User";
  proxy_email_header = codes "Remote-Email";
  proxy_groups_header = codes "Remote-Groups";
  auth_password = some (codes "x");
  auth_tokens = [];
  trusted_proxy_sources = codes "10.0.0.0/8" ∷ [];
}

abbrev headers : Bytes → Option Bytes
headers name =
    if same name (codes "Remote-User")
    then some (codes "ann")
    else if same name (codes "Remote-Groups")
    then some (codes "a, b")
    else none

abbrev request : Request
request = record { path = codes "/chat"; source = some (v4 167838211); header = headers }

abbrev ann : CallerIdentity
ann = record {
  username = some (codes "ann");
  email = none;
  groups = codes "a" ∷ codes "b" ∷ [];
  auth_method = by_trusted_proxy;
}

auth_middleware-Admitted_example : Admitted parse_two some config request ann
unfolding ngen_orca.Gateway.Auth.bit_and ngen_orca.Gateway.Auth.shifted_ones
    ngen_orca.Gateway.Auth.in_prefix ngen_orca.Gateway.Auth.ip_in_cidr
    ngen_orca.Gateway.Auth.same_ip ngen_orca.Gateway.Auth.digits_u32
    ngen_orca.Gateway.Auth.parse_u32 ngen_orca.Identity.Texts.split
    ngen_orca.Gateway.Auth.cidr_entry ngen_orca.Gateway.Auth.entry_matches
    ngen_orca.Gateway.Auth.ip_matches_allowlist ngen_orca.Gateway.Auth.is_exempt
    ngen_orca.Gateway.Auth.is_trusted ngen_orca.Gateway.Auth.proxy_identity
    ngen_orca.Gateway.Auth.trusted_proxy ngen_orca.Gateway.Auth.bearer_token
    ngen_orca.Gateway.Auth.token_identity ngen_orca.Gateway.Auth.token_auth
    ngen_orca.Gateway.Auth.basic_parts ngen_orca.Gateway.Auth.basic_credentials
    ngen_orca.Gateway.Auth.password_auth ngen_orca.Gateway.Auth.certificate_auth
    ngen_orca.Gateway.Auth.authenticate ngen_orca.Gateway.Auth.auth_middleware
    ngen_orca.Identity.Texts.trim_start ngen_orca.Identity.Texts.trim_end
    ngen_orca.Identity.Texts.trim ngen_orca.Identity.Texts.strip_prefix
    ngen_orca.Identity.Texts.strip_last ngen_orca.Identity.Texts.trim_matches_from
    ngen_orca.Identity.Texts.trim_start_matches ngen_orca.Identity.Texts.split_once
auth_middleware-Admitted_example = auth_middleware-Admitted parse_two some config request ann refl

far_away :
    auth_middleware parse_two some config (record request { source = some (v4 5) }) ≡ err forbidden
unfolding ngen_orca.Gateway.Auth.bit_and ngen_orca.Gateway.Auth.shifted_ones
    ngen_orca.Gateway.Auth.in_prefix ngen_orca.Gateway.Auth.ip_in_cidr
    ngen_orca.Gateway.Auth.same_ip ngen_orca.Gateway.Auth.digits_u32
    ngen_orca.Gateway.Auth.parse_u32 ngen_orca.Identity.Texts.split
    ngen_orca.Gateway.Auth.cidr_entry ngen_orca.Gateway.Auth.entry_matches
    ngen_orca.Gateway.Auth.ip_matches_allowlist ngen_orca.Gateway.Auth.is_exempt
    ngen_orca.Gateway.Auth.is_trusted ngen_orca.Gateway.Auth.proxy_identity
    ngen_orca.Gateway.Auth.trusted_proxy ngen_orca.Gateway.Auth.bearer_token
    ngen_orca.Gateway.Auth.token_identity ngen_orca.Gateway.Auth.token_auth
    ngen_orca.Gateway.Auth.basic_parts ngen_orca.Gateway.Auth.basic_credentials
    ngen_orca.Gateway.Auth.password_auth ngen_orca.Gateway.Auth.certificate_auth
    ngen_orca.Gateway.Auth.authenticate ngen_orca.Gateway.Auth.auth_middleware
    ngen_orca.Identity.Texts.trim_start ngen_orca.Identity.Texts.trim_end
    ngen_orca.Identity.Texts.trim ngen_orca.Identity.Texts.strip_prefix
    ngen_orca.Identity.Texts.strip_last ngen_orca.Identity.Texts.trim_matches_from
    ngen_orca.Identity.Texts.trim_start_matches ngen_orca.Identity.Texts.split_once
far_away = refl
