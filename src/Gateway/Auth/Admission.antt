-- ===== src/Gateway/Auth/Admission.antt =====
-- Whom the middleware of auth.rs lets pass.
use ngen_orca.Gateway.Auth.{
  AuthConfig, Request, CallerIdentity, IpAddr, AuthMode, none_mode, token_mode, password_mode,
  certificate_mode, trusted_proxy_mode, auth_middleware, IpAddr, AuthMode, none_mode,
  certificate_mode, is_exempt, token_auth, password_auth, certificate_auth, token_mode, anonymous,
  some_and, bearer_token, basic_credentials, trusted_proxy_mode, token_identity, password_mode,
  basic_parts, by_password, StatusCode, unauthorized, authenticate,
}
use ngen_orca.Base.Options.{◌>>=◌, some-parts}
use ngen_orca.Base.{
  Bytes, Option, ◌≡◌, some, true, none, codes, Mem, Option-cases, ok, refl, inl, Bool-cases, ◌∙◌,
  inr, ap, any-Mem, Result, subst, sym, err, any, if◌then◌else◌, same, same_sound,
}
use ngen_orca.Identity.Texts.{trim, strip_prefix}
use ngen_orca.WaBinary.Utf8.{is_utf8}
use ngen_orca.Identity.Texts.{split_once}
use ngen_orca.Identity.Manager.{is_some}
use ngen_orca.Gateway.Auth.Separated.{split_once-parts, split_once-Without}
use ngen_orca.Gateway.Auth.Shown.{
  OpenPath, health, metrics, root, webhook, UserPassword, with_colon, password_only, Shown,
  open_access, at_tls, bearer, basic, Admitted, exempt, shown,
}
use ngen_orca.Gateway.Auth.Separated.{strip_prefix-parts}
use ngen_orca.Gateway.Auth.Proxy.{some_and-parts, trusted_proxy-Shown}

module _ (parse_ip : Bytes → Option IpAddr) (decode_base64 : Bytes → Option Bytes) where
  is_some-parts : (o : Option Bytes) → is_some o ≡ true → (t : Bytes) × (o ≡ some t)
  is_some-parts none e = absurd cc
  is_some-parts (some t) e = (t, refl)

  is_exempt-OpenPath : (path : Bytes) → is_exempt parse_ip decode_base64 path ≡ true → OpenPath path
  unfolding is_exempt
  is_exempt-OpenPath path e = elim (Bool-cases (same path (codes "/health"))) [
    | inl f ↦ subst OpenPath (sym (same_sound f)) health
    | inr n1 ↦ elim (Bool-cases (same path (codes "/metrics"))) [
      | inl f ↦ subst OpenPath (sym (same_sound f)) metrics
      | inr n2 ↦ elim (Bool-cases (same path (codes "/"))) [
        | inl f ↦ subst OpenPath (sym (same_sound f)) root
        | inr n3 ↦
            let hook =
              is_some-parts (strip_prefix (codes "/webhooks/") path) (rw (n1, n2, n3) at e) in
            let whole = strip_prefix-parts (codes "/webhooks/") path hook.0 hook.1 in
            subst OpenPath (sym whole) (webhook hook.0)
      ]
    ]
  ]

  basic_parts-UserPassword :
      (creds : Bytes)
      → UserPassword creds
          (basic_parts parse_ip decode_base64 creds).0
          (basic_parts parse_ip decode_base64 creds).1
  unfolding basic_parts
  basic_parts-UserPassword creds = elim (Option-cases (split_once 58 creds)) [
    | inl f ↦ rw (f, basic_parts) (password_only creds (split_once-Without 58 creds f))
    | inr ((user, pass), f) ↦
        let (whole, free) = split_once-parts 58 creds user pass f in
        rw (f, basic_parts)
          (subst (λ k. UserPassword k user pass) (sym whole) (with_colon user pass free))
  ]

  token_auth-Shown :
      (config : AuthConfig) (request : Request) (caller : CallerIdentity)
      → token_auth parse_ip decode_base64 config request ≡ ok caller
      → Shown parse_ip decode_base64 config request token_mode caller
  unfolding token_auth bearer_token token_identity
  token_auth-Shown config request caller e =
      elim (Option-cases (bearer_token parse_ip decode_base64 request)) [
        | inl f ↦
            let bad : ◌≡◌ {A = Result StatusCode CallerIdentity} (err unauthorized) (ok caller) =
              rw (f, token_auth) at e in
            absurd cc
        | inr (t, f) ↦
            let (v, sent, f1) =
              some-parts (request.header (codes "authorization"))
                (λ v. strip_prefix (codes "Bearer ") v >>= λ s. some (trim s)) t f in
            let (s, cut, f2) =
              some-parts (strip_prefix (codes "Bearer ") v) (λ s. some (trim s)) t f1 in
            let trimmed : trim s ≡ t = cc in
            let as_sent = sent ∙ ap some (strip_prefix-parts (codes "Bearer ") v s cut) in
            elim (Bool-cases (any (λ valid. same valid t) config.auth_tokens)) [
              | inl g ↦
                  let (valid, member, eq) = any-Mem (λ valid. same valid t) config.auth_tokens g in
                  let e' : ◌≡◌ {A = Result StatusCode CallerIdentity}
                      (ok (token_identity parse_ip decode_base64)) (ok caller) =
                    rw (f, g, token_auth) at e in
                  let same_caller : token_identity parse_ip decode_base64 ≡ caller = cc in
                  subst (λ k. Shown parse_ip decode_base64 config request token_mode k) same_caller
                    (bearer s t as_sent trimmed
                      (subst (λ k. Mem k config.auth_tokens) (same_sound eq) member))
              | inr g ↦
                  let bad : ◌≡◌ {A = Result StatusCode CallerIdentity} (err unauthorized)
                      (ok caller) =
                    rw (f, g, token_auth) at e in
                  absurd cc
            ]
      ]

  basic_credentials-parts :
      (request : Request) (creds : Bytes)
      → basic_credentials parse_ip decode_base64 request ≡ some creds
      → (v : Bytes) × (b64 : Bytes) × (request.header (codes "authorization") ≡ some v)
        × (strip_prefix (codes "Basic ") v ≡ some b64)
        × (decode_base64 b64 ≡ some creds)
  unfolding basic_credentials
  basic_credentials-parts request creds f =
      let (v, sent, f1) =
        some-parts (request.header (codes "authorization"))
          (λ v. strip_prefix (codes "Basic ") v >>= λ b64.
            decode_base64 b64 >>= λ bytes. if is_utf8 bytes then some bytes else none)
          creds f in
      let (b64, cut, f2) =
        some-parts (strip_prefix (codes "Basic ") v)
          (λ b64. decode_base64 b64 >>= λ bytes. if is_utf8 bytes then some bytes else none) creds
          f1 in
      let (bytes, decoded, f3) =
        some-parts (decode_base64 b64) (λ bytes. if is_utf8 bytes then some bytes else none) creds
          f2 in
      elim (Bool-cases (is_utf8 bytes)) [
        | inl g ↦
            let same_bytes : some bytes ≡ some creds = rw g at f3 in
            (v, b64, sent, cut, decoded ∙ same_bytes)
        | inr g ↦ let bad : ◌≡◌ {A = Option Bytes} none (some creds) = rw g at f3 in absurd cc
      ]

  password_auth-Shown :
      (config : AuthConfig) (request : Request) (caller : CallerIdentity)
      → password_auth parse_ip decode_base64 config request ≡ ok caller
      → Shown parse_ip decode_base64 config request password_mode caller
  unfolding password_auth basic_credentials
  password_auth-Shown config request caller e =
      elim (Option-cases (basic_credentials parse_ip decode_base64 request)) [
        | inl f ↦
            let bad : ◌≡◌ {A = Result StatusCode CallerIdentity} (err unauthorized) (ok caller) =
              rw (f, password_auth) at e in
            absurd cc
        | inr (creds, f) ↦
            let (v, b64, sent, cut, decoded) = basic_credentials-parts request creds f in
            let as_sent = sent ∙ ap some (strip_prefix-parts (codes "Basic ") v b64 cut) in
            let user = (basic_parts parse_ip decode_base64 creds).0 in
            let pass = (basic_parts parse_ip decode_base64 creds).1 in
            elim (Bool-cases (some_and config.auth_password (λ expected. same expected pass))) [
              | inl g ↦
                  let (expected, set, eq) =
                    some_and-parts config.auth_password (λ expected. same expected pass) g in
                  let e' : ◌≡◌ {A = Result StatusCode CallerIdentity}
                      (ok (record anonymous { username = some user; auth_method = by_password }))
                      (ok caller) =
                    rw (f, g, password_auth) at e in
                  let same_caller : record anonymous {
                    username = some user;
                    auth_method = by_password;
                  }
                      ≡ caller =
                    cc in
                  subst (λ k. Shown parse_ip decode_base64 config request password_mode k)
                    same_caller
                    (basic b64 creds user pass as_sent decoded (basic_parts-UserPassword creds)
                      (set ∙ ap some (same_sound eq)))
              | inr g ↦
                  let bad : ◌≡◌ {A = Result StatusCode CallerIdentity} (err unauthorized)
                      (ok caller) =
                    rw (f, g, password_auth) at e in
                  absurd cc
            ]
      ]

  authenticate-Shown :
      (config : AuthConfig) (request : Request) (caller : CallerIdentity) (mode : AuthMode)
      → authenticate parse_ip decode_base64 config request mode ≡ ok caller
      → Shown parse_ip decode_base64 config request mode caller
  unfolding authenticate certificate_auth
  authenticate-Shown config request caller none_mode e =
      let same_caller : anonymous ≡ caller = cc in
      subst (λ k. Shown parse_ip decode_base64 config request none_mode k) same_caller open_access
  authenticate-Shown config request caller trusted_proxy_mode e =
      trusted_proxy-Shown parse_ip decode_base64 config request caller e
  authenticate-Shown config request caller token_mode e = token_auth-Shown config request caller e
  authenticate-Shown config request caller password_mode e =
      password_auth-Shown config request caller e
  authenticate-Shown config request caller certificate_mode e =
      let same_caller : certificate_auth parse_ip decode_base64 request ≡ caller = cc in
      subst (λ k. Shown parse_ip decode_base64 config request certificate_mode k) same_caller at_tls

  -- A caller that the middleware lets pass has the whole identity that its mode gives, and has shown what the
  -- mode asks for. A token is one that is configured, and a password is the configured one; they give a name
  -- and no groups. The proxy's user, address and groups are those of its headers, from a source that is listed
  -- by its address or its network (any source, if none is listed). A certificate is not checked here: its
  -- header gives the name. The paths of health, metrics, the root and what is below the webhooks are open, to
  -- an anonymous caller.
  pub auth_middleware-Admitted :
      (config : AuthConfig) (request : Request) (caller : CallerIdentity)
      → auth_middleware parse_ip decode_base64 config request ≡ ok caller
      → Admitted parse_ip decode_base64 config request caller
  unfolding auth_middleware
  auth_middleware-Admitted config request caller e =
      elim (Bool-cases (is_exempt parse_ip decode_base64 request.path)) [
        | inl f ↦
            let e' : ◌≡◌ {A = Result StatusCode CallerIdentity} (ok anonymous) (ok caller) =
              rw (f, auth_middleware) at e in
            let same_caller : anonymous ≡ caller = cc in
            subst (Admitted parse_ip decode_base64 config request) same_caller
              (exempt (is_exempt-OpenPath request.path f))
        | inr f ↦ shown caller (
            authenticate-Shown config request caller config.auth_mode
              (rw (f, auth_middleware) at e))
      ]
