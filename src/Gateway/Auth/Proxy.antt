-- ===== src/Gateway/Auth/Proxy.antt =====
-- The proxies that auth.rs trusts, and the caller that their headers name.
use ngen_orca.Gateway.Auth.{
  AuthConfig, Request, CallerIdentity, IpAddr, v4, v6, trusted_proxy_mode, IpAddr, cidr_entry,
  ip_in_cidr, same_ip, entry_matches, is_trusted, trusted_proxy, some_and, ip_matches_allowlist,
  proxy_identity, trusted_proxy_mode, StatusCode, unauthorized, forbidden,
}
use ngen_orca.Base.Options.{◌>>=◌, some-parts}
use ngen_orca.Base.{
  Bytes, Option, ℕ, ◌≡◌, [], some, true, none, Mem, Bool, Option-cases, ok, ◌∷◌, refl, inl,
  list-cases, Bool-cases, ◌∙◌, inr, ap, any-Mem, Result, ==_iff, subst, sym, err, same,
}
use ngen_orca.Identity.Texts.{trim}
use ngen_orca.Identity.Texts.{split, split_once}
use ngen_orca.Base.{map}
use ngen_orca.Gateway.Auth.{parse_u32}
use ngen_orca.Gateway.Auth.Separated.{split_once-parts, split-Parts}
use ngen_orca.Gateway.Auth.Shown.{
  Groups, no_header, in_header, Listed, in_block, is_entry, FromProxy, any_source, listed, Shown,
  proxied,
}

pub some_and-parts {ℓ} :
    {A : Type ℓ} (o : Option A) (p : A → Bool)
    → some_and o p ≡ true
    → (a : A) × (o ≡ some a) × (p a ≡ true)
some_and-parts none p e = absurd cc
some_and-parts (some a) p e = (a, refl, e)

same_ip_sound : (a b : IpAddr) → same_ip a b ≡ true → a ≡ b
unfolding same_ip
same_ip_sound (v4 a) (v4 b) e = ap v4 ((==_iff a b).0 e)
same_ip_sound (v6 a) (v6 b) e = ap v6 ((==_iff a b).0 e)
same_ip_sound (v4 a) (v6 b) e = absurd cc
same_ip_sound (v6 a) (v4 b) e = absurd cc

header-Groups :
    (header : Option Bytes)
    → Groups header (elim header [ none ↦ [] | some s ↦ map trim (split 44 s) ])
header-Groups none = no_header
header-Groups (some s) =
    let p = split-Parts 44 s in
    let known = in_header p.part p.parts p.free in
    subst (λ k. Groups (some s) (map trim k)) (sym p.are)
      (subst (λ k. Groups (some k) (map trim (p.part ∷ p.parts))) (sym p.joins) known)

module _ (parse_ip : Bytes → Option IpAddr) (decode_base64 : Bytes → Option Bytes) where
  cidr_entry-Listed :
      (ip : IpAddr) (entry : Bytes) (network : IpAddr) (bits : ℕ)
      → cidr_entry parse_ip decode_base64 entry ≡ some (network, bits)
      → ip_in_cidr ip network bits ≡ true
      → Listed parse_ip decode_base64 ip entry
  unfolding cidr_entry
  cidr_entry-Listed ip entry network bits e inside =
      let ((net, len_str), cut, e1) =
        some-parts (split_once 47 entry)
          (λ p. parse_ip p.0 >>= λ n. parse_u32 p.1 >>= λ l. some (n, l)) (network, bits) e in
      let (n, parsed, e2) =
        some-parts (parse_ip net) (λ n. parse_u32 len_str >>= λ l. some (n, l)) (network, bits)
          e1 in
      let (l, read, e3) = some-parts (parse_u32 len_str) (λ l. some (n, l)) (network, bits) e2 in
      let same_net : n ≡ network = cc in
      let same_bits : l ≡ bits = cc in
      let (whole, free) = split_once-parts 47 entry net len_str cut in
      subst (Listed parse_ip decode_base64 ip) (sym whole) (
        in_block net len_str network bits free (parsed ∙ ap some same_net)
          (read ∙ ap some same_bits) inside)

  entry_matches-Listed :
      (ip : IpAddr) (entry : Bytes)
      → entry_matches parse_ip decode_base64 ip entry ≡ true
      → Listed parse_ip decode_base64 ip entry
  unfolding entry_matches
  entry_matches-Listed ip entry e = elim (Option-cases (cidr_entry parse_ip decode_base64 entry)) [
    | inl f ↦
        let (a, parsed, same) =
          some_and-parts (parse_ip entry) (λ a. same_ip a ip) (rw (f, entry_matches) at e) in
        is_entry entry (parsed ∙ ap some (same_ip_sound a ip same))
    | inr ((network, prefix_len), f) ↦
        cidr_entry-Listed ip entry network prefix_len f (rw (f, entry_matches) at e)
  ]

  is_trusted-FromProxy :
      (config : AuthConfig) (request : Request)
      → is_trusted parse_ip decode_base64 config request ≡ true
      → FromProxy parse_ip decode_base64 config request
  unfolding is_trusted ip_matches_allowlist
  is_trusted-FromProxy config request e = elim (list-cases config.trusted_proxy_sources) [
    | inl f ↦ any_source f
    | inr (entry, more, f) ↦
        let (ip, known, found) =
          some_and-parts request.source
            (λ ip. ip_matches_allowlist parse_ip decode_base64 ip (entry ∷ more)) (rw f at e) in
        let (at, member, matches) =
          any-Mem (entry_matches parse_ip decode_base64 ip) (entry ∷ more) found in
        listed ip at known (subst (λ l. Mem at l) (sym f) member)
          (entry_matches-Listed ip at matches)
  ]

  pub trusted_proxy-Shown :
      (config : AuthConfig) (request : Request) (caller : CallerIdentity)
      → trusted_proxy parse_ip decode_base64 config request ≡ ok caller
      → Shown parse_ip decode_base64 config request trusted_proxy_mode caller
  unfolding trusted_proxy proxy_identity
  trusted_proxy-Shown config request caller e =
      elim (Bool-cases (is_trusted parse_ip decode_base64 config request)) [
        | inl f ↦ elim (Option-cases (request.header config.proxy_user_header)) [
          | inl g ↦
              let bad : ◌≡◌ {A = Result StatusCode CallerIdentity} (err unauthorized) (ok caller) =
                rw (f, g) at e in
              absurd cc
          | inr (user, g) ↦
              let e' : ◌≡◌ {A = Result StatusCode CallerIdentity}
                  (ok (proxy_identity parse_ip decode_base64 config request user)) (ok caller) =
                sym (simp (f, g)) ∙ e in
              let same : proxy_identity parse_ip decode_base64 config request user ≡ caller = cc in
              subst (λ k. Shown parse_ip decode_base64 config request trusted_proxy_mode k) same
                (proxied user _ (is_trusted-FromProxy config request f) g
                  (header-Groups (request.header config.proxy_groups_header)))
        ]
        | inr f ↦
            let bad : ◌≡◌ {A = Result StatusCode CallerIdentity} (err forbidden) (ok caller) =
              rw f at e in
            absurd cc
      ]
