-- ===== src/Proxy/Outbound.antt =====
-- internal/proxy/proxy.go: the header of a request to the upstream.
use remnaguard.Prelude.{
  String, true, false, not, none, some, List, [], ◌∷◌, ◌||◌, if◌then◌else◌, ◌==◌, ◌+++◌, ◌≡◌, refl,
  ap, ◌∙◌, arith, to_lower, All, find, Bool-cases, inl, inr,
}
use remnaguard.Config.Headers.{is_protected_lower, protected_outbound_header}
use remnaguard.Header.{Header, header_set, header_del}
use remnaguard.Httputil.Strip.{strip_hop_by_hop, is_stripped, hop_by_hop_names, names_key}
use remnaguard.Proxy.Defs.{Proxy, filter_headers, in_lower_set, set_all, outbound_header}
use remnaguard.Proxy.Protected.{
  find-header_set, IsUnprotected, unprotected_name, find-set_all, all_names, is_hop_by_hop,
  hop_by_hop_names_lem, authorization_protected,
}
use remnaguard.Proxy.Sent.{find-filter_headers, find-private}

hop_by_hop_parts :
    (key : String)
    → names_key hop_by_hop_names key ≡ true
    → (is_protected_lower key ≡ true)
      × (("accept-encoding" == key) ≡ false)
      × (("authorization" == key) ≡ false)
hop_by_hop_parts key named =
    let both : is_hop_by_hop key ≡ true =
      all_names is_hop_by_hop hop_by_hop_names key named hop_by_hop_names_lem in
    (ground (arith, both), ground (arith, both), ground (arith, both))

named-is_stripped :
    (h : Header) (key : String) → names_key hop_by_hop_names key ≡ true → is_stripped h key ≡ true
unfolding is_stripped
named-is_stripped h key named = ground (arith, named)

-- With extra headers that the validation accepts, a request that is not for a public subscription
-- goes to the upstream with one authorization, the guard's own bearer, and with none of the fixed
-- hop-by-hop and forwarding headers, whatever the client sent.
pub outbound_header_private :
    (p : Proxy) (h : Header)
    → IsUnprotected p.cfg.upstream.extra_headers
    → (find "authorization" (outbound_header p h false) ≡ some (("Bearer " +++ p.bearer) ∷ []))
      × ((key : String)
          → names_key hop_by_hop_names key ≡ true
          → find key (outbound_header p h false) ≡ none)
outbound_header_private p h free = (
  find-private p h "authorization" free authorization_protected refl,
  λ key named.
      let parts = hop_by_hop_parts key named in
      find-private p h key free parts.0 parts.1
      ∙ ap
          (λ b.
            if b
            then some (("Bearer " +++ p.bearer) ∷ [])
            else if is_stripped h key
            then none
            else find key h)
          parts.2
      ∙ ap (λ b. if b then none else find key h) (named-is_stripped h key named),
)

unprotected_allowed :
    (allowed : List String) (key : String)
    → All (λ n. protected_outbound_header n ≡ false) allowed
    → is_protected_lower key ≡ true
    → in_lower_set allowed key ≡ false
unfolding in_lower_set
unprotected_allowed [] key all_free p = refl
unprotected_allowed (n ∷ names) key (f, free) p =
    ground (arith, unprotected_name n key f p, unprotected_allowed names key free p)

-- With the allowlist, the extra headers and the authorization header that the validation accepts, the
-- request for a public subscription has no header of a protected name: the client's authorization and
-- cookies do not reach the upstream. The name is in lower case, as a header's keys are.
pub outbound_header_public :
    (p : Proxy) (h : Header) (key : String)
    → All (λ n. protected_outbound_header n ≡ false) p.cfg.public_subs.request_header_allowlist
    → IsUnprotected p.cfg.public_subs.extra_headers
    → (p.public_auth_name == "") || not (protected_outbound_header p.public_auth_name) ≡ true
    → is_protected_lower key ≡ true
    → to_lower key ≡ key
    → find key (outbound_header p h true) ≡ none
unfolding outbound_header
outbound_header_public p h key allowed free auth prot lower =
    let identity =
      header_set "Accept-Encoding" "identity" (header_del "Authorization" (strip_hop_by_hop h)) in
    let names = p.cfg.public_subs.request_header_allowlist in
    let filtered = filter_headers identity names in
    let extended = set_all p.cfg.public_subs.extra_headers filtered in
    let dropped : find key filtered ≡ none =
      find-filter_headers key identity names
      ∙ ap (λ k. if not (in_lower_set names k) then none else find key identity) lower
      ∙ ap (λ b. if not b then none else find key identity)
          (unprotected_allowed names key allowed prot) in
    let rest : find key extended ≡ none =
      find-set_all p.cfg.public_subs.extra_headers key filtered free prot ∙ dropped in
    elim (Bool-cases (p.public_auth_name == "")) [
      | inl e ↦
          ap
            (λ b.
              find key
                (if b then extended else header_set p.public_auth_name p.public_auth extended))
            e
          ∙ rest
      | inr e ↦
          ap
            (λ b.
              find key
                (if b then extended else header_set p.public_auth_name p.public_auth extended))
            e
          ∙ find-header_set p.public_auth_name p.public_auth key extended
          ∙ ap (λ b. if b then some (p.public_auth ∷ []) else find key extended)
              (unprotected_name p.public_auth_name key (ground (arith, auth, e)) prot)
          ∙ rest
    ]
