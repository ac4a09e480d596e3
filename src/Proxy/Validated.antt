-- ===== src/Proxy/Validated.antt =====
-- internal/proxy/proxy.go: New, and the requests that a proxy for an accepted configuration sends.
use remnaguard.Prelude.{
  String, true, false, none, some, [], ◌∷◌, ◌+++◌, ◌==◌, ◌≡◌, find, to_lower, has_prefix,
  trim_space,
}
use remnaguard.Config.{Config}
use remnaguard.Config.Headers.{is_protected_lower}
use remnaguard.Config.Parts.{System}
use remnaguard.Config.Validate.{validate, resolve_bearer}
use remnaguard.Config.Valid.{validate-IsValid}
use remnaguard.Header.{Header, header_values}
use remnaguard.Httputil.Strip.{names_key, hop_by_hop_names, connection_names}
use remnaguard.Proxy.Defs.{Proxy, outbound_header}
use remnaguard.Proxy.Outbound.{outbound_header_private, outbound_header_public}
use remnaguard.Proxy.Sent.{outbound_header_forwarded, outbound_header_listed}
use remnaguard.Proxy.Protected.{sets_key}

-- New, less the settings of TLS
unfoldable pub new_proxy : System → Config → Proxy
new_proxy sys cfg = record {
  cfg = cfg;
  bearer = resolve_bearer sys cfg.upstream;
  public_auth = trim_space (sys.getenv cfg.public_subs.auth_header_env);
  public_auth_name = cfg.public_subs.auth_header_name;
}

-- What the requests of a proxy have, whatever header a client sends.
pub record IsConfined (sys : System) (p : Proxy) (h : Header) : Type 0 where
  pub bearer : (p.bearer == "") ≡ false
  pub authorization :
      find "authorization" (outbound_header p h false) ≡ some (("Bearer " +++ p.bearer) ∷ [])
  pub hop_by_hop :
      (key : String)
      → names_key hop_by_hop_names key ≡ true
      → find key (outbound_header p h false) ≡ none
  pub forwarded :
      (key : String)
      → has_prefix key "x-forwarded-" ≡ true
      → to_lower key ≡ key
      → find key (outbound_header p h false) ≡ none
  pub listed :
      (key : String)
      → names_key (connection_names (header_values h "Connection")) key ≡ true
      → ("authorization" == key) ≡ false
      → ("accept-encoding" == key) ≡ false
      → sets_key p.cfg.upstream.extra_headers key ≡ false
      → find key (outbound_header p h false) ≡ none
  pub protected :
      (key : String)
      → is_protected_lower key ≡ true
      → to_lower key ≡ key
      → find key (outbound_header p h true) ≡ none

-- If Validate accepts the configuration of a proxy that New makes, then whatever header a client sends, the
-- request to the upstream has one authorization, the configured bearer, which is not blank, none of
-- the fixed hop-by-hop and forwarding headers, no header whose name begins with "x-forwarded-", and,
-- but for the guard's own authorization, its accept-encoding and the upstream's extra headers, none
-- that the client's Connection lists; and for a public subscription it has no protected header at
-- all, in particular neither the client's authorization nor its cookies.
pub new_proxy-IsConfined :
    (sys : System) (cfg : Config) (h : Header)
    → validate sys cfg ≡ none
    → IsConfined sys (new_proxy sys cfg) h
unfolding new_proxy
new_proxy-IsConfined sys cfg h ok =
    let p = new_proxy sys cfg in
    let valid = validate-IsValid sys cfg ok in
    let private = outbound_header_private p h valid.upstream_headers in
    record {
      bearer = valid.bearer;
      authorization = private.0;
      hop_by_hop = private.1;
      forwarded = λ key. outbound_header_forwarded p h key valid.upstream_headers;
      listed =
          λ key named not_auth other free. outbound_header_listed p h key free other not_auth named;
      protected = λ key prot lower.
          outbound_header_public p h key valid.request_names valid.public_headers valid.auth_name
            prot lower;
    }
