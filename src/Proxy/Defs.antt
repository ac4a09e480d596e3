-- ===== src/Proxy/Defs.antt =====
-- internal/proxy/proxy.go: the requests to the upstream and the responses to the client. What the
-- HTTP client does is the parameter `send`.
use remnaguard.Prelude.{
  ℕ, String, Bool, true, false, not, List, [], ◌∷◌, ◌&&◌, ◌||◌, if◌then◌else◌, ◌==◌, ◌+++◌, len,
  ltb, nat_eq, to_lower, has_prefix, trim_right, any, ℤ, pos, negsuc,
}
use remnaguard.Config.{Config, contains}
use remnaguard.Header.{Header, header_set, header_add, header_del}
use remnaguard.Httputil.Strip.{strip_hop_by_hop, del_keys}

pub record Proxy : Type 0 where
  pub cfg : Config
  pub bearer : String
  pub public_auth : String
  pub public_auth_name : String

pub record Response : Type 0 where
  pub status_code : ℕ
  pub header : Header
  pub body : String

-- Has the lower-case forms of the names.
unfoldable pub in_lower_set : List String → String → Bool
in_lower_set xs lower = any (λ x. to_lower x == lower) xs

-- filterHeaders
unfoldable pub filter_headers : Header → List String → Header
unfolding in_lower_set
filter_headers h allowed = del_keys (λ name. not (in_lower_set allowed (to_lower name))) h

-- The loops that set the extra headers.
unfoldable pub set_all : List (String × String) → Header → Header
set_all [] h = h
set_all ((k, v) ∷ extra) h = set_all extra (header_set k v h)

-- The header of the request that RoundTrip sends for a client's header.
unfoldable pub outbound_header : Proxy → Header → Bool → Header
outbound_header p h true =
    let stripped = header_del "Authorization" (strip_hop_by_hop h) in
    let identity = header_set "Accept-Encoding" "identity" stripped in
    let filtered = filter_headers identity p.cfg.public_subs.request_header_allowlist in
    let extended = set_all p.cfg.public_subs.extra_headers filtered in
    if p.public_auth_name == ""
    then extended
    else header_set p.public_auth_name p.public_auth extended
outbound_header p h false =
    let stripped = header_del "Authorization" (strip_hop_by_hop h) in
    let identity = header_set "Accept-Encoding" "identity" stripped in
    let authorized = header_set "Authorization" ("Bearer " +++ p.bearer) identity in
    set_all p.cfg.upstream.extra_headers authorized

pub record UpstreamRequest : Type 0 where
  pub method : String
  pub url_path : String
  pub url_query : String
  pub header : Header
  pub body : String

pub data RoundTripResult : Type 0 where
  answered : Response → RoundTripResult
  failed : String → RoundTripResult

-- readLimited, of a body that the reader gives whole
unfoldable pub read_limited : Response → ℤ → RoundTripResult
read_limited res (pos n) =
    if not (nat_eq n 0) && ltb n (len res.body)
    then failed "upstream_response_too_large"
    else answered res
read_limited res (negsuc n) = answered res

abbrev limited : ℤ → RoundTripResult → RoundTripResult
limited limit (failed e) = failed e
limited limit (answered res) = read_limited res limit

-- The request that RoundTrip makes, for an upstream whose base URL has the path `base_path`.
abbrev pub upstream_request :
    String → Proxy → String → Header → String → String → String → Bool → UpstreamRequest
upstream_request base_path p method header body path raw_query public_sub = record {
  method = method;
  url_path = trim_right (nat_eq b'/') base_path +++ path;
  url_query = raw_query;
  header = outbound_header p header public_sub;
  body = body;
}

module _ (send : UpstreamRequest → RoundTripResult) (base_path : String) where
  -- RoundTrip
  unfoldable pub round_trip :
      Proxy → String → Header → String → String → String → Bool → RoundTripResult
  round_trip p method header body path raw_query public_sub =
      limited p.cfg.limits.upstream_body_bytes
        (send (upstream_request base_path p method header body path raw_query public_sub))

-- protectedResponseHeader
unfoldable pub protected_response_header : String → Bool
protected_response_header name =
    let lower = to_lower name in
    lower == "set-cookie"
    || lower == "authorization"
    || lower == "proxy-authenticate"
    || lower == "location"
    || has_prefix lower "x-debug"
    || contains
        ("connection" ∷ "proxy-connection" ∷ "keep-alive" ∷ "te" ∷ "trailer" ∷ "transfer-encoding"
          ∷ "upgrade" ∷ [])
        lower

unfoldable pub add_all : String → List String → Header → Header
add_all k [] h = h
add_all k (v ∷ vs) h = add_all k vs (header_add k v h)

-- The loop of copyHeader.
unfoldable pub copy_entries : Header → Header → Bool → List String → Header
copy_entries dst [] public_sub allowed = dst
copy_entries dst ((k, vs) ∷ src) public_sub allowed =
    let skip =
      protected_response_header (to_lower k)
      || (public_sub && not (in_lower_set allowed (to_lower k))) in
    copy_entries (if skip then dst else add_all k vs dst) src public_sub allowed

-- copyHeader
unfoldable pub copy_header : Header → Header → Bool → List String → Header
copy_header dst src public_sub allowed = strip_hop_by_hop (copy_entries dst src public_sub allowed)

-- The header that WriteResponse has sent when it writes the status, from the writer's header.
unfoldable pub response_header : Proxy → Header → Response → Bool → Header
response_header p written res public_sub =
    let copied =
      copy_header written res.header public_sub p.cfg.public_subs.response_header_allowlist in
    if public_sub then set_all p.cfg.public_subs.extra_response_headers copied else copied
