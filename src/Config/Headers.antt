-- ===== src/Config/Headers.antt =====
-- internal/config/config.go: the header names that the configuration may not set.
use remnaguard.Prelude.{
  String, Bool, not, List, [], ◌∷◌, ◌&&◌, ◌||◌, ◌==◌, contains_any, has_prefix, to_lower,
}
use remnaguard.Config.Lookup.{contains}

-- validHeaderName; http.CanonicalHeaderKey is "" only for "".
unfoldable pub valid_header_name : String → Bool
valid_header_name name = not (name == "") && not (contains_any (32 ∷ 9 ∷ 13 ∷ 10 ∷ b':' ∷ []) name)

abbrev pub outbound_names : List String
outbound_names =
    "authorization" ∷ "cookie" ∷ "set-cookie" ∷ "host" ∷ "forwarded" ∷ "x-real-ip" ∷ "connection"
    ∷ "keep-alive" ∷ "te" ∷ "trailer" ∷ "transfer-encoding" ∷ "upgrade" ∷ "content-length"
    ∷ "accept-encoding" ∷ "content-encoding" ∷ []

-- The tests of protectedOutboundHeader on the name in lower case.
unfoldable pub is_protected_lower : String → Bool
is_protected_lower lower =
    has_prefix lower "x-forwarded-" || has_prefix lower "proxy-" || contains outbound_names lower

unfoldable pub protected_outbound_header : String → Bool
protected_outbound_header name = not (valid_header_name name) || is_protected_lower (to_lower name)

unfoldable pub protected_response_header : String → Bool
protected_response_header name = protected_outbound_header name || to_lower name == "location"
