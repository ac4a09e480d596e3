-- ===== src/Httputil/Defs.antt =====
-- internal/httputil/validate.go: ValidateRawRequest. Go's `url.PathUnescape` and `url.ParseQuery`
-- are parameters; their errors are `none` and `false`.
use remnaguard.Prelude.{
  ℕ, String, Bool, true, not, Option, none, some, [], ◌∷◌, ◌&&◌, ◌||◌, if◌then◌else◌, ◌==◌, len,
  ltb, has_prefix, has_suffix, contains_text, contains_any, cut, to_lower, ℤ, pos, negsuc,
}
use remnaguard.Header.{Header, header_get}

-- What the check reads of an http.Request.
pub record RawRequest : Type 0 where
  pub proto_major : ℕ
  pub method : String
  pub host : String
  pub request_uri : String
  pub header : Header

pub data Validated : Type 0 where
  ok : String → String → Validated
  err : String → Validated

-- len(s) > max, for a maximum that is an int
abbrev pub longer_than : String → ℤ → Bool
longer_than s (pos n) = ltb n (len s)
longer_than s (negsuc n) = true

abbrev or_whole : String → Option (String × String) → String × String
or_whole s none = (s, "")
or_whole s (some r) = r

-- The path and the raw query of the request target.
unfoldable pub target : String → String × String
target uri = or_whole uri (cut b'?' uri)

-- The tests on the path's own characters.
unfoldable pub is_ambiguous : String → Bool
is_ambiguous path =
    contains_text path "//"
    || contains_text path "\\"
    || contains_text path "/./"
    || contains_text path "/../"
    || has_suffix path "/."
    || has_suffix path "/.."

unfoldable pub hides_separator : String → Bool
hides_separator path =
    let lower = to_lower path in
    contains_text lower "%2f" || contains_text lower "%5c" || contains_text lower "%2e"

-- err != nil || unescaped != path
abbrev pub changes : String → Option String → Bool
changes path none = true
changes path (some unescaped) = not (unescaped == path)

module _ (path_unescape : String → Option String) (query_parses : String → Bool) where
  -- The checks from the split of the target on.
  unfoldable pub validate_target : RawRequest → ℤ → ℤ → String → String → Validated
  validate_target r max_path max_query path raw_query =
      if longer_than path max_path || longer_than raw_query max_query
      then err "request_target_too_large"
      else if is_ambiguous path
      then err "ambiguous_path"
      else if hides_separator path
      then err "unsafe_encoded_path"
      else if changes path (path_unescape path)
      then err "path_normalization_changed"
      else if not (query_parses raw_query)
      then err "invalid_query"
      else if not (header_get r.header "X-HTTP-Method-Override" == "")
          || not (header_get r.header "X-Method-Override" == "")
      then err "method_override_denied"
      else if not (has_prefix path "/api/") && not (path == "/api")
      then err "outside_api"
      else ok path raw_query

  -- ValidateRawRequest
  unfoldable pub validate_raw_request : RawRequest → ℤ → ℤ → Validated
  validate_raw_request r max_path max_query =
      let uri = r.request_uri in
      let parts = target uri in
      if ltb 1 r.proto_major
      then err "http2_disabled"
      else if r.method == "CONNECT" || (r.method == "OPTIONS" && uri == "*")
      then err "unsupported_request_target"
      else if r.host == "" || contains_any (32 ∷ 9 ∷ 13 ∷ 10 ∷ []) r.host
      then err "invalid_host"
      else if uri == ""
          || has_prefix uri "http://"
          || has_prefix uri "https://"
          || not (has_prefix uri "/")
      then err "invalid_request_target"
      else validate_target r max_path max_query parts.0 parts.1
