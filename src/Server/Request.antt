-- ===== src/Server/Request.antt =====
-- internal/server/server.go: a request with its body, and the body's buffering.
use remnaguard.Prelude.{
  ℕ, zero, suc, String, Bool, true, false, not, Option, none, some, List, [], ◌∷◌, ◌&&◌, ◌||◌,
  if◌then◌else◌, len, ℤ, pos, is_positive, lebℤ, cut, split, trim_left, trim_right, nat_eq,
}
use remnaguard.Httputil.{RawRequest}
use remnaguard.Server.Credential.{PanelAuditContext}

-- A body that is missing, that reads as a text, or whose reading fails.
pub data RequestBody : Type 0 where
  no_body broken_body : RequestBody
  body_text : String → RequestBody

-- A request as the handlers see it: `cached` is the body in its context, `audit` the panel's audit
-- context there, `remote` its remote address.
pub record Request : Type 0 where
  pub raw : RawRequest
  pub body : RequestBody
  pub content_length : ℤ
  pub cached : Option String
  pub audit : Option PanelAuditContext
  pub remote : String

-- A result, or the text of an error.
pub data Outcome (A : Type 0) : Type 0 where
  ok : A → Outcome A
  err : String → Outcome A

abbrev pub too_large : String
too_large = "body_too_large"

abbrev pub over : String → ℤ → Bool
over s limit = not (lebℤ (pos (len s)) limit)

abbrev pub read_body : Request → ℤ → RequestBody → Outcome Request
read_body r limit no_body = ok r
read_body r limit broken_body = err "body_unreadable"
read_body r limit (body_text s) =
    if over s limit
    then err too_large
    else ok (record r { body = body_text s; content_length = pos (len s); cached = some s })

abbrev has_body : RequestBody → Bool
has_body no_body = false
has_body _ = true

-- bufferRequestBody, and cacheBody
unfoldable pub buffer_request_body : Request → ℤ → Outcome Request
buffer_request_body r limit =
    if has_body r.body && (not (is_positive limit) || not (lebℤ r.content_length limit))
    then err too_large
    else read_body r limit r.body

abbrev pub text_or_none : Option String → String
text_or_none none = ""
text_or_none (some s) = s

abbrev bytes_after : Outcome Request → Outcome String
bytes_after (err e) = err e
bytes_after (ok r) = ok (text_or_none r.cached)

abbrev cached_bytes : Request → ℤ → Option String → Outcome String
cached_bytes r limit (some s) = if over s limit then err too_large else ok s
cached_bytes r limit none = bytes_after (buffer_request_body r limit)

-- requestBodyBytes; nil is the blank text
unfoldable pub request_body_bytes : Request → ℤ → Outcome String
unfolding buffer_request_body
request_body_bytes r limit = cached_bytes r limit r.cached

abbrev pub segment_at : ℕ → List String → String
segment_at n [] = ""
segment_at zero (s ∷ ss) = s
segment_at (suc n) (s ∷ ss) = segment_at n ss

abbrev is_slash : ℕ → Bool
is_slash c = nat_eq c b'/'

-- pathSegment, for an index that is not negative
unfoldable pub path_segment : String → ℕ → String
path_segment path n = segment_at n (split b'/' (trim_right is_slash (trim_left is_slash path)))

abbrev before_query : String → Option (String × String) → String
before_query uri none = uri
before_query uri (some (path, _)) = path

-- routeTarget
unfoldable pub route_target : Request → String
route_target r = before_query r.raw.request_uri (cut b'?' r.raw.request_uri)
