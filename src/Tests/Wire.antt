-- ===== src/Tests/Wire.antt =====
-- Requests on the wire: targets, queries and headers.
use remnaguard.Prelude.{
  String, Bool, true, false, Option, none, some, List, [], ◌∷◌, ◌≡◌, refl, find, ◌+++◌,
  text_functions, pos, to_lower,
}
use remnaguard.Config.{contains}
use remnaguard.Config.Headers.{is_protected_lower}
use remnaguard.Httputil.{
  RawRequest, validate_raw_request, validate_target, is_ambiguous, hides_separator, target, ok,
}
use remnaguard.Header.{Header, header_get, header_values}
use remnaguard.Httputil.Accepted.{IsSafe, validate_raw_request-IsSafe}
use remnaguard.Httputil.Strip.{strip_hop_by_hop, names_key, hop_by_hop_names}
use remnaguard.Proxy.{Proxy, Response, outbound_header, response_header, protected_response_header}
use remnaguard.Proxy.Outbound.{outbound_header_private, outbound_header_public}
use remnaguard.Proxy.Inbound.{is_refused, response_header_confined}
use remnaguard.Tests.Samples.{sample_config}

abbrev listing : RawRequest
listing = record {
  proto_major = 1;
  method = "GET";
  host = "guard";
  request_uri = "/api/users?size=10";
  header = ("accept", "*/*" ∷ []) ∷ [];
}

abbrev plain_path : String → Option String
plain_path path = some path

abbrev parses : String → Bool
parses query = true

listing_ok :
    validate_raw_request plain_path parses listing (pos 2048) (pos 4096) ≡ ok "/api/users" "size=10"
unfolding validate_raw_request validate_target is_ambiguous hides_separator target header_get
    header_values text_functions find
listing_ok = refl

validate_raw_request-IsSafe_example :
    IsSafe plain_path parses listing (pos 2048) (pos 4096) "/api/users" "size=10"
validate_raw_request-IsSafe_example =
    validate_raw_request-IsSafe plain_path parses listing (pos 2048) (pos 4096) "/api/users"
      "size=10" listing_ok

abbrev one_parameter : String → Option (List (String × List String))
one_parameter query = some (("size", "10" ∷ []) ∷ [])

abbrev sent : Header
sent =
    ("connection", "close, X-Trace" ∷ [])
    ∷ ("x-trace", "1" ∷ [])
    ∷ ("authorization", "Bearer k" ∷ [])
    ∷ ("accept", "*/*" ∷ [])
    ∷ []

abbrev guard : Proxy
guard = record { cfg = sample_config; bearer = "b"; public_auth = ""; public_auth_name = "" }

outbound_header_private_example :
    (find "authorization" (outbound_header guard sent false) ≡ some (("Bearer " +++ "b") ∷ []))
    × ((key : String)
        → names_key hop_by_hop_names key ≡ true
        → find key (outbound_header guard sent false) ≡ none)
outbound_header_private_example = outbound_header_private guard sent tt

authorization_lower : to_lower "authorization" ≡ "authorization"
unfolding text_functions
authorization_lower = refl

authorization_kept : is_protected_lower "authorization" ≡ true
unfolding is_protected_lower contains text_functions
authorization_kept = refl

outbound_header_public_example : find "authorization" (outbound_header guard sent true) ≡ none
outbound_header_public_example =
    outbound_header_public guard sent "authorization" tt tt refl authorization_kept
      authorization_lower

abbrev answer : Response
answer = record { status_code = 200; header = ("set-cookie", "a=b" ∷ []) ∷ []; body = "{}" }

cookie_refused : is_refused true [] "set-cookie" ≡ true
unfolding is_refused protected_response_header contains text_functions
cookie_refused = refl

response_header_confined_example :
    find "set-cookie" (response_header guard [] answer true)
    ≡ find "set-cookie" (strip_hop_by_hop [])
response_header_confined_example =
    response_header_confined guard true [] answer "set-cookie" cookie_refused refl
