-- ===== src/Server/Body/Policy.antt =====
-- internal/server/server.go: validateBodyPolicy and what it decides before a write goes on, and bodyString.
use remnaguard.Prelude.{
  String, Bool, true, false, not, Option, none, some, List, ◌&&◌, ◌||◌, if◌then◌else◌, ◌==◌, ◌+++◌,
  is_empty, find, first_error, has_prefix, to_lower, ℤ, is_positive, lebℤ,
}
use remnaguard.Config.{Config, Constraints, TokenPolicy}
use remnaguard.Routes.{Route, Support, privileged}
use remnaguard.Header.{header_get}
use remnaguard.Json.{Json, null, object, Fields, no_fields, field, get_field}
use remnaguard.Json.Unmarshal.{unmarshal_string, unmarshal_bool}
use remnaguard.Json.Policy.{
  Decoded, decoded, undecoded, decode_object_no_duplicate_keys, validate_fields, all_allowed,
}
use remnaguard.Server.Env.{Env}
use remnaguard.Server.Request.{
  Request, RequestBody, body_text, Outcome, ok, err, request_body_bytes,
}
use remnaguard.Server.Body.Values.{validate_user_constraints}
use remnaguard.Server.Body.Resources.{
  or_blank, validate_resource_write_constraints, validate_resource_create_constraints,
}

abbrev allowed_list : Route → List (String × List String) → Option (List String)
allowed_list route lists = elim (find route.name lists) [
  | some allowed ↦ some allowed
  | none ↦ find (route.method +++ " " +++ route.pattern) lists
]

abbrev error_of_list : Fields → Option (List String) → Option String
error_of_list obj none = none
error_of_list obj (some allowed) =
    if all_allowed allowed obj then none else some "request_field_denied"

-- validateTokenRequestFields, of the token's constraints
unfoldable pub validate_token_request_fields : Fields → Route → Constraints → Option String
validate_token_request_fields obj route c =
    if is_empty c.allowed_request_fields
    then none
    else error_of_list obj (allowed_list route c.allowed_request_fields)

abbrev is_null : Json → Bool
is_null null = true
is_null _ = false

abbrev read_boolean : Json → Option Bool
read_boolean raw = if is_null raw then none else unmarshal_bool raw

abbrev error_of_boolean : String → Option Json → Option String
error_of_boolean name none = some ("missing_" +++ to_lower name)
error_of_boolean name (some raw) = elim (read_boolean raw) [
  | none ↦ some ("invalid_" +++ to_lower name)
  | some b ↦ none
]

-- The check of a route's required boolean.
unfoldable pub required_boolean_error : Route → Fields → Option String
required_boolean_error route obj =
    if route.required_boolean == ""
    then none
    else error_of_boolean route.required_boolean (get_field route.required_boolean obj)

abbrev missing_user : Option Json → Option String
missing_user none = some "missing_user_uuid"
missing_user (some raw) = none

-- The checks of validateBodyPolicy on the decoded object.
unfoldable pub object_error :
    (String → String → Option Bool) → Route → TokenPolicy → Fields → Option String
object_error matches_regex route tok obj =
    let c = tok.constraints in
    first_error
      (if is_empty route.allowed_fields then none else validate_fields obj route.allowed_fields)
      (first_error (required_boolean_error route obj) (
        first_error (validate_token_request_fields obj route c) (
          first_error
            (if has_prefix route.name "user."
              then validate_user_constraints matches_regex obj c
              else none)
            (first_error (validate_resource_write_constraints obj route c) (
              first_error (validate_resource_create_constraints route c) (
                if has_prefix route.name "hwid."
                then missing_user (get_field "userUuid" obj)
                else none))))))

-- The limit on the body that a route has.
abbrev pub body_limit_of : Config → Route → ℤ
body_limit_of cfg route =
    if not (is_positive route.body_limit) || not (lebℤ route.body_limit cfg.limits.max_body_bytes)
    then cfg.limits.max_body_bytes
    else route.body_limit

abbrev is_privileged : Support → Bool
is_privileged privileged = true
is_privileged _ = false

abbrev is_json_type : Option String → Bool
is_json_type none = false
is_json_type (some ct) = ct == "application/json"

-- What validateBodyPolicy reads of a body: the object, or an error.
abbrev pub decode_body : Env → Outcome String → Decoded
decode_body env (err e) = undecoded e
decode_body env (ok body) = decode_object_no_duplicate_keys (env.first_value body)

abbrev pub error_of_decoded :
    (String → String → Option Bool) → Route → TokenPolicy → Decoded → Option String
error_of_decoded matches_regex route tok (undecoded e) = some e
error_of_decoded matches_regex route tok (decoded obj) = object_error matches_regex route tok obj

-- Whether validateBodyPolicy looks at the body at all.
abbrev pub reads_body : Route → Bool
reads_body route =
    if is_privileged route.support && route.required_boolean == "" then false else route.body_object

-- validateBodyPolicy
unfoldable pub validate_body_policy : Env → Request → Config → Route → TokenPolicy → Option String
validate_body_policy env r cfg route tok =
    if not (reads_body route)
    then none
    else if not (is_json_type (env.media_type (header_get r.raw.header "Content-Type")))
    then some "json_content_type_required"
    else if not (header_get r.raw.header "Content-Encoding" == "")
    then some "content_encoding_denied"
    else error_of_decoded env.matches_regex route tok
        (decode_body env (request_body_bytes r (body_limit_of cfg route)))

-- A member of a Go map that was decoded from an object: the last of its name.
unfoldable pub last_field : String → Fields → Option Json
last_field key no_fields = none
last_field key (field k v fs) = elim (last_field key fs) [
  | some w ↦ some w
  | none ↦ if k == key then some v else none
]

abbrev string_member : String → Option Json → String
string_member name (some (object fs)) = elim (last_field name fs) [
  | some raw ↦ or_blank (unmarshal_string raw)
  | none ↦ ""
]
string_member name _ = ""

abbrev own_text : RequestBody → String
own_text (body_text s) = s
own_text _ = ""

-- The body that bodyString reads.
abbrev pub read_text : Request → String
read_text r = elim r.cached [ some s ↦ s | none ↦ own_text r.body ]

-- bodyString
unfoldable pub body_string : Env → Request → String → String
body_string env r name = string_member name (env.whole_value (read_text r))
