-- ===== src/Auth/Bearer.antt =====
-- internal/auth/auth.go: ParseBearer and Verify. Digest, the HMAC-SHA256 in base64, is the parameter
-- `digest`.
use remnaguard.Prelude.{
  String, Bool, Option, none, some, ◌||◌, not, if◌then◌else◌, ◌==◌, has_prefix, trim_prefix,
  trim_space, cut,
}
use remnaguard.Config.{Credential}

pub record Parsed : Type 0 where
  pub credential_id : String
  pub secret : String

abbrev parsed_parts : Option (String × String) → Option Parsed
parsed_parts none = none
parsed_parts (some (id, secret)) =
    if id == "" || secret == "" then none else some (record { credential_id = id; secret = secret })

-- ParseBearer, none for ErrInvalid
unfoldable pub parse_bearer : String → Option Parsed
parse_bearer header =
    let raw = trim_space (trim_prefix header "Bearer ") in
    if not (has_prefix header "Bearer ")
    then none
    else if not (has_prefix raw "rg_")
    then none
    else parsed_parts (cut b'.' (trim_prefix raw "rg_"))

-- Verify
unfoldable pub verify : (String → String → String) → String → String → Credential → Bool
verify digest secret pepper cred = digest secret pepper == cred.hmac_sha256

-- bearerToken of internal/server/server.go; none for false
unfoldable pub bearer_token : String → Option String
bearer_token header =
    let token = trim_space (trim_prefix header "Bearer ") in
    if not (has_prefix header "Bearer ") then none else if token == "" then none else some token
