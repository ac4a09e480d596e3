-- ===== src/Routes/Types.antt =====
-- internal/routes/catalog.go: Support and Route. The compiled expression of a route is computed from
-- its pattern where it is used.
use remnaguard.Prelude.{String, Bool, List, ℤ}

-- `other`: a text that is none of the four constants.
pub data Support : Type 0 where
  policy_enforced privileged unsupported public_subscription : Support
  other : String → Support

pub record Route : Type 0 where
  pub name : String
  pub method : String
  pub pattern : String
  pub support : Support
  pub scopes : List String
  pub query_allowed : List String
  pub body_limit : ℤ
  pub body_object : Bool
  pub allowed_fields : List String
  pub required_boolean : String
  pub group : String
  pub unsupported_reason : String
