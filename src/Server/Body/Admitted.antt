-- ===== src/Server/Body/Admitted.antt =====
-- internal/server/server.go: the requests that validateBodyPolicy accepts.
use remnaguard.Prelude.{
  String, Bool, true, Option, none, some, [], ◌≡◌, ◌⊎◌, All, is_empty, has_prefix,
}
use remnaguard.Config.{Config, TokenPolicy, contains}
use remnaguard.Config.Valid.{NoRepeat}
use remnaguard.Json.{object, Fields}
use remnaguard.Json.Policy.{keys_of}
use remnaguard.Routes.{Route}
use remnaguard.Server.Env.{Env}
use remnaguard.Server.Request.{Request, ok, request_body_bytes}
use remnaguard.Server.Body.Resources.{patched}
use remnaguard.Server.Body.Policy.{body_limit_of, validate_token_request_fields}
use remnaguard.Server.Body.Users.{IsUserBody}
use remnaguard.Server.Body.Allowed.{MayPatch}

-- An object that a route and a token let a request have: its keys are different and, where the route lists
-- fields, listed; what it says of a user and what it changes is within the token's constraints.
pub record IsAdmitted (matches_regex : String → String → Option Bool) (route : Route)
    (tok : TokenPolicy) (obj : Fields) : Type 0 where
  pub distinct : NoRepeat ([]) (keys_of obj)
  pub fields :
      (is_empty route.allowed_fields ≡ true)
      ⊎ All (λ key. contains route.allowed_fields key ≡ true) (keys_of obj)
  pub token_fields : validate_token_request_fields obj route tok.constraints ≡ none
  pub user : has_prefix route.name "user." ≡ true → IsUserBody matches_regex tok.constraints obj
  pub patch : route.method ≡ "PATCH" → MayPatch (patched route.name) obj tok.constraints
  pub profiles :
      route.method ≡ "POST"
      → route.name ≡ "post.config_profiles"
      → tok.constraints.allow_all_config_profiles ≡ true
  pub hosts :
      route.method ≡ "POST" → route.name ≡ "post.hosts" → tok.constraints.allow_all_hosts ≡ true
  pub nodes :
      route.method ≡ "POST" → route.name ≡ "post.nodes" → tok.constraints.allow_all_nodes ≡ true

-- The body of an accepted request, as the text that was read and the object that it spells.
pub record IsAdmittedBody (env : Env) (r : Request) (cfg : Config) (route : Route)
    (tok : TokenPolicy) : Type 0 where
  pub text : String
  pub obj : Fields
  pub read : request_body_bytes r (body_limit_of cfg route) ≡ ok text
  pub spelt : env.first_value text ≡ some (object obj)
  pub admitted : IsAdmitted env.matches_regex route tok obj
