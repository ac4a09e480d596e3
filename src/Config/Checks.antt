-- ===== src/Config/Checks.antt =====
-- internal/config/config.go: Validate and what it calls. An error is the fixed part of its text, and
-- none stands for no error. What the Go library and the system give (url.Parse, net.ParseIP,
-- net.SplitHostPort, the environment, files and their permissions, whether an expression
-- compiles, time.ParseDuration) is a parameter; a loop over a map goes in the order of the list.
use remnaguard.Prelude.{
  String, Bool, not, Option, none, some, List, [], ◌∷◌, ◌&&◌, ◌||◌, if◌then◌else◌, ◌==◌, any,
  is_empty, trim_space, first_error, pos, lebℤ,
}
use remnaguard.Config.Types.{TokenPolicy, Credential, Constraints, IdRange}
use remnaguard.Config.Lookup.{contains}

abbrev pub check : Bool → String → Option String
check failed message = if failed then some message else none

-- Checks that follow each other: the first error.
abbrev pub first_failure : List (Option String) → Option String
first_failure [] = none
first_failure (c ∷ cs) = first_error c (first_failure cs)

abbrev pub is_blank : String → Bool
is_blank s = trim_space s == ""

-- KnownScope
unfoldable pub known_scope : String → Bool
known_scope = contains (
    "read:*" ∷ "users:read" ∷ "users:create" ∷ "users:update" ∷ "users:action" ∷ "users:write"
    ∷ "user:read" ∷ "user:write" ∷ "user:action" ∷ "hwid:read" ∷ "hwid:write" ∷ "squads:read"
    ∷ "squad:read" ∷ "config-profiles:write" ∷ "hosts:write" ∷ "nodes:write"
    ∷ "subscription-templates:write" ∷ "internal-squads:write" ∷ "external-squads:write"
    ∷ "system:read" ∷ "metadata:read" ∷ "subscriptions:read" ∷ "subscription:read"
    ∷ "subscription-pages:read" ∷ "subscription-pages:write" ∷ "remnawave:*" ∷ "privileged:*" ∷ [])

-- hasUserWriteScope
unfoldable pub has_user_write_scope : TokenPolicy → Bool
has_user_write_scope tok =
    any
      (contains (
        "users:create" ∷ "users:update" ∷ "users:action" ∷ "users:write" ∷ "user:write"
        ∷ "user:action" ∷ "hwid:write" ∷ []))
      tok.scopes

-- hasUserOwnershipConstraint
unfoldable pub has_user_ownership_constraint : Constraints → Bool
has_user_ownership_constraint c =
    not (c.username_prefix == "")
    || not (c.username_suffix == "")
    || not (c.username_contains == "")
    || not (c.username_regex == "")
    || not (c.email_contains == "")
    || not (is_empty c.email_domains)
    || not (is_empty c.telegram_id_ranges)
    || not (is_empty c.allowed_internal_squads)
    || not (is_empty c.allowed_external_squads)
    || not (is_empty c.allowed_subscription_page_configs)

-- The checks of validateRestrictedWriteAllowlists; hasTokenScope is `contains`.
abbrev pub validate_restricted_write_allowlists_checks : TokenPolicy → List (Option String)
validate_restricted_write_allowlists_checks tok =
    let c = tok.constraints in
    (check
        (has_user_write_scope tok
          && is_empty c.allowed_users
          && not (has_user_ownership_constraint c))
        "user write scopes require allowed_users or user ownership constraints"
      ∷ check
          (contains tok.scopes "config-profiles:write"
            && not c.allow_all_config_profiles
            && is_empty c.allowed_config_profiles)
          "config-profiles:write requires allowed_config_profiles or allow_all_config_profiles"
      ∷ check
          (contains tok.scopes "hosts:write" && not c.allow_all_hosts && is_empty c.allowed_hosts)
          "hosts:write requires allowed_hosts or allow_all_hosts"
      ∷ check
          (contains tok.scopes "nodes:write" && not c.allow_all_nodes && is_empty c.allowed_nodes)
          "nodes:write requires allowed_nodes or allow_all_nodes"
      ∷ check
          (contains tok.scopes "subscription-templates:write"
            && is_empty c.allowed_subscription_templates)
          "subscription-templates:write requires allowed_subscription_templates"
      ∷ check
          (contains tok.scopes "internal-squads:write"
            && is_empty c.allowed_writable_internal_squads)
          "internal-squads:write requires allowed_writable_internal_squads"
      ∷ check
          (contains tok.scopes "external-squads:write"
            && is_empty c.allowed_writable_external_squads)
          "external-squads:write requires allowed_writable_external_squads"
      ∷ [])

-- validateRestrictedWriteAllowlists
unfoldable pub validate_restricted_write_allowlists : TokenPolicy → Option String
validate_restricted_write_allowlists tok =
    first_failure (validate_restricted_write_allowlists_checks tok)

abbrev bad_range : IdRange → Bool
bad_range r = not (lebℤ (pos 0) r.min) || not (lebℤ r.min r.max)

-- The loop over allowed_request_fields.
unfoldable pub request_fields_error : List (String × List String) → Option String
request_fields_error [] = none
request_fields_error ((name, fields) ∷ rest) = first_failure (
    check (is_blank name) "empty allowed_request_fields route"
    ∷ check (is_empty fields) "empty allowed_request_fields for route"
    ∷ check (any is_blank fields) "empty allowed request field for route"
    ∷ request_fields_error rest
    ∷ [])

-- The loop over a token's credentials, and the ids that are known after it.
unfoldable pub credentials_error : List String → List Credential → Option String
credentials_error seen [] = none
credentials_error seen (c ∷ cs) =
    let rest = credentials_error (c.id ∷ seen) cs in
    if c.id == "" || c.hmac_sha256 == ""
    then some "credential id and hmac_sha256 are required"
    else if contains seen c.id
    then some "duplicate credential id"
    else rest

abbrev pub with_ids : List String → List Credential → List String
with_ids seen [] = seen
with_ids seen (c ∷ cs) = with_ids (c.id ∷ seen) cs

module _ (regex_compiles : String → Bool) where
  -- The body of the loop over the tokens, after the check of the token's id.
  abbrev pub token_checks : List String → TokenPolicy → List (Option String)
  token_checks cred_ids tok =
      (check (any (λ s. not (known_scope s)) tok.scopes) "unknown scope"
        ∷ validate_restricted_write_allowlists tok
        ∷ check
            (not (tok.constraints.username_regex == "")
              && not (regex_compiles tok.constraints.username_regex))
            "invalid username_regex"
        ∷ check (any bad_range tok.constraints.telegram_id_ranges) "invalid telegram_id_ranges"
        ∷ request_fields_error tok.constraints.allowed_request_fields
        ∷ credentials_error cred_ids tok.credentials
        ∷ [])

  unfoldable pub token_error : List String → TokenPolicy → Option String
  token_error cred_ids tok = first_failure (token_checks cred_ids tok)

  -- The loop over the tokens, from the ids of tokens and of credentials that are known.
  unfoldable pub tokens_error : List String → List String → List TokenPolicy → Option String
  tokens_error token_ids cred_ids [] = none
  tokens_error token_ids cred_ids (tok ∷ toks) = first_failure (
      check (tok.id == "") "token id is required"
      ∷ check (contains token_ids tok.id) "duplicate token id"
      ∷ token_error cred_ids tok
      ∷ tokens_error (tok.id ∷ token_ids) (with_ids cred_ids tok.credentials) toks
      ∷ [])
