-- ===== src/Server/Response/Policy.antt =====
-- internal/server/server.go: enforceResponsePolicy and filterResponsePolicy, on the upstream's response.
use remnaguard.Prelude.{
  ℕ, String, Bool, true, false, not, Option, none, some, List, [], ◌∷◌, ◌&&◌, ◌||◌, if◌then◌else◌,
  ◌==◌, is_empty, leb, ltb,
}
use remnaguard.Config.{TokenPolicy, contains}
use remnaguard.Routes.{Route}
use remnaguard.Header.{header_del}
use remnaguard.Json.{Json}
use remnaguard.Policy.Decide.{has_privileged_scope}
use remnaguard.Proxy.{Response}
use remnaguard.Remnawave.{User}
use remnaguard.Remnawave.Decode.{decode_user}
use remnaguard.Remnawave.Owns.{owns_user}
use remnaguard.Remnawave.Empty.{is_empty_user_response}
use remnaguard.Server.Effective.{is_policy_enforced}
use remnaguard.Server.Env.{Env}
use remnaguard.Server.Request.{Outcome, ok, err}
use remnaguard.Server.ListFilter.{ResponsePage, Listed, filter_list_node}
use remnaguard.Server.Response.Squads.{
  object_uuid, sanitize_squad_node, sanitize_squad_list_object, redact_count_metadata,
}
use remnaguard.Server.Response.Pages.{
  subscription_page_config_allowed, subscription_page_config_node_allowed,
}

-- A status of 2xx.
abbrev pub is_success : ℕ → Bool
is_success status = leb 200 status && ltb status 300

-- A new body for a response, whose length is no longer that of its header.
abbrev pub with_body : Response → String → Response
with_body res body = record res { body = body; header = header_del "Content-Length" res.header }

-- The cases of the switches on the route's name.
pub data Read : Type 0 where
  user_read squad_read page_config_read other_read : Read

unfoldable pub read_of : String → Read
read_of name =
    if contains ("user.read.uuid" ∷ "user.read.username" ∷ "user.read.telegram" ∷ []) name
    then user_read
    else if contains ("squad.internal.read" ∷ "squad.external.read" ∷ []) name
    then squad_read
    else if name == "subscription_page_config.read"
    then page_config_read
    else other_read

pub data Listing : Type 0 where
  user_listing internal_squad_listing external_squad_listing page_config_listing other_listing :
      Listing

unfoldable pub listing_of : String → Listing
listing_of name =
    if name == "user.list"
    then user_listing
    else if name == "squad.internal.list"
    then internal_squad_listing
    else if name == "squad.external.list"
    then external_squad_listing
    else if name == "subscription_page_config.list"
    then page_config_listing
    else other_listing

abbrev kept_if : Bool → Json → Option Json
kept_if true v = some v
kept_if false v = none

-- The test of a list of squads, by the token's allowed squads.
unfoldable pub keep_squad : List String → Json → Option Json
keep_squad allowed v =
    kept_if (is_empty allowed || contains allowed (object_uuid v)) (sanitize_squad_list_object v)

unfoldable pub keep_page_config : List String → Json → Option Json
keep_page_config allowed v = kept_if (subscription_page_config_allowed allowed (object_uuid v)) v

module _ (env : Env) where
  -- The user in a body, as DecodeUser finds it.
  abbrev pub user_in : Option Json → Option User
  user_in root = decode_user env.number_int env.scan_int root

  abbrev pub error_of_owner : TokenPolicy → Option User → Option String
  error_of_owner tok none = some "unparseable_user_response"
  error_of_owner tok (some user) = owns_user env.matches_regex (some tok) user

  abbrev pub or_empty_user : Bool → Option User → Option String → Option String
  or_empty_user true none e = none
  or_empty_user _ _ e = e

  -- The case of a user: an empty response has no user to protect.
  unfoldable pub user_read_error : TokenPolicy → Option Json → Option String
  user_read_error tok root =
      or_empty_user (is_empty_user_response root) (user_in root) (error_of_owner tok (user_in root))

  abbrev pub redacted : Response → Option Json → Outcome Response
  redacted res none = err "unfilterable_squad_response"
  redacted res (some v) = ok (with_body res (env.write_json v))

  -- redactSquadResponse
  unfoldable pub redact_squad_response : Response → Option Json → Outcome Response
  redact_squad_response res none = err "invalid JSON"
  redact_squad_response res (some root) = redacted res (sanitize_squad_node root)

  abbrev page_config_in : List String → Option Json → Option String
  page_config_in allowed none = some "invalid JSON"
  page_config_in allowed (some root) =
      if subscription_page_config_node_allowed allowed root
      then none
      else some "subscription_page_config_denied"

  -- enforceSubscriptionPageConfigResponse
  unfoldable pub enforce_subscription_page_config_response :
      List String → Option Json → Option String
  enforce_subscription_page_config_response allowed root =
      if is_empty allowed then none else page_config_in allowed root

  abbrev pub unless : Option String → Response → Outcome Response
  unless none res = ok res
  unless (some e) res = err e

  unfoldable pub enforced : Read → TokenPolicy → Response → Outcome Response
  enforced user_read tok res = unless (user_read_error tok (env.decoded_value res.body)) res
  enforced squad_read tok res = redact_squad_response res (env.decoded_value res.body)
  enforced page_config_read tok res =
      unless
        (enforce_subscription_page_config_response tok.constraints.allowed_subscription_page_configs
          (env.decoded_value res.body))
        res
  enforced other_read tok res = ok res

  -- enforceResponsePolicy: the response afterwards, or the error
  unfoldable pub enforce_response_policy : Route → TokenPolicy → Response → Outcome Response
  enforce_response_policy route tok res =
      if not (is_policy_enforced route.support) || not (is_success res.status_code)
      then ok res
      else enforced (read_of route.name) tok res

  abbrev pub kept_user : TokenPolicy → Json → Option User → Option Json
  kept_user tok v none = none
  kept_user tok v (some user) = elim (owns_user env.matches_regex (some tok) user) [
    | none ↦ some v
    | some e ↦ none
  ]

  -- The test of the list of users, which writes an item out and reads it again.
  unfoldable pub keep_user : TokenPolicy → Json → Option Json
  keep_user tok v = kept_user tok v (user_in (env.decoded_value (env.write_json v)))

  -- From here on, none is a panic.
  abbrev pub counted : Response → Option Listed → Option (Outcome Response)
  counted res none = some (err "unfilterable_list_response")
  counted res (some (none, count)) = none
  counted res (some (some v, count)) =
      some (ok (with_body res (env.write_json (redact_count_metadata (env.itoa count) v))))

  abbrev pub filtered_root :
      Response
      → Option ResponsePage
      → (Json → Option Json)
      → Option Json
      → Option (Outcome Response)
  filtered_root res page keep none = some (err "invalid JSON")
  filtered_root res page keep (some root) = counted res (filter_list_node page keep root)

  -- filterJSONListPaged
  unfoldable pub filter_json_list_paged :
      Response → Option ResponsePage → (Json → Option Json) → Option (Outcome Response)
  filter_json_list_paged res page keep = filtered_root res page keep (env.decoded_value res.body)

  unfoldable pub filtered :
      Listing → TokenPolicy → Response → Option ResponsePage → Option (Outcome Response)
  filtered user_listing tok res page = filter_json_list_paged res page (keep_user tok)
  filtered internal_squad_listing tok res page =
      filter_json_list_paged res none (keep_squad tok.constraints.allowed_internal_squads)
  filtered external_squad_listing tok res page =
      filter_json_list_paged res none (keep_squad tok.constraints.allowed_external_squads)
  filtered page_config_listing tok res page =
      filter_json_list_paged res none
        (keep_page_config tok.constraints.allowed_subscription_page_configs)
  filtered other_listing tok res page = some (ok res)

  -- filterResponsePolicy, with the page that panelResponsePage finds; tokenHasPrivilegedScope is
  -- has_privileged_scope
  unfoldable pub filter_response_policy :
      Route → TokenPolicy → Response → Option ResponsePage → Option (Outcome Response)
  filter_response_policy route tok res page =
      if not (is_policy_enforced route.support)
        || not (is_success res.status_code)
        || has_privileged_scope tok.scopes
      then some (ok res)
      else filtered (listing_of route.name) tok res page
