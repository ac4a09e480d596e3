-- ===== src/Server/Effective.antt =====
-- internal/server/server.go: effectiveRoute, which opens routes to scoped tokens, and the tables that
-- it reads.
use remnaguard.Prelude.{
  String, Bool, true, false, List, [], ◌∷◌, ◌++◌, ◌&&◌, ◌||◌, not, if◌then◌else◌, ◌==◌,
  contains_text, is_empty, pos, ℤ,
}
use remnaguard.Config.{Config, contains, restricted_writes_enabled}
use remnaguard.Routes.{Route, Support, policy_enforced, privileged, public_subscription}

abbrev pub safe_read_all_routes : List String
safe_read_all_routes =
    "user.read.uuid" ∷ "user.read.username" ∷ "user.read.telegram" ∷ "user.list"
    ∷ "get.users.by_email.email" ∷ "get.users.by_id.id" ∷ "get.users.by_short_uuid.shortuuid"
    ∷ "get.users.by_tag.tag" ∷ "get.users.tags" ∷ "get.users.uuid.accessible_nodes" ∷ "hwid.list"
    ∷ "get.hwid.devices" ∷ "get.hwid.devices.stats" ∷ "get.hwid.devices.top_users"
    ∷ "squad.internal.read" ∷ "squad.external.read" ∷ "squad.internal.list" ∷ "squad.external.list"
    ∷ "get.internal_squads.uuid.accessible_nodes" ∷ "get.config_profiles"
    ∷ "get.config_profiles.inbounds" ∷ "get.config_profiles.uuid"
    ∷ "get.config_profiles.uuid.inbounds" ∷ "get.hosts" ∷ "get.hosts.tags" ∷ "get.hosts.uuid"
    ∷ "get.nodes" ∷ "get.nodes.tags" ∷ "get.nodes.uuid" ∷ "subscription_page_config.list"
    ∷ "subscription_page_config.read" ∷ "subscription.subpage_config" ∷ "get.subscription_templates"
    ∷ "get.subscription_templates.uuid" ∷ "get.subscriptions"
    ∷ "get.subscriptions.by_short_uuid.shortuuid" ∷ "get.subscriptions.by_username.username"
    ∷ "get.subscriptions.by_uuid.uuid" ∷ "system.health" ∷ "system.metadata" ∷ "system.bandwidth"
    ∷ "system.stats" ∷ "get.system.nodes.metrics" ∷ "get.system.stats.nodes"
    ∷ "get.system.stats.recap" ∷ "get.bandwidth_stats.nodes"
    ∷ "get.bandwidth_stats.nodes.uuid.users" ∷ "get.bandwidth_stats.nodes.uuid.users.legacy"
    ∷ "get.bandwidth_stats.users.uuid" ∷ "get.bandwidth_stats.users.uuid.legacy"
    ∷ "get.metadata.node.uuid" ∷ "get.metadata.user.uuid" ∷ []

abbrev pub safe_read_all_query_fields : List String
safe_read_all_query_fields =
    "page" ∷ "size" ∷ "limit" ∷ "offset" ∷ "start" ∷ "search" ∷ "username" ∷ "email" ∷ "tag"
    ∷ "tags" ∷ "status" ∷ "sort" ∷ "order" ∷ "sorting" ∷ "filters" ∷ "filterModes" ∷ "includeHwid"
    ∷ "includeSubscription" ∷ "includeStats" ∷ "includeUsers" ∷ "tz" ∷ []

abbrev pub restricted_user_update_fields : List String
restricted_user_update_fields =
    "username" ∷ "uuid" ∷ "status" ∷ "expireAt" ∷ "trafficLimitBytes" ∷ "trafficLimitStrategy"
    ∷ "telegramId" ∷ "telegram_id" ∷ "email" ∷ "description" ∷ "tag" ∷ "activeInternalSquads"
    ∷ "hwidDeviceLimit" ∷ "externalSquadUuid" ∷ "external_squad_uuid" ∷ "subscriptionPageConfigUuid"
    ∷ "subscriptionPageConfigUUID" ∷ "subscription_page_config_uuid" ∷ []

abbrev pub user_create_fields : List String
user_create_fields =
    "username" ∷ "status" ∷ "shortUuid" ∷ "short_uuid" ∷ "trojanPassword" ∷ "vlessUuid"
    ∷ "ssPassword" ∷ "expireAt" ∷ "createdAt" ∷ "lastTrafficResetAt" ∷ "trafficLimitBytes"
    ∷ "trafficLimitStrategy" ∷ "telegramId" ∷ "telegram_id" ∷ "email" ∷ "description" ∷ "tag"
    ∷ "activeInternalSquads" ∷ "hwidDeviceLimit" ∷ "uuid" ∷ "externalSquadUuid"
    ∷ "external_squad_uuid" ∷ "subscriptionPageConfigUuid" ∷ "subscriptionPageConfigUUID"
    ∷ "subscription_page_config_uuid" ∷ []

abbrev pub restricted_write_names : List String
restricted_write_names =
    "user.create" ∷ "user.update" ∷ "user.actions.disable" ∷ "user.actions.enable"
    ∷ "user.actions.reset_traffic" ∷ "user.actions.revoke" ∷ "hwid.create" ∷ "hwid.delete"
    ∷ "hwid.delete_all" ∷ "post.config_profiles" ∷ "patch.config_profiles" ∷ "post.hosts"
    ∷ "patch.hosts" ∷ "patch.hosts.bulk.update" ∷ "post.nodes" ∷ "patch.nodes"
    ∷ "post.nodes.uuid.actions.disable" ∷ "post.nodes.uuid.actions.enable"
    ∷ "post.nodes.uuid.actions.restart" ∷ "post.nodes.uuid.actions.reset_traffic"
    ∷ "patch.subscription_templates" ∷ "patch.internal_squads" ∷ "patch.external_squads" ∷ []

-- isRestrictedWrite
unfoldable pub is_restricted_write : Route → Bool
unfolding contains
is_restricted_write route = contains restricted_write_names route.name

abbrev is_privileged_support : Support → Bool
is_privileged_support privileged = true
is_privileged_support _ = false

abbrev pub is_policy_enforced : Support → Bool
is_policy_enforced policy_enforced = true
is_policy_enforced _ = false

-- A privileged safe read becomes policy-enforced, with the default query fields if it has none.
unfoldable pub open_read : Route → Route
open_read route =
    if is_privileged_support route.support
    then record route {
      support = policy_enforced;
      query_allowed =
          if is_empty route.query_allowed then safe_read_all_query_fields else route.query_allowed;
    }
    else route

unfoldable pub add_read_all : Route → Route
add_read_all route =
    if is_policy_enforced route.support && not (contains route.scopes "read:*")
    then record route { scopes = route.scopes ++ "read:*" ∷ [] }
    else route

-- The first half of effectiveRoute.
unfoldable pub read_route : Route → Route
read_route route =
    if route.method == "GET" && contains safe_read_all_routes route.name
    then add_read_all (open_read route)
    else route

abbrev opened : Route → List String → Route
opened route scopes = record route { support = policy_enforced; scopes = scopes }

abbrev with_object : ℤ → Route → Route
with_object limit route = record route { body_object = true; body_limit = limit }

-- The cases of the switch on the route's name; `write_body` is the case of a single scope and a body
-- that is an object, and `untouched` stands for no case.
pub data WriteCase : Type 0 where
  user_create user_update user_action hwid_write node_write untouched : WriteCase
  write_body : String → WriteCase

unfoldable pub write_case : String → WriteCase
write_case name =
    if "user.create" == name
    then user_create
    else if "user.update" == name
    then user_update
    else if contains
        ("user.actions.disable" ∷ "user.actions.enable" ∷ "user.actions.reset_traffic"
          ∷ "user.actions.revoke" ∷ [])
        name
    then user_action
    else if contains ("hwid.create" ∷ "hwid.delete" ∷ "hwid.delete_all" ∷ []) name
    then hwid_write
    else if contains ("post.config_profiles" ∷ "patch.config_profiles" ∷ []) name
    then write_body "config-profiles:write"
    else if contains ("post.hosts" ∷ "patch.hosts" ∷ "patch.hosts.bulk.update" ∷ []) name
    then write_body "hosts:write"
    else if contains
        ("post.nodes" ∷ "patch.nodes" ∷ "post.nodes.uuid.actions.disable"
          ∷ "post.nodes.uuid.actions.enable" ∷ "post.nodes.uuid.actions.restart"
          ∷ "post.nodes.uuid.actions.reset_traffic" ∷ [])
        name
    then node_write
    else if "patch.subscription_templates" == name
    then write_body "subscription-templates:write"
    else if "patch.internal_squads" == name
    then write_body "internal-squads:write"
    else if "patch.external_squads" == name
    then write_body "external-squads:write"
    else untouched

-- The bodies of the cases, where `limit` is limits.max_body_bytes.
unfoldable pub apply_case : ℤ → WriteCase → Route → Route
apply_case limit user_create route =
    record (with_object (pos 65536) (opened route ("users:create" ∷ "user:write" ∷ []))) {
      allowed_fields = user_create_fields;
    }
apply_case limit user_update route =
    record (with_object (pos 65536)
      (opened route ("users:update" ∷ "users:write" ∷ "user:write" ∷ []))) {
        allowed_fields = restricted_user_update_fields;
      }
apply_case limit user_action route =
    opened route ("users:action" ∷ "users:write" ∷ "user:action" ∷ [])
apply_case limit hwid_write route = opened route ("hwid:write" ∷ [])
apply_case limit node_write route =
    if not (route.method == "POST") || not (contains_text route.pattern "/actions/")
    then with_object limit (opened route ("nodes:write" ∷ []))
    else opened route ("nodes:write" ∷ [])
apply_case limit (write_body scope) route = with_object limit (opened route (scope ∷ []))
apply_case limit untouched route = route

-- The switch of effectiveRoute.
unfoldable pub write_route : ℤ → Route → Route
write_route limit route = apply_case limit (write_case route.name) route

-- Whether restricted writes are on: both switches of write_safety.
unfoldable pub writes_on : Config → Bool
unfolding restricted_writes_enabled
writes_on cfg = restricted_writes_enabled cfg.write_safety && cfg.write_safety.single_writer

-- effectiveRoute
unfoldable pub effective_route : Config → Route → Route
effective_route cfg route =
    let r = read_route route in if writes_on cfg then write_route cfg.limits.max_body_bytes r else r

abbrev is_public_support : Support → Bool
is_public_support public_subscription = true
is_public_support _ = false

-- What apiHandler makes of a public subscription route when it asks for a token after all.
unfoldable pub subscription_route : Route → Route
subscription_route route =
    if is_public_support route.support
    then opened route ("subscriptions:read" ∷ "subscription:read" ∷ [])
    else route

-- All that effectiveRoute calls, for runs.
unfoldable pub effective_functions : Unit {0}
unfolding effective_route read_route open_read add_read_all write_route write_case apply_case
    writes_on
effective_functions = tt
