-- ===== src/Routes/Overrides.antt =====
-- internal/routes/catalog.go: the routes that the catalog describes in full.
use remnaguard.Prelude.{ℕ, String, true, false, List, [], ◌∷◌, pos}
use remnaguard.Routes.Types.{Route, Support, policy_enforced, privileged, public_subscription}

abbrev pub user_fields : List String
user_fields =
    "username" ∷ "status" ∷ "shortUuid" ∷ "short_uuid" ∷ "trojanPassword" ∷ "vlessUuid"
    ∷ "ssPassword" ∷ "expireAt" ∷ "createdAt" ∷ "lastTrafficResetAt" ∷ "trafficLimitBytes"
    ∷ "trafficLimitStrategy" ∷ "telegramId" ∷ "telegram_id" ∷ "email" ∷ "description" ∷ "tag"
    ∷ "activeInternalSquads" ∷ "hwidDeviceLimit" ∷ "uuid" ∷ "externalSquadUuid"
    ∷ "external_squad_uuid" ∷ "subscriptionPageConfigUuid" ∷ "subscriptionPageConfigUUID"
    ∷ "subscription_page_config_uuid" ∷ []

abbrev pub user_update_fields : List String
user_update_fields =
    "username" ∷ "uuid" ∷ "status" ∷ "expireAt" ∷ "trafficLimitBytes" ∷ "trafficLimitStrategy"
    ∷ "telegramId" ∷ "telegram_id" ∷ "email" ∷ "description" ∷ "tag" ∷ "activeInternalSquads"
    ∷ "hwidDeviceLimit" ∷ "externalSquadUuid" ∷ "external_squad_uuid" ∷ "subscriptionPageConfigUuid"
    ∷ "subscriptionPageConfigUUID" ∷ "subscription_page_config_uuid" ∷ []

-- A route with no body rules.
abbrev reading : String → String → String → Support → List String → List String → String → Route
reading name method pattern support scopes query group = record {
  name = name;
  method = method;
  pattern = pattern;
  support = support;
  scopes = scopes;
  query_allowed = query;
  body_limit = pos 0;
  body_object = false;
  allowed_fields = [];
  required_boolean = "";
  group = group;
  unsupported_reason = "";
}

-- A privileged route whose body is a JSON object.
abbrev writing : String → String → String → ℕ → List String → String → String → Route
writing name method pattern limit fields required group = record {
  name = name;
  method = method;
  pattern = pattern;
  support = privileged;
  scopes = "remnawave:*" ∷ [];
  query_allowed = [];
  body_limit = pos limit;
  body_object = true;
  allowed_fields = fields;
  required_boolean = required;
  group = group;
  unsupported_reason = "";
}

unfoldable pub overrides : List Route
overrides =
    reading "user.read.uuid" "GET" "/api/users/{uuid}" policy_enforced ("users:read" ∷ [])
      ("includeHwid" ∷ "includeSubscription" ∷ []) "users"
    ∷ reading "user.read.username" "GET" "/api/users/by-username/{username}" policy_enforced
        ("users:read" ∷ []) ("includeHwid" ∷ "includeSubscription" ∷ []) "users"
    ∷ reading "user.read.telegram" "GET" "/api/users/by-telegram-id/{telegramId}" policy_enforced
        ("users:read" ∷ []) ("includeHwid" ∷ "includeSubscription" ∷ []) "users"
    ∷ reading "user.list" "GET" "/api/users" policy_enforced ("users:read" ∷ [])
        ("page" ∷ "size" ∷ "limit" ∷ "offset" ∷ "start" ∷ "search" ∷ "username" ∷ "includeHwid"
          ∷ "includeSubscription" ∷ "filters" ∷ "filterModes" ∷ "sorting" ∷ [])
        "users"
    ∷ writing "user.create" "POST" "/api/users" 65536 user_fields "" "users"
    ∷ writing "user.update" "PATCH" "/api/users" 65536 user_update_fields "" "users"
    ∷ reading "user.delete" "DELETE" "/api/users/{uuid}" privileged ("remnawave:*" ∷ []) [] "users"
    ∷ reading "user.actions.disable" "POST" "/api/users/{uuid}/actions/disable" privileged
        ("remnawave:*" ∷ []) [] "users"
    ∷ reading "user.actions.enable" "POST" "/api/users/{uuid}/actions/enable" privileged
        ("remnawave:*" ∷ []) [] "users"
    ∷ reading "user.actions.reset_traffic" "POST" "/api/users/{uuid}/actions/reset-traffic"
        privileged ("remnawave:*" ∷ []) [] "users"
    ∷ reading "user.actions.revoke" "POST" "/api/users/{uuid}/actions/revoke" privileged
        ("remnawave:*" ∷ []) [] "users"
    ∷ reading "hwid.list" "GET" "/api/hwid/devices/{userUuid}" policy_enforced ("hwid:read" ∷ []) []
        "hwid"
    ∷ writing "hwid.create" "POST" "/api/hwid/devices" 8192
        ("hwid" ∷ "userUuid" ∷ "platform" ∷ "osVersion" ∷ "deviceModel" ∷ "userAgent" ∷ []) ""
        "hwid"
    ∷ writing "hwid.delete" "POST" "/api/hwid/devices/delete" 8192 ("userUuid" ∷ "hwid" ∷ []) ""
        "hwid"
    ∷ writing "hwid.delete_all" "POST" "/api/hwid/devices/delete-all" 8192 ("userUuid" ∷ []) ""
        "hwid"
    ∷ reading "squad.internal.read" "GET" "/api/internal-squads/{uuid}" policy_enforced
        ("squads:read" ∷ []) [] "internal-squads"
    ∷ reading "squad.external.read" "GET" "/api/external-squads/{uuid}" policy_enforced
        ("squads:read" ∷ []) [] "external-squads"
    ∷ reading "squad.internal.list" "GET" "/api/internal-squads" policy_enforced
        ("squads:read" ∷ []) ("page" ∷ "size" ∷ "limit" ∷ "offset" ∷ "search" ∷ [])
        "internal-squads"
    ∷ reading "squad.external.list" "GET" "/api/external-squads" policy_enforced
        ("squads:read" ∷ []) ("page" ∷ "size" ∷ "limit" ∷ "offset" ∷ "search" ∷ [])
        "external-squads"
    ∷ reading "system.health" "GET" "/api/system/health" policy_enforced ("system:read" ∷ []) []
        "system"
    ∷ reading "system.metadata" "GET" "/api/system/metadata" policy_enforced ("metadata:read" ∷ [])
        [] "metadata"
    ∷ reading "system.bandwidth" "GET" "/api/system/stats/bandwidth" policy_enforced
        ("system:read" ∷ []) ("tz" ∷ []) "bandwidth-stats"
    ∷ reading "system.stats" "GET" "/api/system/stats" policy_enforced ("system:read" ∷ [])
        ("tz" ∷ []) "system"
    ∷ writing "post.nodes.uuid.actions.restart" "POST" "/api/nodes/{uuid}/actions/restart" 8192
        ("forceRestart" ∷ []) "forceRestart" "nodes"
    ∷ writing "post.nodes.actions.restart_all" "POST" "/api/nodes/actions/restart-all" 8192
        ("forceRestart" ∷ []) "forceRestart" "nodes"
    ∷ reading "sub.info" "GET" "/api/sub/{shortUuid}/info" public_subscription [] [] "subscriptions"
    ∷ reading "sub.base" "GET" "/api/sub/{shortUuid}" public_subscription [] [] "subscriptions"
    ∷ reading "sub.client" "GET" "/api/sub/{shortUuid}/{clientType}" public_subscription [] []
        "subscriptions"
    ∷ reading "subscription_page_config.list" "GET" "/api/subscription-page-configs" policy_enforced
        ("subscription-pages:read" ∷ []) [] "subscription-page-configs"
    ∷ reading "subscription_page_config.read" "GET" "/api/subscription-page-configs/{uuid}"
        policy_enforced ("subscription-pages:read" ∷ []) [] "subscription-page-configs"
    ∷ reading "subscription.subpage_config" "GET" "/api/subscriptions/subpage-config/{shortUuid}"
        policy_enforced ("subscriptions:read" ∷ "subscription:read" ∷ []) [] "subscriptions"
    ∷ []
