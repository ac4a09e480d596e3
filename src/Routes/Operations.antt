-- ===== src/Routes/Operations.antt =====
-- internal/routes/catalog.go: the operations of Remnawave 2.8.1, the non-blank lines of the constant.
use remnaguard.Prelude.{String, List, [], ◌∷◌}

abbrev pub delete_operations : List String
delete_operations =
    "DELETE /api/config-profiles/{uuid}" ∷ "DELETE /api/external-squads/{uuid}"
    ∷ "DELETE /api/external-squads/{uuid}/bulk-actions/remove-users" ∷ "DELETE /api/hosts/{uuid}"
    ∷ "DELETE /api/infra-billing/history/{uuid}" ∷ "DELETE /api/infra-billing/nodes/{uuid}"
    ∷ "DELETE /api/infra-billing/providers/{uuid}" ∷ "DELETE /api/internal-squads/{uuid}"
    ∷ "DELETE /api/internal-squads/{uuid}/bulk-actions/remove-users"
    ∷ "DELETE /api/node-plugins/torrent-blocker/truncate" ∷ "DELETE /api/node-plugins/{uuid}"
    ∷ "DELETE /api/nodes/{uuid}" ∷ "DELETE /api/passkeys" ∷ "DELETE /api/snippets"
    ∷ "DELETE /api/subscription-page-configs/{uuid}" ∷ "DELETE /api/subscription-templates/{uuid}"
    ∷ "DELETE /api/tokens/{uuid}" ∷ "DELETE /api/users/{uuid}" ∷ []

abbrev pub get_operations : List String
get_operations =
    "GET /api/auth/passkey/authentication/options" ∷ "GET /api/auth/status"
    ∷ "GET /api/bandwidth-stats/nodes" ∷ "GET /api/bandwidth-stats/nodes/{uuid}/users"
    ∷ "GET /api/bandwidth-stats/nodes/{uuid}/users/legacy" ∷ "GET /api/bandwidth-stats/users/{uuid}"
    ∷ "GET /api/bandwidth-stats/users/{uuid}/legacy" ∷ "GET /api/config-profiles"
    ∷ "GET /api/config-profiles/inbounds" ∷ "GET /api/config-profiles/{uuid}"
    ∷ "GET /api/config-profiles/{uuid}/computed-config" ∷ "GET /api/config-profiles/{uuid}/inbounds"
    ∷ "GET /api/external-squads" ∷ "GET /api/external-squads/{uuid}" ∷ "GET /api/hosts"
    ∷ "GET /api/hosts/tags" ∷ "GET /api/hosts/{uuid}" ∷ "GET /api/hwid/devices"
    ∷ "GET /api/hwid/devices/stats" ∷ "GET /api/hwid/devices/top-users"
    ∷ "GET /api/hwid/devices/{userUuid}" ∷ "GET /api/infra-billing/history"
    ∷ "GET /api/infra-billing/nodes" ∷ "GET /api/infra-billing/providers"
    ∷ "GET /api/infra-billing/providers/{uuid}" ∷ "GET /api/internal-squads"
    ∷ "GET /api/internal-squads/{uuid}" ∷ "GET /api/internal-squads/{uuid}/accessible-nodes"
    ∷ "GET /api/ip-control/fetch-ips/result/{jobId}"
    ∷ "GET /api/ip-control/fetch-users-ips/result/{jobId}" ∷ "GET /api/keygen"
    ∷ "GET /api/metadata/node/{uuid}" ∷ "GET /api/metadata/user/{uuid}" ∷ "GET /api/node-plugins"
    ∷ "GET /api/node-plugins/torrent-blocker" ∷ "GET /api/node-plugins/torrent-blocker/stats"
    ∷ "GET /api/node-plugins/{uuid}" ∷ "GET /api/nodes" ∷ "GET /api/nodes/tags"
    ∷ "GET /api/nodes/{uuid}" ∷ "GET /api/passkeys" ∷ "GET /api/passkeys/registration/options"
    ∷ "GET /api/remnawave-settings" ∷ "GET /api/snippets" ∷ "GET /api/sub/{shortUuid}"
    ∷ "GET /api/sub/{shortUuid}/info" ∷ "GET /api/sub/{shortUuid}/{clientType}"
    ∷ "GET /api/subscription-page-configs" ∷ "GET /api/subscription-page-configs/{uuid}"
    ∷ "GET /api/subscription-request-history" ∷ "GET /api/subscription-request-history/stats"
    ∷ "GET /api/subscription-settings" ∷ "GET /api/subscription-templates"
    ∷ "GET /api/subscription-templates/{uuid}" ∷ "GET /api/subscriptions"
    ∷ "GET /api/subscriptions/by-short-uuid/{shortUuid}"
    ∷ "GET /api/subscriptions/by-short-uuid/{shortUuid}/raw"
    ∷ "GET /api/subscriptions/by-username/{username}" ∷ "GET /api/subscriptions/by-uuid/{uuid}"
    ∷ "GET /api/subscriptions/connection-keys/{uuid}"
    ∷ "GET /api/subscriptions/subpage-config/{shortUuid}" ∷ "GET /api/system/health"
    ∷ "GET /api/system/metadata" ∷ "GET /api/system/nodes/metrics" ∷ "GET /api/system/stats"
    ∷ "GET /api/system/stats/bandwidth" ∷ "GET /api/system/stats/nodes"
    ∷ "GET /api/system/stats/recap" ∷ "GET /api/system/tools/x25519/generate" ∷ "GET /api/tokens"
    ∷ "GET /api/tokens/scopes" ∷ "GET /api/users" ∷ "GET /api/users/by-email/{email}"
    ∷ "GET /api/users/by-id/{id}" ∷ "GET /api/users/by-short-uuid/{shortUuid}"
    ∷ "GET /api/users/by-tag/{tag}" ∷ "GET /api/users/by-telegram-id/{telegramId}"
    ∷ "GET /api/users/by-username/{username}" ∷ "GET /api/users/tags" ∷ "GET /api/users/stream"
    ∷ "GET /api/users/{uuid}" ∷ "GET /api/users/{uuid}/accessible-nodes"
    ∷ "GET /api/users/{uuid}/subscription-request-history" ∷ []

abbrev pub patch_operations : List String
patch_operations =
    "PATCH /api/config-profiles" ∷ "PATCH /api/external-squads" ∷ "PATCH /api/hosts"
    ∷ "PATCH /api/hosts/bulk/update" ∷ "PATCH /api/infra-billing/nodes"
    ∷ "PATCH /api/infra-billing/providers" ∷ "PATCH /api/internal-squads"
    ∷ "PATCH /api/node-plugins" ∷ "PATCH /api/nodes" ∷ "PATCH /api/passkeys"
    ∷ "PATCH /api/remnawave-settings" ∷ "PATCH /api/snippets"
    ∷ "PATCH /api/subscription-page-configs" ∷ "PATCH /api/subscription-settings"
    ∷ "PATCH /api/subscription-templates" ∷ "PATCH /api/users" ∷ []

abbrev pub post_operations : List String
post_operations =
    "POST /api/auth/login" ∷ "POST /api/auth/oauth2/authorize" ∷ "POST /api/auth/oauth2/callback"
    ∷ "POST /api/auth/passkey/authentication/verify" ∷ "POST /api/auth/register"
    ∷ "POST /api/bandwidth-stats/nodes/users" ∷ "POST /api/config-profiles"
    ∷ "POST /api/config-profiles/actions/reorder" ∷ "POST /api/external-squads"
    ∷ "POST /api/external-squads/actions/reorder"
    ∷ "POST /api/external-squads/{uuid}/bulk-actions/add-users" ∷ "POST /api/hosts"
    ∷ "POST /api/hosts/actions/reorder" ∷ "POST /api/hosts/bulk/delete"
    ∷ "POST /api/hosts/bulk/disable" ∷ "POST /api/hosts/bulk/enable" ∷ "POST /api/hwid/devices"
    ∷ "POST /api/hwid/devices/delete" ∷ "POST /api/hwid/devices/delete-all"
    ∷ "POST /api/infra-billing/history" ∷ "POST /api/infra-billing/nodes"
    ∷ "POST /api/infra-billing/providers" ∷ "POST /api/internal-squads"
    ∷ "POST /api/internal-squads/actions/reorder"
    ∷ "POST /api/internal-squads/{uuid}/bulk-actions/add-users"
    ∷ "POST /api/ip-control/drop-connections" ∷ "POST /api/ip-control/fetch-ips/{uuid}"
    ∷ "POST /api/ip-control/fetch-users-ips/{nodeUuid}" ∷ "POST /api/node-plugins"
    ∷ "POST /api/node-plugins/actions/clone" ∷ "POST /api/node-plugins/actions/reorder"
    ∷ "POST /api/node-plugins/executor" ∷ "POST /api/nodes" ∷ "POST /api/nodes/actions/reorder"
    ∷ "POST /api/nodes/actions/restart-all" ∷ "POST /api/nodes/bulk-actions"
    ∷ "POST /api/nodes/bulk-actions/profile-modification" ∷ "POST /api/nodes/bulk-actions/update"
    ∷ "POST /api/nodes/{uuid}/actions/disable" ∷ "POST /api/nodes/{uuid}/actions/enable"
    ∷ "POST /api/nodes/{uuid}/actions/reset-traffic" ∷ "POST /api/nodes/{uuid}/actions/restart"
    ∷ "POST /api/passkeys/registration/verify" ∷ "POST /api/snippets"
    ∷ "POST /api/subscription-page-configs" ∷ "POST /api/subscription-page-configs/actions/clone"
    ∷ "POST /api/subscription-page-configs/actions/reorder" ∷ "POST /api/subscription-templates"
    ∷ "POST /api/subscription-templates/actions/reorder" ∷ "POST /api/system/testers/srr-matcher"
    ∷ "POST /api/tokens" ∷ "POST /api/users" ∷ "POST /api/users/bulk/all/extend-expiration-date"
    ∷ "POST /api/users/bulk/all/reset-traffic" ∷ "POST /api/users/bulk/all/update"
    ∷ "POST /api/users/bulk/delete" ∷ "POST /api/users/bulk/delete-by-status"
    ∷ "POST /api/users/bulk/extend-expiration-date" ∷ "POST /api/users/bulk/reset-traffic"
    ∷ "POST /api/users/bulk/revoke-subscription" ∷ "POST /api/users/bulk/update"
    ∷ "POST /api/users/bulk/update-squads" ∷ "POST /api/users/resolve"
    ∷ "POST /api/users/{uuid}/actions/disable" ∷ "POST /api/users/{uuid}/actions/enable"
    ∷ "POST /api/users/{uuid}/actions/reset-traffic" ∷ "POST /api/users/{uuid}/actions/revoke" ∷ []

abbrev pub put_operations : List String
put_operations = "PUT /api/metadata/node/{uuid}" ∷ "PUT /api/metadata/user/{uuid}" ∷ []
