-- ===== src/Server/Handler/Panel.antt =====
-- internal/server/server.go: the panel's audit context of a request, and the replies that only a panel gets.
use remnaguard.Prelude.{
  ℕ, String, Bool, true, false, not, Option, none, some, [], ◌∷◌, ◌||◌, if◌then◌else◌, ◌==◌,
  has_prefix, has_suffix, contains_text,
}
use remnaguard.Config.{Config, contains}
use remnaguard.Header.{Header, header_get, header_set, header_del}
use remnaguard.Auth.Bearer.{bearer_token}
use remnaguard.Routes.{Route}
use remnaguard.Server.Credential.{PanelAuditContext}
use remnaguard.Server.Request.{Request}
use remnaguard.Server.Handler.World.{Handler, facade_page, panel_denied, reply}

abbrev or_base : String → String → String
or_base next base = if next == "" then base else next

-- mergePanelAuditContext
unfoldable pub merge_panel_audit_context : PanelAuditContext → PanelAuditContext → PanelAuditContext
merge_panel_audit_context base next = record {
  actor_type = or_base next.actor_type base.actor_type;
  actor_id = or_base next.actor_id base.actor_id;
  credential_id = or_base next.credential_id base.credential_id;
  display_name = or_base next.display_name base.display_name;
  auth_event_type = or_base next.auth_event_type base.auth_event_type;
}

abbrev merged : Option PanelAuditContext → PanelAuditContext → PanelAuditContext
merged none ctx = ctx
merged (some existing) ctx = merge_panel_audit_context existing ctx

-- setPanelAuditContext
unfoldable pub set_panel_audit_context : PanelAuditContext → Request → Request
set_panel_audit_context ctx r = record r { audit = some (merged r.audit ctx) }

abbrev pub set_if : Option PanelAuditContext → Request → Request
set_if none r = r
set_if (some ctx) r = set_panel_audit_context ctx r

abbrev session_only : PanelAuditContext
session_only = record {
  actor_type = "";
  actor_id = "";
  credential_id = "";
  display_name = "";
  auth_event_type = "session";
}

abbrev pub marked : Option String → Request → Request
marked none r = r
marked (some token) r = if has_prefix token "rg_" then r else set_panel_audit_context session_only r

abbrev pub is_panel : Request → Bool
is_panel r = elim r.audit [ none ↦ false | some ctx ↦ true ]

-- markPanelBearerCandidate
unfoldable pub mark_panel_bearer_candidate : Config → Request → Request
mark_panel_bearer_candidate cfg r =
    if not cfg.panel_facade.enabled || is_panel r
    then r
    else marked (bearer_token (header_get r.raw.header "Authorization")) r

-- isPanelListLikeRead
unfoldable pub is_panel_list_like_read : Route → String → Bool
is_panel_list_like_read route path =
    if has_suffix path "/tags" || has_suffix path "/inbounds"
    then true
    else not (contains_text route.pattern "{")

-- panelPolicyDenyStatus
unfoldable pub panel_policy_deny_status : String → Route → String → ℕ
panel_policy_deny_status method route path =
    if not (method == "GET") then 422 else if is_panel_list_like_read route path then 200 else 404

-- handlePanelPolicyDeny with the deny that follows where it is false, for the path that safeRequestContext
-- gives
unfoldable pub policy_deny : Request → Route → String → String → Handler → Handler
policy_deny r route path reason denied =
    if is_panel r
    then reply (panel_denied (panel_policy_deny_status r.raw.method route path) reason)
    else denied

-- handlePanelReadFacade; `served` goes on where it is false
unfoldable pub handle_panel_read_facade : Request → String → Handler → Handler
handle_panel_read_facade r path served =
    if not (is_panel r) || not (r.raw.method == "GET")
    then served
    else if contains ("/api/remnawave-settings" ∷ "/api/tokens" ∷ "/api/passkeys" ∷ []) path
    then reply (facade_page path)
    else served

-- stripConditionalRequestHeaders
unfoldable pub strip_conditional_request_headers : Header → Header
strip_conditional_request_headers h =
    header_del "If-Range" (header_del "If-Modified-Since" (header_del "If-None-Match" h))

-- disablePanelCacheHeaders
unfoldable pub disable_panel_cache_headers : Header → Header
disable_panel_cache_headers h = header_set "Expires" "0" (
    header_set "Pragma" "no-cache"
      (header_set "Cache-Control" "no-store" (header_del "Last-Modified" (header_del "Etag" h))))
