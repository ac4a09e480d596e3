-- ===== src/Server/Handler/Api.antt =====
-- internal/server/server.go: apiHandler. Its stages stand from the last to the first. The panel's login
-- handlers are the parameter `panel_login`.
use remnaguard.Prelude.{
  ℕ, String, Bool, true, false, not, Option, none, some, List, ◌&&◌, ◌||◌, if◌then◌else◌, ◌==◌,
  ◌+++◌, len, ltb, has_prefix, has_suffix, trim_right, nat_eq, first_codes,
}
use remnaguard.Config.{Config, TokenPolicy, Credential, effective_version}
use remnaguard.Header.{header_get}
use remnaguard.Httputil
use remnaguard.Httputil.{Validated, validate_raw_request}
use remnaguard.Httputil.Query.{validate_query, validate_query_structural}
use remnaguard.Routes.{Route, Support, privileged, public_subscription}
use remnaguard.Routes.Catalog.{catalog, match_route}
use remnaguard.Policy.Decide.{Decision, decide}
use remnaguard.Proxy.{Response, RoundTripResult, answered, failed}
use remnaguard.Server.Credential.{AuthResult, authenticated, rejected, resolve_request_credential}
use remnaguard.Server.Effective.{
  effective_route, is_policy_enforced, is_restricted_write, subscription_route, writes_on,
}
use remnaguard.Server.Env.{Env}
use remnaguard.Server.Request.{Request, Outcome, ok, err, too_large, buffer_request_body}
use remnaguard.Server.Body.Policy.{validate_body_policy}
use remnaguard.Server.OauthStore.{OauthStore}
use remnaguard.Server.Response.Policy.{enforce_response_policy, filter_response_policy}
use remnaguard.Server.Handler.World.{
  aborted, Handler, RuntimeState, LoginReply, rate_limited, login, written, reply, deny,
  with_global, with_token, with_token_rate, with_lock, with_upstream,
}
use remnaguard.Server.Handler.Panel.{
  is_panel, set_if, mark_panel_bearer_candidate, policy_deny, handle_panel_read_facade,
  strip_conditional_request_headers, disable_panel_cache_headers,
}
use remnaguard.Server.Handler.Preflight.{preflight, post_write_verify, lock_key}
use remnaguard.Server.Handler.Listing.{
  page_of, handle_panel_restricted_user_list, panel_upstream_raw_query,
}
use remnaguard.Server.Handler.Subscription.{handle_public_sub}

abbrev pub body_status : String → ℕ
body_status e = if e == too_large then 413 else 400

-- safeRequestContext's path
unfoldable pub safe_path : Env → Request → String
safe_path env r =
    let path = env.escaped_path r.raw.request_uri in
    if path == "" then "/" else if ltb 256 (len path) then first_codes 256 path +++ "..." else path

abbrev is_slash : ℕ → Bool
is_slash c = nat_eq c b'/'

-- The path without slashes at its end.
unfoldable pub trimmed : String → String
trimmed path =
    if not (path == "/api/") && has_suffix path "/" then trim_right is_slash path else path

abbrev query_error_of : Env → Support → List String → String → Option String
query_error_of env privileged allowed raw_query =
    validate_query_structural env.parse_query raw_query
query_error_of env _ allowed raw_query = validate_query env.parse_query raw_query allowed

-- validateRequestQuery, which is validateRouteQuery
unfoldable pub validate_request_query : Env → Route → String → Option String
validate_request_query env route raw_query =
    query_error_of env route.support route.query_allowed raw_query

abbrev pub is_public : Support → Bool
is_public public_subscription = true
is_public _ = false

-- Whether a decision ends the request.
abbrev pub refuses : RuntimeState → Request → Decision → Bool
refuses st r dec =
    not dec.allow
    && (is_panel r || not st.cfg.report.enabled || not st.cfg.report.unsafe_report_proxy)

module _ (env : Env) (st : RuntimeState) where
  module _ (r : Request) (route : Route) (path : String) (raw_query : String) (tok : TokenPolicy)
      (cred : Credential) where
    abbrev pub refused : String → ℕ → Handler
    refused reason status = deny route.name tok.id cred.id reason status

    abbrev pub panel_refused : String → ℕ → Handler
    panel_refused reason status =
        policy_deny r route (safe_path env r) reason (refused reason status)

    abbrev sent_header : Response → Response
    sent_header res =
        if is_panel r then record res { header = disable_panel_cache_headers res.header } else res

    abbrev pub after_verify : Response → Option String → Handler
    after_verify res (some e) = refused e 403
    after_verify res none = reply (written false (sent_header res))

    abbrev pub after_filter : Outcome Response → Handler
    after_filter (err e) = refused e 502
    after_filter (ok res) = post_write_verify env st r route tok res (after_verify res)

    abbrev pub after_listing : Option (Outcome Response) → Handler
    after_listing none = reply aborted
    after_listing (some o) = after_filter o

    abbrev pub after_enforce : Outcome Response → Handler
    after_enforce (err e) = panel_refused e 403
    after_enforce (ok res) =
        after_listing (filter_response_policy env route tok res (page_of env r raw_query))

    abbrev pub after_upstream : RoundTripResult → Handler
    after_upstream (failed e) = refused "upstream_unavailable" 502
    after_upstream (answered res) = after_enforce (enforce_response_policy env route tok res)

    -- From the restricted list of users on.
    unfoldable pub forward : Handler
    unfolding handle_panel_restricted_user_list with_upstream
    forward = handle_panel_restricted_user_list env st r route path raw_query tok cred (
        with_upstream env st.proxy r path (panel_upstream_raw_query env r route tok raw_query) false
          after_upstream)

  abbrev pub stripped : Request → Request
  stripped r =
      if is_panel r
      then record r {
        raw = record r.raw { header = strip_conditional_request_headers r.raw.header };
      }
      else r

  module _ (route : Route) (path : String) (raw_query : String) (tok : TokenPolicy)
      (cred : Credential) where
    abbrev pub after_body : Request → Option String → Handler
    after_body r (some e) = panel_refused r route path raw_query tok cred e (body_status e)
    after_body r none = forward (stripped r) route path raw_query tok cred

    abbrev pub after_preflight : Request → Option String → Handler
    after_preflight r (some e) = panel_refused r route path raw_query tok cred e 403
    after_preflight r none = after_body r (validate_body_policy env r st.cfg route tok)

    abbrev pub checked_write : Request → Handler
    checked_write r = preflight env st r route path tok (after_preflight r)

    abbrev pub after_cache : Request → Outcome Request → Handler
    after_cache before (err e) = refused before route path raw_query tok cred e (body_status e)
    after_cache before (ok r) = with_lock (lock_key env r route path) (checked_write r)

    -- From the check of the write safety on.
    unfoldable pub guarded_write : Request → Handler
    unfolding with_lock
    guarded_write r =
        if is_restricted_write route && is_policy_enforced route.support
        then if not (writes_on st.cfg)
          then refused r route path raw_query tok cred "write_safety_not_enabled" 403
          else after_cache r (buffer_request_body r st.cfg.limits.max_body_bytes)
        else checked_write r

    -- From the decision on.
    unfoldable pub decided : Request → Handler
    decided r =
        let dec = decide (some tok) route in
        if refuses st r dec
        then panel_refused r route path raw_query tok cred dec.reason 403
        else handle_panel_read_facade r path (guarded_write r)

  abbrev pub after_auth : Request → Route → String → String → AuthResult → Handler
  after_auth r route path raw_query (rejected e ctx) =
      deny route.name "" e.credential_id e.reason e.status
  after_auth r route path raw_query (authenticated tok cred ctx) =
      with_token tok.id (deny route.name tok.id cred.id "token_concurrency" 429) (
        with_token_rate env.now tok.id (deny route.name tok.id cred.id "token_rate_limit" 429)
          (decided route path raw_query tok cred (set_if ctx r)))

  -- From the authentication on.
  unfoldable pub authenticate : Request → Route → String → String → Handler
  unfolding with_token with_token_rate
  authenticate r route path raw_query = after_auth r route path raw_query (
      resolve_request_credential env.digest env.sign env.encode_claims env.decode_claims env.getenv
        st.cfg st.has_actors r.raw.header env.now)

  abbrev pub by_support : Request → Route → String → String → Handler
  by_support r route path raw_query =
      if is_public route.support
      then if st.cfg.public_subs.enabled
        then handle_public_sub env st r route path raw_query
        else if header_get r.raw.header "Authorization" == ""
        then deny route.name "" "" "public_subscriptions_disabled" 403
        else authenticate r (subscription_route route) path raw_query
      else authenticate r route path raw_query

  abbrev pub after_buffer : Route → String → String → Outcome Request → Handler
  after_buffer route path raw_query (err e) = deny route.name "" "" e (body_status e)
  after_buffer route path raw_query (ok r) = by_support r route path raw_query

  abbrev pub after_query : Request → Route → String → String → Option String → Handler
  after_query r route path raw_query (some e) = deny route.name "" "" e 400
  after_query r route path raw_query none =
      after_buffer route path raw_query (buffer_request_body r st.cfg.limits.max_body_bytes)

  -- From the version guard on.
  unfoldable pub serve_route : Request → Route → String → String → Handler
  unfolding handle_public_sub authenticate
  serve_route r route path raw_query =
      if not st.version_ok
      then deny route.name "" "" "version_guard" 503
      else after_query r route path raw_query (validate_request_query env route raw_query)

  module _
      (panel_login : Config → Route → String → Request → OauthStore → OauthStore × LoginReply) where
    -- handlePanelAuthFacade
    abbrev pub serve_login : Request → Route → String → Handler
    serve_login r route path w =
        let (store, answer) = panel_login st.cfg route path r w.oauth in
        (record w { oauth = store }, login answer)

    abbrev pub after_match : Request → String → String → Option Route → Handler
    after_match r path raw_query none = deny "" "" "" "unknown_route" 404
    after_match r path raw_query (some matched) =
        let route = effective_route st.cfg matched in
        if st.cfg.panel_facade.enabled && has_prefix path "/api/auth/"
        then serve_login r route path
        else serve_route r route path raw_query

    abbrev pub after_validation : Request → Validated → Handler
    after_validation r (Httputil.err e) = deny "" "" "" e 400
    after_validation r (Httputil.ok path raw_query) =
        after_match (mark_panel_bearer_candidate st.cfg r) (trimmed path) raw_query (
          match_route (catalog (effective_version st.cfg.compatibility)) r.raw.method
            (trimmed path))

    -- apiHandler
    unfoldable pub api_handler : Request → Handler
    unfolding with_global serve_route
    api_handler r = with_global (reply rate_limited) (
        after_validation r (
          validate_raw_request env.path_unescape env.query_parses r.raw
            st.cfg.limits.max_path_length st.cfg.limits.max_query_length))
