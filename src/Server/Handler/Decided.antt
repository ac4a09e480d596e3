-- ===== src/Server/Handler/Decided.antt =====
-- internal/server/server.go: from the authentication on, apiHandler answers and gives back what it took.
use remnaguard.Prelude.{
  arith, ℕ, String, false, not, Option, none, some, ◌&&◌, ◌||◌, if◌then◌else◌, ◌==◌, refl,
}
use remnaguard.Config.{TokenPolicy, Credential}
use remnaguard.Json.{no_items}
use remnaguard.Routes.{Route}
use remnaguard.Policy.Decide.{decide, has_privileged_scope}
use remnaguard.Proxy.{Response, RoundTripResult, answered, failed}
use remnaguard.Server.Credential.{AuthResult, authenticated, rejected}
use remnaguard.Server.Effective.{is_policy_enforced, is_restricted_write, writes_on}
use remnaguard.Server.Env.{Env}
use remnaguard.Server.Request.{Request, Outcome, ok, err, buffer_request_body}
use remnaguard.Server.Body.Policy.{validate_body_policy}
use remnaguard.Server.Response.Policy.{filter_response_policy, enforce_response_policy}
use remnaguard.Server.Handler.World.{RuntimeState, with_upstream}
use remnaguard.Server.Handler.Frees.{
  Frees, Frees-reply, Frees-if, Frees-with_token_rate, Frees-with_lock, Frees-with_upstream,
}
use remnaguard.Server.Handler.Keyed.{Frees-with_token}
use remnaguard.Server.Handler.Steps.{
  policy_deny-Frees, read_facade-Frees, preflight-Frees, post_write_verify-Frees, scan_pages-Frees,
}
use remnaguard.Server.Handler.Panel.{is_panel, set_if, handle_panel_read_facade}
use remnaguard.Server.Handler.Preflight.{lock_key}
use remnaguard.Server.Handler.Listing.{
  scan_pages, handle_panel_restricted_user_list, page_of, panel_upstream_raw_query,
}
use remnaguard.Server.Handler.Api.{
  refuses, after_verify, after_filter, after_listing, after_enforce, after_upstream, forward,
  after_body, after_preflight, checked_write, after_cache, guarded_write, decided, after_auth,
  authenticate, refused, panel_refused, stripped,
}

module _ (env : Env) (st : RuntimeState) where
  module _ (r : Request) (route : Route) (path : String) (raw_query : String) (tok : TokenPolicy)
      (cred : Credential) where
    panel_refused-Frees :
        (reason : String) (status : ℕ)
        → Frees (panel_refused env st r route path raw_query tok cred reason status)
    panel_refused-Frees reason status =
        policy_deny-Frees env st r route _ reason _ (Frees-reply _ refl)

    after_verify-Frees :
        (res : Response) (o : Option String)
        → Frees (after_verify env st r route path raw_query tok cred res o)
    after_verify-Frees res none = Frees-reply _ refl
    after_verify-Frees res (some e) = Frees-reply _ refl

    after_filter-Frees :
        (o : Outcome Response) → Frees (after_filter env st r route path raw_query tok cred o)
    after_filter-Frees (err e) = Frees-reply _ refl
    after_filter-Frees (ok res) =
        post_write_verify-Frees env st r route tok res _ (after_verify-Frees res)

    after_listing-Frees :
        (o : Option (Outcome Response))
        → Frees (after_listing env st r route path raw_query tok cred o)
    after_listing-Frees none = Frees-reply _ refl
    after_listing-Frees (some o) = after_filter-Frees o

    after_enforce-Frees :
        (o : Outcome Response) → Frees (after_enforce env st r route path raw_query tok cred o)
    after_enforce-Frees (err e) = panel_refused-Frees e 403
    after_enforce-Frees (ok res) =
        after_listing-Frees (filter_response_policy env route tok res (page_of env r raw_query))

    after_upstream-Frees :
        (res : RoundTripResult) → Frees (after_upstream env st r route path raw_query tok cred res)
    after_upstream-Frees (failed e) = Frees-reply _ refl
    after_upstream-Frees (answered res) =
        after_enforce-Frees (enforce_response_policy env route tok res)

    forward-Frees : Frees (forward env st r route path raw_query tok cred)
    unfolding forward handle_panel_restricted_user_list
    forward-Frees =
        let other =
          not (is_panel r) || not (route.name == "user.list") || has_privileged_scope tok.scopes in
        let query = panel_upstream_raw_query env r route tok raw_query in
        let passed =
          with_upstream env st.proxy r path query false
            (after_upstream env st r route path raw_query tok cred) in
        Frees-if other passed (scan_pages env st r route path raw_query tok cred 21 0 no_items none)
          (Frees-with_upstream env st.proxy r path query false _ after_upstream-Frees)
          (scan_pages-Frees env st r route path raw_query tok cred 21 0 no_items none (omega arith)
            (omega arith))

  module _ (route : Route) (path : String) (raw_query : String) (tok : TokenPolicy)
      (cred : Credential) where
    after_body-Frees :
        (r : Request) (o : Option String)
        → Frees (after_body env st route path raw_query tok cred r o)
    after_body-Frees r (some e) = panel_refused-Frees r route path raw_query tok cred e _
    after_body-Frees r none = forward-Frees (stripped env st r) route path raw_query tok cred

    after_preflight-Frees :
        (r : Request) (o : Option String)
        → Frees (after_preflight env st route path raw_query tok cred r o)
    after_preflight-Frees r (some e) = panel_refused-Frees r route path raw_query tok cred e 403
    after_preflight-Frees r none = after_body-Frees r (validate_body_policy env r st.cfg route tok)

    checked_write-Frees :
        (r : Request) → Frees (checked_write env st route path raw_query tok cred r)
    checked_write-Frees r = preflight-Frees env st r route path tok _ (after_preflight-Frees r)

    after_cache-Frees :
        (r : Request) (o : Outcome Request)
        → Frees (after_cache env st route path raw_query tok cred r o)
    after_cache-Frees r (err e) = Frees-reply _ refl
    after_cache-Frees r (ok s) =
        Frees-with_lock (lock_key env s route path) _ (checked_write-Frees s)

    decided-Frees : (r : Request) → Frees (decided env st route path raw_query tok cred r)
    unfolding decided guarded_write
    decided-Frees r =
        let dec = decide (some tok) route in
        let buffered = buffer_request_body r st.cfg.limits.max_body_bytes in
        let refusal =
          refused env st r route path raw_query tok cred "write_safety_not_enabled" 403 in
        let write = after_cache env st route path raw_query tok cred r buffered in
        let other = checked_write env st route path raw_query tok cred r in
        let locked = if not (writes_on st.cfg) then refusal else write in
        let guarded =
          if is_restricted_write route && is_policy_enforced route.support then locked else other in
        Frees-if (refuses st r dec)
          (panel_refused env st r route path raw_query tok cred dec.reason 403)
          (handle_panel_read_facade r path guarded)
          (panel_refused-Frees r route path raw_query tok cred dec.reason 403)
          (read_facade-Frees env st r path guarded (
            Frees-if (is_restricted_write route && is_policy_enforced route.support) locked other
              (Frees-if (not (writes_on st.cfg)) refusal write (Frees-reply _ refl)
                (after_cache-Frees r buffered))
              (checked_write-Frees r)))

  after_auth-Frees :
      (r : Request) (route : Route) (path raw_query : String) (a : AuthResult)
      → Frees (after_auth env st r route path raw_query a)
  after_auth-Frees r route path raw_query (rejected e ctx) = Frees-reply _ refl
  after_auth-Frees r route path raw_query (authenticated tok cred ctx) =
      Frees-with_token tok.id _ _ (Frees-reply _ refl) (
        Frees-with_token_rate env.now tok.id _ _ (Frees-reply _ refl)
          (decided-Frees route path raw_query tok cred (set_if ctx r)))

  pub authenticate-Frees :
      (r : Request) (route : Route) (path raw_query : String)
      → Frees (authenticate env st r route path raw_query)
  unfolding authenticate
  authenticate-Frees r route path raw_query = after_auth-Frees r route path raw_query _
