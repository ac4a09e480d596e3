-- ===== src/Server/Handler/Released.antt =====
-- internal/server/server.go: apiHandler answers, and gives back what it took, whichever way it ends.
use remnaguard.Prelude.{
  String, Bool, true, not, Option, none, some, ◌&&◌, ◌||◌, if◌then◌else◌, ◌==◌, ◌≡◌, refl, arith,
  ltb, nat_eq, length, has_prefix,
}
use remnaguard.Config.{Config, contains}
use remnaguard.Header.{header_get}
use remnaguard.Httputil
use remnaguard.Httputil.{Validated}
use remnaguard.Routes.{Route}
use remnaguard.Proxy.{RoundTripResult, answered, failed}
use remnaguard.Server.Effective.{effective_route, subscription_route}
use remnaguard.Server.Env.{Env}
use remnaguard.Server.OauthStore.{OauthStore}
use remnaguard.Server.Request.{Request, Outcome, ok, err, segment_at}
use remnaguard.Server.Handler.World.{World, RuntimeState, LoginReply, deny, reply, rate_limited}
use remnaguard.Server.Handler.Frees.{
  Frees, Freed, Frees-reply, Frees-if, Frees-with_global, Frees-with_sub_rate, Frees-with_upstream,
  SameHeld-refl,
}
use remnaguard.Server.Handler.Keyed.{Frees-with_sub_ip}
use remnaguard.Server.Handler.Panel.{mark_panel_bearer_candidate}
use remnaguard.Server.Handler.Subscription.{
  client_ip, path_parts, serve_public, limited_public, of_short, of_match, handle_public_sub,
}
use remnaguard.Server.Handler.Api.{
  trimmed, validate_request_query, is_public, authenticate, by_support, after_buffer, after_query,
  serve_route, serve_login, after_match, after_validation, api_handler,
}
use remnaguard.Server.Handler.Decided.{authenticate-Frees}

module _ (env : Env) (st : RuntimeState) where
  serve_public-Frees :
      (r : Request) (route : Route) (path raw_query : String) (res : RoundTripResult)
      → Frees (serve_public env st r route path raw_query res)
  serve_public-Frees r route path raw_query (failed e) = Frees-reply _ refl
  serve_public-Frees r route path raw_query (answered res) = Frees-reply _ refl

  of_short-Frees :
      (r : Request) (route : Route) (path raw_query : String) (short_ok : Bool)
      → Frees (of_short env st r route path raw_query short_ok)
  of_short-Frees r route path raw_query short_ok =
      let parts = path_parts path in
      let foreign =
        nat_eq (length parts) 4
        && not (segment_at 3 parts == "info")
        && not (contains st.cfg.public_subs.allowed_clients (segment_at 3 parts)) in
      let denied = deny route.name "" "" "client_type_denied" 403 in
      let served = limited_public env st r route path raw_query in
      Frees-if (ltb (length parts) 3 || not short_ok)
        (deny route.name "" "" "invalid_short_uuid" 400) (if foreign then denied else served)
        (Frees-reply _ refl)
        (Frees-if foreign denied served (Frees-reply _ refl) (
          Frees-with_sub_ip (client_ip r) _ _ (Frees-reply _ refl) (
            Frees-with_sub_rate env.now (client_ip r) _ _ (Frees-reply _ refl) (
              Frees-with_upstream env st.proxy r path raw_query true _
                (serve_public-Frees r route path raw_query)))))

  -- The configured expression for short UUIDs compiles.
  abbrev pub ShortCompiles : Type 0
  ShortCompiles =
      (s : String) → (b : Bool) × (env.matches_regex st.cfg.public_subs.short_uuid_regex s ≡ some b)

  module _ (compiles : ShortCompiles) where
    of_match-Frees :
        (r : Request) (route : Route) (path raw_query : String) (o : Option Bool) (b : Bool)
        → o ≡ some b
        → Frees (of_match env st r route path raw_query o)
    of_match-Frees r route path raw_query none b e = absurd (ground (arith, e))
    of_match-Frees r route path raw_query (some short_ok) b e =
        of_short-Frees r route path raw_query short_ok

    public-Frees :
        (r : Request) (route : Route) (path raw_query : String)
        → Frees (handle_public_sub env st r route path raw_query)
    unfolding handle_public_sub
    public-Frees r route path raw_query =
        let short = segment_at 2 (path_parts path) in
        let matched = env.matches_regex st.cfg.public_subs.short_uuid_regex short in
        Frees-if (not st.cfg.public_subs.enabled)
          (deny route.name "" "" "public_subscriptions_disabled" 403)
          (of_match env st r route path raw_query matched) (Frees-reply _ refl)
          (of_match-Frees r route path raw_query matched (compiles short).0 (compiles short).1)

    by_support-Frees :
        (r : Request) (route : Route) (path raw_query : String)
        → Frees (by_support env st r route path raw_query)
    by_support-Frees r route path raw_query =
        let public = handle_public_sub env st r route path raw_query in
        let disabled = deny route.name "" "" "public_subscriptions_disabled" 403 in
        let asked = authenticate env st r (subscription_route route) path raw_query in
        let other = authenticate env st r route path raw_query in
        let blank = header_get r.raw.header "Authorization" == "" in
        Frees-if (is_public route.support)
          (if st.cfg.public_subs.enabled then public else if blank then disabled else asked) other
          (Frees-if st.cfg.public_subs.enabled public (if blank then disabled else asked)
            (public-Frees r route path raw_query)
            (Frees-if blank disabled asked (Frees-reply _ refl)
              (authenticate-Frees env st r (subscription_route route) path raw_query)))
          (authenticate-Frees env st r route path raw_query)

    after_buffer-Frees :
        (route : Route) (path raw_query : String) (o : Outcome Request)
        → Frees (after_buffer env st route path raw_query o)
    after_buffer-Frees route path raw_query (err e) = Frees-reply _ refl
    after_buffer-Frees route path raw_query (ok r) = by_support-Frees r route path raw_query

    after_query-Frees :
        (r : Request) (route : Route) (path raw_query : String) (o : Option String)
        → Frees (after_query env st r route path raw_query o)
    after_query-Frees r route path raw_query (some e) = Frees-reply _ refl
    after_query-Frees r route path raw_query none = after_buffer-Frees route path raw_query _

    serve_route-Frees :
        (r : Request) (route : Route) (path raw_query : String)
        → Frees (serve_route env st r route path raw_query)
    unfolding serve_route
    serve_route-Frees r route path raw_query =
        Frees-if (not st.version_ok) (deny route.name "" "" "version_guard" 503)
          (after_query env st r route path raw_query (validate_request_query env route raw_query))
          (Frees-reply _ refl) (after_query-Frees r route path raw_query _)

    module _
        (panel_login : Config
          → Route
          → String
          → Request
          → OauthStore
          → OauthStore × LoginReply) where
      after_match-Frees :
          (r : Request) (path raw_query : String) (o : Option Route)
          → Frees (after_match env st panel_login r path raw_query o)
      after_match-Frees r path raw_query none = Frees-reply _ refl
      after_match-Frees r path raw_query (some matched) =
          let route = effective_route st.cfg matched in
          Frees-if (st.cfg.panel_facade.enabled && has_prefix path "/api/auth/")
            (serve_login env st panel_login r route path)
            (serve_route env st r route path raw_query)
            (record {
              at = λ (w : World). record { held = SameHeld-refl w.limits; answered = refl };
            })
            (serve_route-Frees r route path raw_query)

      after_validation-Frees :
          (r : Request) (v : Validated) → Frees (after_validation env st panel_login r v)
      after_validation-Frees r (Httputil.err e) = Frees-reply _ refl
      after_validation-Frees r (Httputil.ok path raw_query) =
          after_match-Frees (mark_panel_bearer_candidate st.cfg r) (trimmed path) raw_query _

      -- Whatever the request, and whatever the upstream answers, apiHandler ends in a reply or in the panic
      -- of a slice out of its bounds, without a release that blocks, and leaves the global semaphore
      -- and every token's and every address's semaphore as it found them; the configured expression for short UUIDs has to compile.
      pub api_handler-Freed :
          (r : Request) (w : World) → Freed w.limits (api_handler env st panel_login r w)
      unfolding api_handler
      api_handler-Freed r w =
          (Frees-with_global (reply rate_limited) _ (Frees-reply rate_limited refl)
              (after_validation-Frees r _)).at
            w
