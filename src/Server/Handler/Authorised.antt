-- ===== src/Server/Handler/Authorised.antt =====
-- internal/server/server.go: what apiHandler has checked when it sends anything to the upstream.
use remnaguard.Prelude.{
  String, Bool, true, false, not, Option, none, some, ◌&&◌, ◌||◌, if◌then◌else◌, ◌==◌, ◌≡◌, ◌⊎◌,
  inl, inr, refl, sym, subst, arith, ℤ, has_prefix,
}
use remnaguard.Config.{Config, effective_version}
use remnaguard.Header.{header_get}
use remnaguard.Httputil
use remnaguard.Httputil.{RawRequest, Validated, validate_raw_request}
use remnaguard.Httputil.Accepted.{IsSafe, validate_raw_request-IsSafe}
use remnaguard.Auth.Bearer.{bearer_token}
use remnaguard.Routes.{Route}
use remnaguard.Routes.Catalog.{catalog, match_route}
use remnaguard.Server.Effective.{effective_route, subscription_route}
use remnaguard.Server.Env.{Env}
use remnaguard.Server.OauthStore.{OauthStore}
use remnaguard.Server.Request.{Request, Outcome, ok, err, buffer_request_body}
use remnaguard.Server.Handler.World.{World, RuntimeState, LoginReply, deny, reply, rate_limited}
use remnaguard.Server.Handler.Sends.{Sends, Sends-reply, Sends-if, Sends-with_global}
use remnaguard.Server.Handler.Served.{IsServed, handle_public_sub-Sends}
use remnaguard.Server.Handler.Panel.{
  is_panel, marked, mark_panel_bearer_candidate, set_panel_audit_context,
}
use remnaguard.Server.Handler.Subscription.{handle_public_sub}
use remnaguard.Server.Handler.Api.{
  trimmed, validate_request_query, is_public, authenticate, by_support, after_buffer, after_query,
  serve_route, after_match, after_validation, api_handler, serve_login,
}
use remnaguard.Server.Handler.Permitted.{IsPermittedCall, authenticate-Sends}

module _ (env : Env) (st : RuntimeState) where
  -- A request to the upstream has a safe target and a query that its route takes, the version guard is
  -- open, and the request is one for a served public subscription or a permitted call.
  pub record IsAuthorised (raw : RawRequest) : Type 0 where
    pub path : String
    pub raw_query : String
    pub safe :
        IsSafe env.path_unescape env.query_parses raw st.cfg.limits.max_path_length
          st.cfg.limits.max_query_length path raw_query
    pub matched : Route
    pub listed :
        match_route (catalog (effective_version st.cfg.compatibility)) raw.method (trimmed path)
        ≡ some matched
    pub supported : st.version_ok ≡ true
    pub query : validate_request_query env (effective_route st.cfg matched) raw_query ≡ none
    pub purpose :
        ((is_public (effective_route st.cfg matched).support ≡ true)
          × IsServed env st (trimmed path))
        ⊎ IsPermittedCall env st raw (subscription_route (effective_route st.cfg matched))

  settled : (route : Route) → is_public route.support ≡ false → subscription_route route ≡ route
  unfolding subscription_route
  settled route h = ground (arith, h)

  by_support-Sends :
      {P : Type 0} (r : Request) (route : Route) (path raw_query : String)
      → ((is_public route.support ≡ true) × IsServed env st path → P)
      → (IsPermittedCall env st r.raw (subscription_route route) → P)
      → Sends P (by_support env st r route path raw_query)
  by_support-Sends r route path raw_query served call =
      let public = handle_public_sub env st r route path raw_query in
      let disabled = deny route.name "" "" "public_subscriptions_disabled" 403 in
      let asked = authenticate env st r (subscription_route route) path raw_query in
      let other = authenticate env st r route path raw_query in
      let blank = header_get r.raw.header "Authorization" == "" in
      Sends-if (is_public route.support)
        (if st.cfg.public_subs.enabled then public else if blank then disabled else asked) other
        (λ e.
          Sends-if st.cfg.public_subs.enabled public (if blank then disabled else asked)
            (λ f. handle_public_sub-Sends env st r route path raw_query (λ s. served (e, s)))
            (λ f.
              Sends-if blank disabled asked (λ g. Sends-reply _)
                (λ g. authenticate-Sends env st r (subscription_route route) path raw_query call)))
        (λ e.
          authenticate-Sends env st r route path raw_query
            (λ c. call (subst (IsPermittedCall env st r.raw) (sym (settled route e)) c)))

  buffered_raw : (r s : Request) (limit : ℤ) → buffer_request_body r limit ≡ ok s → s.raw ≡ r.raw
  unfolding buffer_request_body
  buffered_raw r s limit h = ground (arith, h)

  marked_raw : (o : Option String) (r : Request) → (marked o r).raw ≡ r.raw
  unfolding set_panel_audit_context
  marked_raw o r = ground arith

  candidate_raw : (r : Request) → (mark_panel_bearer_candidate st.cfg r).raw ≡ r.raw
  unfolding mark_panel_bearer_candidate
  candidate_raw r = Bool-elim_raw (not st.cfg.panel_facade.enabled || is_panel r)
    where
      Bool-elim_raw :
          (b : Bool)
          → (if b then r else marked (bearer_token (header_get r.raw.header "Authorization")) r).raw
            ≡ r.raw
      Bool-elim_raw true = refl
      Bool-elim_raw false = marked_raw (bearer_token (header_get r.raw.header "Authorization")) r

  Purpose : RawRequest → Route → String → Type 0
  Purpose raw route path =
      ((is_public route.support ≡ true) × IsServed env st path)
      ⊎ IsPermittedCall env st raw (subscription_route route)

  after_buffer-Sends :
      {P : Type 0} (r : Request) (route : Route) (path raw_query : String) (o : Outcome Request)
      → ((s : Request) → o ≡ ok s → s.raw ≡ r.raw)
      → (Purpose r.raw route path → P)
      → Sends P (after_buffer env st route path raw_query o)
  unfolding Purpose
  after_buffer-Sends r route path raw_query (err e) same p = Sends-reply _
  after_buffer-Sends r route path raw_query (ok s) same p =
      by_support-Sends s route path raw_query (λ served. p (inl served))
        (λ call. p (
          inr (
            subst (λ raw. IsPermittedCall env st raw (subscription_route route)) (same s refl)
              call)))

  after_query-Sends :
      {P : Type 0} (r : Request) (route : Route) (path raw_query : String) (o : Option String)
      → (o ≡ none → Purpose r.raw route path → P)
      → Sends P (after_query env st r route path raw_query o)
  after_query-Sends r route path raw_query (some e) p = Sends-reply _
  after_query-Sends r route path raw_query none p =
      let limit = st.cfg.limits.max_body_bytes in
      after_buffer-Sends r route path raw_query (buffer_request_body r limit)
        (λ s. buffered_raw r s limit) (p refl)

  serve_route-Sends :
      {P : Type 0} (r : Request) (route : Route) (path raw_query : String)
      → (st.version_ok ≡ true
          → validate_request_query env route raw_query ≡ none
          → Purpose r.raw route path
          → P)
      → Sends P (serve_route env st r route path raw_query)
  unfolding serve_route
  serve_route-Sends r route path raw_query p =
      Sends-if (not st.version_ok) (deny route.name "" "" "version_guard" 503)
        (after_query env st r route path raw_query (validate_request_query env route raw_query))
        (λ e. Sends-reply _)
        (λ e. after_query-Sends r route path raw_query _ (λ f q. p (ground (arith, e)) f q))

  module _
      (panel_login : Config → Route → String → Request → OauthStore → OauthStore × LoginReply) where
    after_match-Sends :
        {P : Type 0} (r : Request) (path raw_query : String) (o : Option Route)
        → ((matched : Route)
            → o ≡ some matched
            → st.version_ok ≡ true
            → validate_request_query env (effective_route st.cfg matched) raw_query ≡ none
            → Purpose r.raw (effective_route st.cfg matched) path
            → P)
        → Sends P (after_match env st panel_login r path raw_query o)
    after_match-Sends r path raw_query none p = Sends-reply _
    after_match-Sends r path raw_query (some matched) p =
        let route = effective_route st.cfg matched in
        let login = serve_login env st panel_login r route path in
        Sends-if (st.cfg.panel_facade.enabled && has_prefix path "/api/auth/") login
          (serve_route env st r route path raw_query) (λ e. record { at = λ w. inl refl })
          (λ e. serve_route-Sends r route path raw_query (p matched refl))

    after_validation-Sends :
        (r : Request) (v : Validated)
        → validate_raw_request env.path_unescape env.query_parses r.raw
            st.cfg.limits.max_path_length st.cfg.limits.max_query_length
          ≡ v
        → Sends (IsAuthorised r.raw) (after_validation env st panel_login r v)
    unfolding Purpose
    after_validation-Sends r (Httputil.err e) h = Sends-reply _
    after_validation-Sends r (Httputil.ok path raw_query) h =
        after_match-Sends (mark_panel_bearer_candidate st.cfg r) (trimmed path) raw_query
          (match_route (catalog (effective_version st.cfg.compatibility)) r.raw.method
            (trimmed path))
          (λ matched listed supported query purpose. record {
            path = path;
            raw_query = raw_query;
            safe =
                validate_raw_request-IsSafe env.path_unescape env.query_parses r.raw
                  st.cfg.limits.max_path_length st.cfg.limits.max_query_length path raw_query h;
            matched = matched;
            listed = listed;
            supported = supported;
            query = query;
            purpose =
                subst (λ raw. Purpose raw (effective_route st.cfg matched) (trimmed path))
                  (candidate_raw r) purpose;
          })

    -- apiHandler sends nothing to the upstream unless the request is authorised, as IsAuthorised says
    -- it: its target is safe, the catalog lists its route, the version guard is open, the route takes its
    -- query, and it is either for a public subscription that is served, or authenticated as a token
    -- that is permitted the route (or that the operator's report mode lets pass), a restricted write only
    -- with write safety on.
    pub api_handler-IsAuthorised :
        (r : Request) (w : World)
        → ((api_handler env st panel_login r w).0.sent ≡ w.sent) ⊎ IsAuthorised r.raw
    unfolding api_handler
    api_handler-IsAuthorised r w =
        (Sends-with_global (reply rate_limited) _ (Sends-reply rate_limited)
            (after_validation-Sends r _ refl)).at
          w
