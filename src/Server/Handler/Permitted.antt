-- ===== src/Server/Handler/Permitted.antt =====
-- internal/server/server.go: what apiHandler has checked of an authenticated request that it passes on.
use remnaguard.Prelude.{
  String, true, false, not, Option, some, [], ◌∷◌, ◌&&◌, ◌||◌, if◌then◌else◌, ◌==◌, ◌≡◌, ◌⊎◌, inl,
  inr, refl, arith, Bool-cases,
}
use remnaguard.Config.{TokenPolicy, Credential, contains}
use remnaguard.Httputil.{RawRequest}
use remnaguard.Routes.{Route}
use remnaguard.Policy.Decide.{decide}
use remnaguard.Policy.Allowed.{Permits, decide_iff}
use remnaguard.Server.Credential.{
  AuthResult, authenticated, rejected, HasSecret, HasSession, resolve_request_credential_lem,
}
use remnaguard.Server.Effective.{is_policy_enforced, is_restricted_write, writes_on}
use remnaguard.Server.Env.{Env}
use remnaguard.Server.Request.{Request, buffer_request_body}
use remnaguard.Server.Handler.World.{Handler, RuntimeState, reply, facade_page}
use remnaguard.Server.Handler.Sends.{
  Sends, Sends-reply, Sends-any, Sends-if, Sends-with_token, Sends-with_token_rate,
}
use remnaguard.Server.Handler.Panel.{is_panel, set_if, policy_deny, handle_panel_read_facade}
use remnaguard.Server.Handler.Api.{
  refuses, decided, guarded_write, checked_write, after_cache, after_auth, authenticate,
  panel_refused, refused,
}

module _ (env : Env) (st : RuntimeState) where
  abbrev pub Authenticated : RawRequest → TokenPolicy → Credential → Type 0
  Authenticated raw tok cred =
      HasSecret env.digest env.sign env.encode_claims env.decode_claims env.getenv st.cfg raw.header
        tok cred
      ⊎ HasSession env.digest env.sign env.encode_claims env.decode_claims env.getenv st.cfg
          raw.header env.now tok cred

  -- The operator has asked for denied requests to be reported only.
  abbrev pub ReportsOnly : Type 0
  ReportsOnly = (st.cfg.report.enabled ≡ true) × (st.cfg.report.unsafe_report_proxy ≡ true)

  -- The request is authenticated as a token that is permitted the route.
  pub record IsPermittedCall (raw : RawRequest) (route : Route) : Type 0 where
    pub token : TokenPolicy
    pub credential : Credential
    pub authentic : Authenticated raw token credential
    pub permitted : Permits token route ⊎ ReportsOnly
    pub writes :
        is_restricted_write route ≡ true
        → is_policy_enforced route.support ≡ true
        → writes_on st.cfg ≡ true

  policy_deny-Sends :
      {P : Type 0} (r : Request) (route : Route) (path reason : String) (h : Handler)
      → Sends P h
      → Sends P (policy_deny r route path reason h)
  unfolding policy_deny
  policy_deny-Sends r route path reason h s =
      Sends-if (is_panel r) _ h (λ e. Sends-reply _) (λ e. s)

  read_facade-Sends :
      {P : Type 0} (r : Request) (path : String) (h : Handler)
      → Sends P h
      → Sends P (handle_panel_read_facade r path h)
  unfolding handle_panel_read_facade
  read_facade-Sends r path h s =
      let known =
        contains ("/api/remnawave-settings" ∷ "/api/tokens" ∷ "/api/passkeys" ∷ []) path in
      Sends-if (not (is_panel r) || not (r.raw.method == "GET")) h
        (if known then reply (facade_page path) else h) (λ e. s)
        (λ e.
          Sends-if known (reply (facade_page path)) h (λ e. Sends-reply (facade_page path))
            (λ e. s))

  guarded_write-Sends :
      {P : Type 0} (route : Route) (path raw_query : String) (tok : TokenPolicy) (cred : Credential)
      (r : Request)
      → ((is_restricted_write route ≡ true
            → is_policy_enforced route.support ≡ true
            → writes_on st.cfg ≡ true)
          → P)
      → Sends P (guarded_write env st route path raw_query tok cred r)
  unfolding guarded_write
  guarded_write-Sends route path raw_query tok cred r p =
      let refusal = refused env st r route path raw_query tok cred "write_safety_not_enabled" 403 in
      let buffered = buffer_request_body r st.cfg.limits.max_body_bytes in
      let write = after_cache env st route path raw_query tok cred r buffered in
      let other = checked_write env st route path raw_query tok cred r in
      Sends-if (is_restricted_write route && is_policy_enforced route.support)
        (if not (writes_on st.cfg) then refusal else write) other
        (λ e.
          Sends-if (not (writes_on st.cfg)) refusal write (λ f. Sends-reply _)
            (λ f. Sends-any write (p (λ a b. ground (arith, f)))))
        (λ e. Sends-any other (p (λ a b. absurd (ground (arith, e, a, b)))))

  decided-Sends :
      {P : Type 0} (route : Route) (path raw_query : String) (tok : TokenPolicy) (cred : Credential)
      (r : Request)
      → (refuses st r (decide (some tok) route) ≡ false
          → (is_restricted_write route ≡ true
              → is_policy_enforced route.support ≡ true
              → writes_on st.cfg ≡ true)
          → P)
      → Sends P (decided env st route path raw_query tok cred r)
  unfolding decided
  decided-Sends route path raw_query tok cred r p =
      let dec = decide (some tok) route in
      let write = guarded_write env st route path raw_query tok cred r in
      Sends-if (refuses st r dec)
        (panel_refused env st r route path raw_query tok cred dec.reason 403)
        (handle_panel_read_facade r path write)
        (λ e. policy_deny-Sends r route _ dec.reason _ (Sends-reply _))
        (λ e.
          read_facade-Sends r path write
            (guarded_write-Sends route path raw_query tok cred r (p e)))

  permitted_of :
      (tok : TokenPolicy) (route : Route) (r : Request)
      → refuses st r (decide (some tok) route) ≡ false
      → Permits tok route ⊎ ReportsOnly
  permitted_of tok route r h = elim (Bool-cases (decide (some tok) route).allow) [
    | inl e ↦ inl ((decide_iff tok route).0.0 e)
    | inr e ↦ inr (ground (arith, h, e), ground (arith, h, e))
  ]

  after_auth-Sends :
      {P : Type 0} (r : Request) (route : Route) (path raw_query : String) (a : AuthResult)
      → ((tok : TokenPolicy) (cred : Credential) (ctx : Option _)
          → a ≡ authenticated tok cred ctx
          → Permits tok route ⊎ ReportsOnly
          → (is_restricted_write route ≡ true
              → is_policy_enforced route.support ≡ true
              → writes_on st.cfg ≡ true)
          → P)
      → Sends P (after_auth env st r route path raw_query a)
  after_auth-Sends r route path raw_query (rejected e ctx) p = Sends-reply _
  after_auth-Sends r route path raw_query (authenticated tok cred ctx) p =
      Sends-with_token tok.id _ _ (Sends-reply _) (
        Sends-with_token_rate env.now tok.id _ _ (Sends-reply _) (
          decided-Sends route path raw_query tok cred (set_if ctx r)
            (λ e w. p tok cred ctx refl (permitted_of tok route (set_if ctx r) e) w)))

  pub authenticate-Sends :
      {P : Type 0} (r : Request) (route : Route) (path raw_query : String)
      → (IsPermittedCall r.raw route → P)
      → Sends P (authenticate env st r route path raw_query)
  unfolding authenticate
  authenticate-Sends r route path raw_query p =
      after_auth-Sends r route path raw_query _ (λ tok cred ctx e permitted writes. p (record {
        token = tok;
        credential = cred;
        authentic =
            resolve_request_credential_lem env.digest env.sign env.encode_claims env.decode_claims
              env.getenv st.cfg st.has_actors r.raw.header env.now tok cred ctx e;
        permitted = permitted;
        writes = writes;
      }))
