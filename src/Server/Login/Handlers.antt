-- ===== src/Server/Login/Handlers.antt =====
-- internal/server/server.go: handlePanelAuthFacade, with the start of a login and its callback.
use remnaguard.Prelude.{
  ℕ, ◌+◌, String, Bool, true, false, not, Option, none, some, List, [], ◌∷◌, ◌&&◌, ◌||◌,
  if◌then◌else◌, ◌==◌, ◌+++◌, ltb, nat_eq, trim_space, ℤ, pos, negsuc,
}
use remnaguard.Config.{Config}
use remnaguard.Json.{Json, Fields}
use remnaguard.Auth.Session.{issue_panel_session}
use remnaguard.Policy.Actor.{Resolved, resolved, unresolved, resolve_telegram_actor_credential}
use remnaguard.Routes.{Route}
use remnaguard.Server.Env.{Env}
use remnaguard.Server.OauthStore.{OauthStore, Attempt, put, take}
use remnaguard.Server.Request.{
  Request, RequestBody, body_text, Outcome, ok, err, too_large, buffer_request_body,
}
use remnaguard.Server.Handler.World.{
  LoginReply, RuntimeState, login_denied, login_page, login_started, login_session,
}
use remnaguard.Server.Login.Members.{text_member, members_of}
use remnaguard.Server.Login.Keys.{Answer, LoginEnv, oauth_invalid, is_success}
use remnaguard.Server.Login.IdToken.{telegram_actor_id_from_id_token}

-- panelTelegramRedirectURL
unfoldable pub panel_telegram_redirect_url : Config → String
panel_telegram_redirect_url cfg =
    "https://" +++ cfg.panel_facade.telegram.frontend_domain +++ "/oauth2/callback/telegram"

-- The form of exchangeTelegramOAuthCode.
abbrev pub code_form : LoginEnv → Config → String → String → List (String × String)
code_form l cfg code code_verifier =
    ("grant_type", "authorization_code")
    ∷ ("code", code)
    ∷ ("redirect_uri", panel_telegram_redirect_url cfg)
    ∷ ("client_id", l.getenv cfg.panel_facade.telegram.client_id_env)
    ∷ ("code_verifier", code_verifier)
    ∷ []

abbrev pub id_token_of : Option Fields → Option String
id_token_of none = none
id_token_of (some fs) = text_member "id_token" (some "") fs

abbrev pub actor_of_token : LoginEnv → Config → String → Option String → Outcome String
actor_of_token l cfg nonce none = err oauth_invalid
actor_of_token l cfg nonce (some id_token) =
    if trim_space id_token == ""
    then err oauth_invalid
    else telegram_actor_id_from_id_token l cfg id_token nonce

abbrev pub actor_of_answer : LoginEnv → Config → String → Answer → Outcome String
actor_of_answer l cfg nonce none = err "telegram_oauth_unavailable"
actor_of_answer l cfg nonce (some (status, body)) =
    if not (is_success status)
    then err "telegram_oauth_denied"
    else actor_of_token l cfg nonce (id_token_of (members_of (l.first_value body)))

-- exchangeTelegramOAuthCode
unfoldable pub exchange_telegram_oauth_code :
    LoginEnv → Config → String → String → String → Outcome String
unfolding panel_telegram_redirect_url text_member members_of telegram_actor_id_from_id_token
exchange_telegram_oauth_code l cfg code code_verifier nonce =
    actor_of_answer l cfg nonce (l.post_code (code_form l cfg code code_verifier))

abbrev deny_login : Route → String → ℕ → LoginReply
deny_login route reason status = login_denied (record {
  route = route.name;
  token_id = "";
  credential_id = "";
  reason = reason;
  status = status;
})

-- panelAuthUnsupported
abbrev pub unsupported_login : LoginReply
unsupported_login = login_page 403 "panel_auth_unsupported"

abbrev text_in : RequestBody → Option String
text_in (body_text s) = some s
text_in _ = none

abbrev value_in : Env → Option String → Option Json
value_in env none = none
value_in env (some s) = env.first_value s

-- The members of the object that a request's body begins with.
abbrev pub members_in : Env → Request → Option Fields
members_in env r = members_of (value_in env (text_in r.body))

module _ (env : Env) (l : LoginEnv) (st : RuntimeState) where
  -- now.Add(d)
  abbrev later : ℕ → ℤ → ℕ
  later now (pos d) = now + d
  later now (negsuc d) = now

  abbrev waiting : String → OauthStore × Bool → Route → OauthStore × LoginReply
  waiting state (store, true) route = (store, login_started state)
  waiting state (store, false) route = (store, deny_login route "panel_auth_state_limit" 429)

  abbrev start_with :
      Route → OauthStore → Option String → Option String → Option String → OauthStore × LoginReply
  start_with route store (some state) (some code_verifier) (some nonce) =
      let attempt : Attempt = record {
        code_verifier = code_verifier;
        nonce = nonce;
        expires_at = later l.now st.cfg.panel_facade.telegram.auth_max_age;
        generation = st.generation;
      } in
      waiting state (put state attempt l.now store) route
  start_with route store _ _ _ = (store, deny_login route "panel_auth_state" 500)

  abbrev provider_is_telegram : Option String → Bool
  provider_is_telegram none = false
  provider_is_telegram (some provider) = provider == "telegram"

  abbrev provider_of : Option Fields → Option String
  provider_of none = none
  provider_of (some fs) = text_member "provider" (some "") fs

  -- handlePanelOAuth2Authorize
  unfoldable pub handle_panel_oauth2_authorize :
      Request → Route → OauthStore → OauthStore × LoginReply
  unfolding members_of text_member
  handle_panel_oauth2_authorize r route store =
      if not (provider_is_telegram (provider_of (members_in env r)))
      then (store, unsupported_login)
      else start_with route store (l.random_token 0 32) (l.random_token 1 48) (l.random_token 2 32)

  abbrev pub session_or_denied : Route → Option String → LoginReply
  session_or_denied route none = deny_login route "panel_auth_session" 401
  session_or_denied route (some token) = login_session token

  abbrev pub of_resolved : Route → String → Resolved → LoginReply
  of_resolved route actor_id (unresolved e) = deny_login route "panel_auth_denied" 403
  of_resolved route actor_id (resolved tok cred) = session_or_denied route (
      issue_panel_session env.sign env.encode_claims env.decode_claims env.getenv
        st.cfg.panel_facade actor_id l.now)

  abbrev pub of_actor : Route → Outcome String → LoginReply
  of_actor route (err e) = deny_login route e 401
  of_actor route (ok actor_id) =
      of_resolved route actor_id (resolve_telegram_actor_credential st.cfg st.has_actors actor_id)

  abbrev pub of_attempt : Route → String → Option Attempt → LoginReply
  of_attempt route code none = deny_login route "panel_auth_denied" 403
  of_attempt route code (some attempt) =
      if ltb attempt.expires_at l.now || not (nat_eq attempt.generation st.generation)
      then deny_login route "panel_auth_denied" 403
      else of_actor route
          (exchange_telegram_oauth_code l st.cfg code attempt.code_verifier attempt.nonce)

  abbrev pub of_taken : Route → String → OauthStore × Option Attempt → OauthStore × LoginReply
  of_taken route code (store, attempt) = (store, of_attempt route code attempt)

  abbrev pub same_state : Option String → String → Bool
  same_state none state = false
  same_state (some value) state = value == state

  abbrev pub callback_with :
      Request
      → Route
      → OauthStore
      → Option String
      → Option String
      → Option String
      → OauthStore × LoginReply
  callback_with r route store (some provider) (some code) (some state) =
      if not (provider == "telegram") || trim_space code == ""
      then (store, unsupported_login)
      else if not (same_state (l.cookie "remnaguard_panel_oauth_state") state)
      then (store, deny_login route "panel_auth_denied" 403)
      else of_taken route code (take state l.now store)
  callback_with r route store _ _ _ = (store, unsupported_login)

  abbrev pub of_members : Request → Route → OauthStore → Option Fields → OauthStore × LoginReply
  of_members r route store none = (store, unsupported_login)
  of_members r route store (some fs) =
      callback_with r route store (text_member "provider" (some "") fs)
        (text_member "code" (some "") fs) (text_member "state" (some "") fs)

  -- handlePanelOAuth2Callback
  unfoldable pub handle_panel_oauth2_callback :
      Request → Route → OauthStore → OauthStore × LoginReply
  unfolding members_of text_member exchange_telegram_oauth_code
  handle_panel_oauth2_callback r route store = of_members r route store (members_in env r)

  abbrev pub login_of : Request → Route → String → OauthStore → OauthStore × LoginReply
  login_of r route path store =
      if r.raw.method == "GET" && path == "/api/auth/status"
      then (store, login_page 200 "panel_auth_status")
      else if r.raw.method == "POST" && path == "/api/auth/oauth2/authorize"
      then handle_panel_oauth2_authorize r route store
      else if r.raw.method == "POST" && path == "/api/auth/oauth2/callback"
      then handle_panel_oauth2_callback r route store
      else (store, unsupported_login)

  abbrev after_buffer : Route → String → OauthStore → Outcome Request → OauthStore × LoginReply
  after_buffer route path store (err e) =
      (store, deny_login route e (if e == too_large then 413 else 400))
  after_buffer route path store (ok r) = login_of r route path store

  -- handlePanelAuthFacade, for a path below /api/auth/
  unfoldable pub handle_panel_auth_facade :
      Config → Route → String → Request → OauthStore → OauthStore × LoginReply
  unfolding handle_panel_oauth2_authorize handle_panel_oauth2_callback
  handle_panel_auth_facade cfg route path r store =
      if r.raw.method == "POST"
      then after_buffer route path store (buffer_request_body r cfg.limits.max_body_bytes)
      else login_of r route path store
