-- ===== src/Config/Parts.antt =====
-- internal/config/config.go: Validate, with validatePanelFacade and validateAlerts.
use remnaguard.Prelude.{
  ℕ, String, Bool, true, false, not, Option, none, some, List, [], ◌∷◌, ◌&&◌, ◌||◌, if◌then◌else◌,
  ◌==◌, is_empty, len, ltb, nat_eq, has_prefix, contains_any, trim_space, trim_right, trim_left, ℤ,
  pos, is_positive, lebℤ,
}
use remnaguard.Config.Types.{Config, TokenPolicy, Credential, PanelFacadeTelegramActor}
use remnaguard.Config.Lookup.{find_credential}
use remnaguard.RateLimit.Rate.{RateResult, ok, err}
use remnaguard.RateLimit.{FixedWindow}
use remnaguard.Config.Checks.{check, first_failure, is_blank}

-- What url.Parse gives.
pub record Url : Type 0 where
  pub scheme : String
  pub host : String
  pub hostname : String
  pub has_user : Bool
  pub raw_query : String
  pub fragment : String

-- The functions of the library and the system that Validate calls. `secret_file` is the text of a file,
-- none where it cannot be read; `secure_file` is whether the file's permissions pass.
pub record System : Type 0 where
  pub parse_url : String → Option Url
  pub loopback_ip : String → Bool
  pub private_ip : String → Bool
  pub split_host_port : String → Option String
  pub getenv : String → String
  pub secret_file : String → Option String
  pub secure_file : String → Bool
  pub regex_compiles : String → Bool
  pub parse_duration : String → Option ℤ

abbrev pub rate_error : RateResult (Option FixedWindow) → Option String
rate_error (ok f) = none
rate_error (err e) = some "invalid rate"

module _ (sys : System) where
  -- isLocalHost and isLoopbackHost
  unfoldable pub is_local_host : String → Bool
  is_local_host host = host == "localhost" || sys.loopback_ip host || sys.private_ip host

  unfoldable pub is_loopback_host : String → Bool
  is_loopback_host host = host == "localhost" || sys.loopback_ip host

  abbrev is_bracket : ℕ → Bool
  is_bracket c = nat_eq c b'[' || nat_eq c b']'

  abbrev listens_on_loopback : Option String → Bool
  listens_on_loopback none = false
  listens_on_loopback (some host) =
      if host == ""
      then false
      else is_loopback_host (trim_right is_bracket (trim_left is_bracket host))

  -- listenHostIsLoopback
  unfoldable pub listen_host_is_loopback : String → Bool
  listen_host_is_loopback addr = listens_on_loopback (sys.split_host_port addr)

  -- requireStrongSecretEnv
  unfoldable pub require_strong_secret_env : String → Option String
  require_strong_secret_env name =
      let secret = trim_space (sys.getenv name) in
      if secret == ""
      then some "must resolve to a non-empty value"
      else if ltb (len secret) 32
      then some "must be at least 32 bytes"
      else none

  abbrev https_url_error : Option Url → Option String
  https_url_error none = some "must be absolute"
  https_url_error (some u) =
      if u.scheme == "" || u.host == ""
      then some "must be absolute"
      else if not (u.scheme == "https")
          && (not (u.scheme == "http") || not (is_loopback_host u.hostname))
      then some "must be https unless localhost http"
      else none

  -- validateHTTPSURL
  unfoldable pub validate_https_url : String → Option String
  validate_https_url raw = https_url_error (sys.parse_url raw)

  abbrev is_found : Option (TokenPolicy × Credential) → Bool
  is_found none = false
  is_found (some r) = true

  -- The loop over the panel's actors.
  unfoldable pub actors_error : Config → List (String × PanelFacadeTelegramActor) → Option String
  actors_error cfg [] = none
  actors_error cfg ((id, actor) ∷ actors) =
      let credential_id = trim_space actor.credential_id in
      first_failure (
        check (is_blank id) "panel_facade.actors.telegram contains an empty telegram id"
        ∷ check (credential_id == "") "panel_facade actor credential_id is required"
        ∷ check (has_prefix credential_id "rg_")
            "panel_facade actor credential_id must reference a stored credential id, not a raw token"
        ∷ check (not (is_found (find_credential cfg credential_id)))
            "panel_facade actor references missing or disabled credential"
        ∷ actors_error cfg actors
        ∷ [])

  -- validatePanelFacade
  unfoldable pub validate_panel_facade : Config → Option String
  validate_panel_facade cfg =
      let session = cfg.panel_facade.session in
      let tg = cfg.panel_facade.telegram in
      let failure = first_failure (
        check (is_blank session.issuer) "panel_facade.session.issuer is required"
        ∷ check (is_blank session.audience) "panel_facade.session.audience is required"
        ∷ check (not (is_positive session.token_ttl))
            "panel_facade.session.token_ttl must be positive"
        ∷ check (is_blank session.secret_env) "panel_facade.session.secret_env is required"
        ∷ require_strong_secret_env session.secret_env
        ∷ check (is_blank tg.client_id_env) "panel_facade.telegram.client_id_env is required"
        ∷ check (is_blank (sys.getenv tg.client_id_env))
            "panel_facade.telegram.client_id_env must resolve to a non-empty value"
        ∷ check (is_blank tg.client_secret_env)
            "panel_facade.telegram.client_secret_env is required"
        ∷ check (is_blank (sys.getenv tg.client_secret_env))
            "panel_facade.telegram.client_secret_env must resolve to a non-empty value"
        ∷ check (is_blank tg.frontend_domain) "panel_facade.telegram.frontend_domain is required"
        ∷ check (contains_any (b'/' ∷ b'?' ∷ b'#' ∷ []) tg.frontend_domain)
            "panel_facade.telegram.frontend_domain must be a host name without scheme or path"
        ∷ check (is_blank tg.auth_url) "panel_facade.telegram.auth_url is required"
        ∷ check (is_blank tg.token_url) "panel_facade.telegram.token_url is required"
        ∷ validate_https_url tg.auth_url
        ∷ validate_https_url tg.token_url
        ∷ check (not (is_positive tg.auth_max_age))
            "panel_facade.telegram.auth_max_age must be positive"
        ∷ check (is_empty cfg.panel_facade.actors.telegram)
            "panel_facade.actors.telegram must contain at least one actor"
        ∷ actors_error cfg cfg.panel_facade.actors.telegram
        ∷ []) in
      if not cfg.panel_facade.enabled then none else failure

  abbrev alert_url_error : Option Url → Option String
  alert_url_error none = some "alerts.telegram.api_base_url must be absolute"
  alert_url_error (some u) =
      if u.scheme == "" || u.host == ""
      then some "alerts.telegram.api_base_url must be absolute"
      else if not (u.scheme == "https") && not (is_local_host u.hostname)
      then some "alerts.telegram.api_base_url must be https unless localhost"
      else none

  -- validateAlerts
  unfoldable pub validate_alerts : Config → Option String
  validate_alerts cfg =
      let tg = cfg.alerts.telegram in
      let failure = first_failure (
        check (not tg.enabled) "alerts.telegram.enabled is required when alerts.enabled is true"
        ∷ check (is_blank tg.bot_token_env) "alerts.telegram.bot_token_env is required"
        ∷ check (is_blank tg.chat_id_env) "alerts.telegram.chat_id_env is required"
        ∷ check (is_blank (sys.getenv tg.bot_token_env))
            "alerts.telegram.bot_token_env must resolve to a non-empty value"
        ∷ check (is_blank (sys.getenv tg.chat_id_env))
            "alerts.telegram.chat_id_env must resolve to a non-empty value"
        ∷ check (not (is_positive tg.cooldown)) "alerts.telegram.cooldown must be positive"
        ∷ check (not (lebℤ (pos 0) tg.queue_size)) "alerts.telegram.queue_size must not be negative"
        ∷ check (not (is_positive tg.timeout)) "alerts.telegram.timeout must be positive"
        ∷ check (is_blank tg.api_base_url) "alerts.telegram.api_base_url is required"
        ∷ alert_url_error (sys.parse_url (trim_space tg.api_base_url))
        ∷ []) in
      if not cfg.alerts.enabled then none else failure
