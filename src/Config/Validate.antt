-- ===== src/Config/Validate.antt =====
-- internal/config/config.go: Validate, its checks in their order, and the resolution of the bearer.
use remnaguard.Prelude.{
  ℕ, ◌+◌, String, Bool, true, false, not, Option, none, some, List, [], ◌∷◌, ◌&&◌, ◌||◌,
  if◌then◌else◌, ◌==◌, any, is_empty, nat_eq, contains_text, trim_space, is_positive,
}
use remnaguard.Config.Types.{Config, UpstreamConfig}
use remnaguard.Config.Lookup.{effective_version}
use remnaguard.Config.Headers.{protected_outbound_header, protected_response_header}
use remnaguard.RateLimit.Rate.{new_fixed_window}
use remnaguard.Config.Checks.{check, first_failure, is_blank, tokens_error}
use remnaguard.Config.Parts.{
  System, Url, rate_error, is_local_host, listen_host_is_loopback, require_strong_secret_env,
  validate_panel_facade, validate_alerts,
}

abbrev one_if : Bool → ℕ
one_if true = 1
one_if false = 0

-- configuredBearerSources
unfoldable pub configured_bearer_sources : UpstreamConfig → ℕ
configured_bearer_sources u =
    one_if (not (u.bearer == ""))
    + one_if (not (u.bearer_env == ""))
    + one_if (not (u.bearer_file == ""))

-- One source of resolveBearer: the count and the value after it.
abbrev take_source : Bool → String → ℕ × String → ℕ × String
take_source given value (count, old) = if given then (count + 1, value) else (count, old)

abbrev file_text : Option String → String
file_text none = ""
file_text (some s) = trim_space s

module _ (sys : System) where
  -- resolveBearer
  unfoldable pub resolve_bearer : UpstreamConfig → String
  resolve_bearer u =
      let from_env = sys.getenv u.bearer_env in
      let from_file = file_text (sys.secret_file u.bearer_file) in
      let (count, val) =
        take_source (not (u.bearer_file == "") && not (from_file == "")) from_file (
          take_source (not (u.bearer_env == "") && not (from_env == "")) from_env
            (take_source (not (u.bearer == "")) u.bearer (0, ""))) in
      if nat_eq count 1 then val else ""

  abbrev base_url_error : Config → Option Url → Option String
  base_url_error cfg none = some "upstream.base_url must be absolute"
  base_url_error cfg (some u) = first_failure (
      check (u.scheme == "" || u.host == "") "upstream.base_url must be absolute"
      ∷ check
          (not (u.scheme == "https")
            && not cfg.upstream.allow_insecure_http
            && not (is_local_host sys u.hostname))
          "upstream must be https unless localhost/private insecure override is explicit"
      ∷ check (u.has_user || not (u.raw_query == "") || not (u.fragment == ""))
          "upstream.base_url must not contain userinfo, query, or fragment"
      ∷ [])

  abbrev pub limits_checks : Config → List (Option String)
  limits_checks cfg =
      (check (not (is_positive cfg.limits.max_path_length))
          "limits.max_path_length must be positive"
        ∷ check (not (is_positive cfg.limits.max_query_length))
            "limits.max_query_length must be positive"
        ∷ check (not (is_positive cfg.limits.max_body_bytes))
            "limits.max_body_bytes must be positive"
        ∷ check (not (is_positive cfg.limits.upstream_body_bytes))
            "limits.upstream_body_bytes must be positive"
        ∷ check (not (is_positive cfg.limits.global_concurrency))
            "limits.global_concurrency must be positive"
        ∷ check (not (is_positive cfg.limits.per_token_concurrency))
            "limits.per_token_concurrency must be positive"
        ∷ check (not (is_positive cfg.public_subs.per_ip_concurrency))
            "public_subscriptions.per_ip_concurrency must be positive"
        ∷ rate_error (new_fixed_window sys.parse_duration cfg.limits.default_rate)
        ∷ rate_error (new_fixed_window sys.parse_duration cfg.public_subs.per_ip_rate)
        ∷ [])

  unfoldable pub limits_error : Config → Option String
  limits_error cfg = first_failure (limits_checks cfg)

  abbrev pub upstream_checks : Config → List (Option String)
  upstream_checks cfg =
      let u = cfg.upstream in
      (check
          (not (u.bearer_file == "")
            && not cfg.reload.allow_insecure_secret_file_perms
            && not (sys.secure_file u.bearer_file))
          "insecure secret file"
        ∷ check
            (not ((u.mtls_cert_file == "") && (u.mtls_key_file == ""))
              && (u.mtls_cert_file == "" || u.mtls_key_file == ""))
            "both upstream.mtls_cert_file and upstream.mtls_key_file are required for mTLS"
        ∷ check (effective_version cfg.compatibility == "")
            "compatibility.remnawave_version or assume_version is required"
        ∷ check (not (effective_version cfg.compatibility == "2.8.1"))
            "unsupported Remnawave version"
        ∷ [])

  unfoldable pub upstream_error : Config → Option String
  upstream_error cfg = first_failure (upstream_checks cfg)

  abbrev bad_client : String → Bool
  bad_client client = client == "" || contains_text client "/"

  abbrev pub public_subs_checks : Config → List (Option String)
  public_subs_checks cfg =
      let p = cfg.public_subs in
      (check (not (sys.regex_compiles p.short_uuid_regex))
          "invalid public_subscriptions.short_uuid_regex"
        ∷ check (not (p.auth_header_name == "") && protected_outbound_header p.auth_header_name)
            "invalid public subscription auth header"
        ∷ check (not (p.auth_header_name == "") && p.auth_header_env == "")
            "public subscription auth_header_env is required when auth_header_name is set"
        ∷ check (not (p.auth_header_name == "") && is_blank (sys.getenv p.auth_header_env))
            "public subscription auth_header_env must resolve to a non-empty value"
        ∷ check (any protected_outbound_header p.request_header_allowlist)
            "protected or invalid public subscription request header"
        ∷ check (any protected_response_header p.response_header_allowlist)
            "invalid public subscription response header"
        ∷ check (any (λ e. protected_response_header e.0) p.extra_response_headers)
            "invalid public subscription extra response header"
        ∷ check (any (λ e. protected_outbound_header e.0) p.extra_headers)
            "protected or invalid public subscription extra header"
        ∷ check (any bad_client p.allowed_clients) "invalid public subscription client type"
        ∷ [])

  unfoldable pub public_subs_error : Config → Option String
  public_subs_error cfg = first_failure (public_subs_checks cfg)

  unfoldable pub listen_error : Config → Option String
  listen_error cfg =
      let s = cfg.server in
      let loopback = listen_host_is_loopback sys s.local_listen in
      first_failure (
        check (s.local_listen == "") "server.local_listen is required"
        ∷ check (not s.expose_local && not loopback)
            "server.local_listen must be loopback unless server.expose_local is true"
        ∷ check (s.expose_local && loopback)
            "server.expose_local cannot be true while local listener is loopback-only"
        ∷ [])

  abbrev pepper_error : Config → Option String
  pepper_error cfg =
      if is_empty cfg.tokens then none else require_strong_secret_env sys "REMNAGUARD_TOKEN_PEPPER"

  abbrev pub validate_checks : Config → List (Option String)
  validate_checks cfg =
      (check (cfg.upstream.base_url == "") "upstream.base_url is required"
        ∷ base_url_error cfg (sys.parse_url cfg.upstream.base_url)
        ∷ check (not (nat_eq (configured_bearer_sources cfg.upstream) 1))
            "exactly one upstream bearer source must be configured"
        ∷ validate_alerts sys cfg
        ∷ validate_panel_facade sys cfg
        ∷ check (resolve_bearer cfg.upstream == "")
            "configured upstream bearer source must resolve to a non-empty value"
        ∷ limits_error cfg
        ∷ upstream_error cfg
        ∷ public_subs_error cfg
        ∷ listen_error cfg
        ∷ pepper_error cfg
        ∷ tokens_error sys.regex_compiles [] [] cfg.tokens
        ∷ check (any (λ e. protected_outbound_header e.0) cfg.upstream.extra_headers)
            "protected or invalid upstream extra header"
        ∷ [])

  -- Validate
  unfoldable pub validate : Config → Option String
  validate cfg = first_failure (validate_checks cfg)
