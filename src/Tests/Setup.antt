-- ===== src/Tests/Setup.antt =====
-- A configuration that Validate accepts, and what follows for its proxy.
use remnaguard.Prelude.{
  String, true, false, none, some, [], ◌∷◌, ◌≡◌, refl, text_functions, ◌==◌, atoi, digits, decimal,
}
use remnaguard.Config.{Config, contains, effective_version}
use remnaguard.Config.Headers.{protected_outbound_header}
use remnaguard.Config.Checks.{
  known_scope, has_user_write_scope, has_user_ownership_constraint,
  validate_restricted_write_allowlists, request_fields_error, credentials_error, token_error,
  tokens_error,
}
use remnaguard.Config.Parts.{
  System, Url, is_local_host, is_loopback_host, listen_host_is_loopback, require_strong_secret_env,
  validate_panel_facade, validate_alerts,
}
use remnaguard.Config.Validate.{
  configured_bearer_sources, resolve_bearer, limits_error, upstream_error, public_subs_error,
  listen_error, validate,
}
use remnaguard.Config.Valid.{IsValid, validate-IsValid}
use remnaguard.RateLimit.Rate.{
  new_fixed_window, parse_rate, rate_of_parts, rate_of_count, rate_window,
}
use remnaguard.Proxy.Validated.{new_proxy, IsConfined, new_proxy-IsConfined}
use remnaguard.Header.{Header}
use remnaguard.Tests.Samples.{sample_config}

abbrev a_secret : String
a_secret = "0123456789abcdef0123456789abcdef"

abbrev upstream_url : Url
upstream_url = record {
  scheme = "https";
  host = "up";
  hostname = "up";
  has_user = false;
  raw_query = "";
  fragment = "";
}

abbrev pub host_system : System
host_system = record {
  parse_url = λ s. some upstream_url;
  loopback_ip = λ s. s == "127.0.0.1";
  private_ip = λ s. false;
  split_host_port = λ s. some "127.0.0.1";
  getenv = λ s. a_secret;
  secret_file = λ s. none;
  secure_file = λ s. true;
  regex_compiles = λ s. true;
  parse_duration = λ s. none;
}

abbrev pub off_panel : Config
off_panel = record sample_config {
  panel_facade = record sample_config.panel_facade { enabled = false };
}

pub accepted : validate host_system off_panel ≡ none
unfolding validate limits_error upstream_error public_subs_error listen_error resolve_bearer
    configured_bearer_sources validate_panel_facade validate_alerts require_strong_secret_env
    listen_host_is_loopback is_loopback_host is_local_host tokens_error token_error
    credentials_error request_fields_error validate_restricted_write_allowlists
    has_user_ownership_constraint has_user_write_scope known_scope contains effective_version
    text_functions new_fixed_window parse_rate rate_of_parts rate_of_count rate_window atoi digits
    decimal protected_outbound_header
accepted = refl

validate-IsValid_example : IsValid host_system off_panel
validate-IsValid_example = validate-IsValid host_system off_panel accepted

abbrev sent_cookie : Header
sent_cookie = ("cookie", "a=b" ∷ []) ∷ ("authorization", "Bearer x" ∷ []) ∷ []

new_proxy-IsConfined_example : IsConfined host_system (new_proxy host_system off_panel) sent_cookie
new_proxy-IsConfined_example = new_proxy-IsConfined host_system off_panel sent_cookie accepted
