-- ===== src/Config/Defaults.antt =====
-- internal/config/config.go: Defaults, and the configuration of zero values that `var child Config` is.
use remnaguard.Prelude.{false, true, [], ◌∷◌, pos}
use remnaguard.Config.Types.{Config, Constraints}

abbrev pub empty_config : Config
empty_config = record {
  server = record {
    api_listen = "";
    local_listen = "";
    expose_local = false;
    read_timeout = pos 0;
    write_timeout = pos 0;
    idle_timeout = pos 0;
    header_timeout = pos 0;
    max_header_bytes = pos 0;
  };
  upstream = record {
    base_url = "";
    bearer_env = "";
    bearer_file = "";
    bearer = "";
    extra_headers = [];
    allow_insecure_http = false;
    allow_insecure_tls = false;
    custom_ca_file = "";
    mtls_cert_file = "";
    mtls_key_file = "";
    version_path = "";
    response_header_timeout = pos 0;
  };
  compatibility = record {
    remnawave_version = "";
    assume_version = "";
    allow_version_mismatch = false;
  };
  limits = record {
    max_path_length = pos 0;
    max_query_length = pos 0;
    max_body_bytes = pos 0;
    global_concurrency = pos 0;
    per_token_concurrency = pos 0;
    default_rate = "";
    upstream_body_bytes = pos 0;
    shutdown_grace_period = pos 0;
  };
  metrics = record { enabled = false };
  audit = record { stdout = false; pepper_env = ""; sqlite_path = "" };
  alerts = record {
    enabled = false;
    telegram = record {
      enabled = false;
      bot_token_env = "";
      chat_id_env = "";
      cooldown = pos 0;
      queue_size = pos 0;
      timeout = pos 0;
      api_base_url = "";
    };
  };
  report = record { enabled = false; unsafe_report_proxy = false };
  public_subs = record {
    enabled = false;
    short_uuid_regex = "";
    allowed_clients = [];
    request_header_allowlist = [];
    response_header_allowlist = [];
    extra_headers = [];
    extra_response_headers = [];
    auth_header_name = "";
    auth_header_env = "";
    per_ip_concurrency = pos 0;
    per_ip_rate = "";
  };
  panel_facade = record {
    enabled = false;
    session = record { issuer = ""; audience = ""; token_ttl = pos 0; secret_env = "" };
    telegram = record {
      client_id_env = "";
      client_secret_env = "";
      frontend_domain = "";
      auth_url = "";
      token_url = "";
      auth_max_age = pos 0;
    };
    actors = record { telegram = [] };
  };
  reload = record { sighup = false; watch_files = false; allow_insecure_secret_file_perms = false };
  write_safety = record {
    single_writer = false;
    enable_restricted_writes = false;
    enable_tenant_writes_legacy = false;
  };
  tokens = [];
  includes = [];
}

-- Defaults
abbrev pub defaults : Config
defaults = record empty_config {
  server = record empty_config.server {
    api_listen = ":8080";
    local_listen = "127.0.0.1:8081";
    read_timeout = pos 15_000_000_000;
    write_timeout = pos 60_000_000_000;
    idle_timeout = pos 60_000_000_000;
    header_timeout = pos 5_000_000_000;
    max_header_bytes = pos 1048576;
  };
  compatibility = record empty_config.compatibility { remnawave_version = "2.8.1" };
  limits = record {
    max_path_length = pos 2048;
    max_query_length = pos 4096;
    max_body_bytes = pos 1048576;
    global_concurrency = pos 128;
    per_token_concurrency = pos 8;
    default_rate = "600/m";
    upstream_body_bytes = pos 67108864;
    shutdown_grace_period = pos 10_000_000_000;
  };
  audit = record empty_config.audit { stdout = true; pepper_env = "REMNAGUARD_AUDIT_PEPPER" };
  alerts = record empty_config.alerts {
    telegram = record empty_config.alerts.telegram {
      cooldown = pos 300_000_000_000;
      queue_size = pos 100;
      timeout = pos 5_000_000_000;
      api_base_url = "https://api.telegram.org";
    };
  };
  public_subs = record empty_config.public_subs {
    short_uuid_regex = "^[A-Za-z0-9_-]{6,64}$";
    allowed_clients = "sing-box" ∷ "clash" ∷ "v2ray" ∷ "hiddify" ∷ [];
    request_header_allowlist =
        "user-agent" ∷ "accept" ∷ "x-hwid" ∷ "x-device-os" ∷ "x-ver-os" ∷ "x-device-model"
        ∷ "x-app-version" ∷ [];
    response_header_allowlist =
        "content-type" ∷ "content-disposition" ∷ "subscription-userinfo" ∷ "profile-update-interval"
        ∷ "profile-web-page-url" ∷ "support-url" ∷ "x-provider-id" ∷ [];
    per_ip_concurrency = pos 8;
    per_ip_rate = "120/m";
  };
}

-- The zero value of Constraints.
abbrev pub empty_constraints : Constraints
empty_constraints = record {
  username_prefix = "";
  username_suffix = "";
  username_contains = "";
  username_regex = "";
  email_contains = "";
  email_domains = [];
  telegram_id_ranges = [];
  allowed_internal_squads = [];
  allowed_external_squads = [];
  allowed_users = [];
  allowed_config_profiles = [];
  allowed_hosts = [];
  allowed_nodes = [];
  allow_all_config_profiles = false;
  allow_all_hosts = false;
  allow_all_nodes = false;
  allowed_subscription_templates = [];
  allowed_writable_internal_squads = [];
  allowed_writable_external_squads = [];
  allowed_subscription_page_configs = [];
  max_traffic_limit_bytes = pos 0;
  forbid_unlimited_traffic = false;
  max_description_length = pos 0;
  allowed_request_fields = [];
}
