-- ===== src/Tests/Samples.antt =====
-- A configuration with two tokens, used by the runs.
use remnaguard.Prelude.{String, Bool, true, false, List, [], ◌∷◌, pos}
use remnaguard.Config.{Config, TokenPolicy, Credential, Constraints}
use remnaguard.Config.Defaults.{empty_constraints}

abbrev pub no_constraints : Constraints
no_constraints = empty_constraints

abbrev pub key_of : String → String → Bool → Credential
key_of id digest disabled = record { id = id; hmac_sha256 = digest; disabled = disabled }

-- A token that may read users and change them, with an old credential and a new one.
abbrev pub shop : TokenPolicy
shop = record {
  id = "shop";
  credentials = key_of "old" "d0" true ∷ key_of "new" "d1" false ∷ [];
  scopes = "users:read" ∷ "users:write" ∷ [];
  disabled = false;
  constraints = record no_constraints {
    username_prefix = "shop_";
    email_domains = "example.org" ∷ [];
    allowed_users = "u1" ∷ [];
  };
}

abbrev pub root : TokenPolicy
root = record {
  id = "root";
  credentials = key_of "r" "d2" false ∷ [];
  scopes = "remnawave:*" ∷ [];
  disabled = false;
  constraints = no_constraints;
}

abbrev pub config_with : List TokenPolicy → Bool → Config
config_with tokens writes = record {
  server = record {
    api_listen = ":8080";
    local_listen = "127.0.0.1:8081";
    expose_local = false;
    read_timeout = pos 0;
    write_timeout = pos 0;
    idle_timeout = pos 0;
    header_timeout = pos 0;
    max_header_bytes = pos 0;
  };
  upstream = record {
    base_url = "https://up";
    bearer_env = "";
    bearer_file = "";
    bearer = "b";
    extra_headers = [];
    allow_insecure_http = false;
    allow_insecure_tls = false;
    custom_ca_file = "";
    mtls_cert_file = "";
    mtls_key_file = "";
    version_path = "";
    response_header_timeout = pos 0;
  };
  compatibility = record {
    remnawave_version = "2.8.1";
    assume_version = "";
    allow_version_mismatch = false;
  };
  limits = record {
    max_path_length = pos 2048;
    max_query_length = pos 4096;
    max_body_bytes = pos 1048576;
    global_concurrency = pos 128;
    per_token_concurrency = pos 8;
    default_rate = "600/m";
    upstream_body_bytes = pos 67108864;
    shutdown_grace_period = pos 0;
  };
  metrics = record { enabled = false };
  audit = record { stdout = true; pepper_env = ""; sqlite_path = "" };
  alerts = record {
    enabled = false;
    telegram = record {
      enabled = false;
      bot_token_env = "";
      chat_id_env = "";
      cooldown = pos 0;
      queue_size = pos 0;
      timeout = pos 0;
      api_base_url = "";
    };
  };
  report = record { enabled = false; unsafe_report_proxy = false };
  public_subs = record {
    enabled = false;
    short_uuid_regex = "";
    allowed_clients = [];
    request_header_allowlist = [];
    response_header_allowlist = [];
    extra_headers = [];
    extra_response_headers = [];
    auth_header_name = "";
    auth_header_env = "";
    per_ip_concurrency = pos 8;
    per_ip_rate = "120/m";
  };
  panel_facade = record {
    enabled = true;
    session = record {
      issuer = "rg";
      audience = "panel";
      token_ttl = pos 3600_000_000_000;
      secret_env = "SECRET";
    };
    telegram = record {
      client_id_env = "";
      client_secret_env = "";
      frontend_domain = "";
      auth_url = "";
      token_url = "";
      auth_max_age = pos 300_000_000_000;
    };
    actors = record {
      telegram = ("42", record { credential_id = "new"; display_name = "Ann" }) ∷ [];
    };
  };
  reload = record { sighup = true; watch_files = false; allow_insecure_secret_file_perms = false };
  write_safety = record {
    single_writer = writes;
    enable_restricted_writes = writes;
    enable_tenant_writes_legacy = false;
  };
  tokens = tokens;
  includes = [];
}

abbrev pub sample_config : Config
sample_config = config_with (shop ∷ root ∷ []) true
