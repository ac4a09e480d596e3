-- ===== src/Config/Types.antt =====
-- internal/config/config.go: the structs. An `int`, an `int64` and a `time.Duration` (nanoseconds)
-- are whole numbers; a map is a list of pairs; the unexported path of the file is left out.
use remnaguard.Prelude.{String, Bool, List, ℤ}

pub record ServerConfig : Type 0 where
  pub api_listen : String
  pub local_listen : String
  pub expose_local : Bool
  pub read_timeout : ℤ
  pub write_timeout : ℤ
  pub idle_timeout : ℤ
  pub header_timeout : ℤ
  pub max_header_bytes : ℤ

pub record UpstreamConfig : Type 0 where
  pub base_url : String
  pub bearer_env : String
  pub bearer_file : String
  pub bearer : String
  pub extra_headers : List (String × String)
  pub allow_insecure_http : Bool
  pub allow_insecure_tls : Bool
  pub custom_ca_file : String
  pub mtls_cert_file : String
  pub mtls_key_file : String
  pub version_path : String
  pub response_header_timeout : ℤ

pub record CompatibilityConfig : Type 0 where
  pub remnawave_version : String
  pub assume_version : String
  pub allow_version_mismatch : Bool

pub record LimitsConfig : Type 0 where
  pub max_path_length : ℤ
  pub max_query_length : ℤ
  pub max_body_bytes : ℤ
  pub global_concurrency : ℤ
  pub per_token_concurrency : ℤ
  pub default_rate : String
  pub upstream_body_bytes : ℤ
  pub shutdown_grace_period : ℤ

pub record MetricsConfig : Type 0 where
  pub enabled : Bool

pub record AuditConfig : Type 0 where
  pub stdout : Bool
  pub pepper_env : String
  pub sqlite_path : String

pub record TelegramAlertsConfig : Type 0 where
  pub enabled : Bool
  pub bot_token_env : String
  pub chat_id_env : String
  pub cooldown : ℤ
  pub queue_size : ℤ
  pub timeout : ℤ
  pub api_base_url : String

pub record AlertsConfig : Type 0 where
  pub enabled : Bool
  pub telegram : TelegramAlertsConfig

pub record ReportConfig : Type 0 where
  pub enabled : Bool
  pub unsafe_report_proxy : Bool

pub record PublicSubsConfig : Type 0 where
  pub enabled : Bool
  pub short_uuid_regex : String
  pub allowed_clients : List String
  pub request_header_allowlist : List String
  pub response_header_allowlist : List String
  pub extra_headers : List (String × String)
  pub extra_response_headers : List (String × String)
  pub auth_header_name : String
  pub auth_header_env : String
  pub per_ip_concurrency : ℤ
  pub per_ip_rate : String

pub record PanelFacadeSessionConfig : Type 0 where
  pub issuer : String
  pub audience : String
  pub token_ttl : ℤ
  pub secret_env : String

pub record PanelFacadeTelegramConfig : Type 0 where
  pub client_id_env : String
  pub client_secret_env : String
  pub frontend_domain : String
  pub auth_url : String
  pub token_url : String
  pub auth_max_age : ℤ

pub record PanelFacadeTelegramActor : Type 0 where
  pub credential_id : String
  pub display_name : String

pub record PanelFacadeActorsConfig : Type 0 where
  pub telegram : List (String × PanelFacadeTelegramActor)

pub record PanelFacadeConfig : Type 0 where
  pub enabled : Bool
  pub session : PanelFacadeSessionConfig
  pub telegram : PanelFacadeTelegramConfig
  pub actors : PanelFacadeActorsConfig

pub record ReloadConfig : Type 0 where
  pub sighup : Bool
  pub watch_files : Bool
  pub allow_insecure_secret_file_perms : Bool

pub record WriteSafetyConfig : Type 0 where
  pub single_writer : Bool
  pub enable_restricted_writes : Bool
  pub enable_tenant_writes_legacy : Bool

pub record IdRange : Type 0 where
  pub min : ℤ
  pub max : ℤ

pub record Constraints : Type 0 where
  pub username_prefix : String
  pub username_suffix : String
  pub username_contains : String
  pub username_regex : String
  pub email_contains : String
  pub email_domains : List String
  pub telegram_id_ranges : List IdRange
  pub allowed_internal_squads : List String
  pub allowed_external_squads : List String
  pub allowed_users : List String
  pub allowed_config_profiles : List String
  pub allowed_hosts : List String
  pub allowed_nodes : List String
  pub allow_all_config_profiles : Bool
  pub allow_all_hosts : Bool
  pub allow_all_nodes : Bool
  pub allowed_subscription_templates : List String
  pub allowed_writable_internal_squads : List String
  pub allowed_writable_external_squads : List String
  pub allowed_subscription_page_configs : List String
  pub max_traffic_limit_bytes : ℤ
  pub forbid_unlimited_traffic : Bool
  pub max_description_length : ℤ
  pub allowed_request_fields : List (String × List String)

pub record Credential : Type 0 where
  pub id : String
  pub hmac_sha256 : String
  pub disabled : Bool

pub record TokenPolicy : Type 0 where
  pub id : String
  pub credentials : List Credential
  pub scopes : List String
  pub disabled : Bool
  pub constraints : Constraints

pub record Config : Type 0 where
  pub server : ServerConfig
  pub upstream : UpstreamConfig
  pub compatibility : CompatibilityConfig
  pub limits : LimitsConfig
  pub metrics : MetricsConfig
  pub audit : AuditConfig
  pub alerts : AlertsConfig
  pub report : ReportConfig
  pub public_subs : PublicSubsConfig
  pub panel_facade : PanelFacadeConfig
  pub reload : ReloadConfig
  pub write_safety : WriteSafetyConfig
  pub tokens : List TokenPolicy
  pub includes : List String
