-- ===== src/Config.antt =====
-- pkg/config/config.go: the raw configuration, as the YAML decoder fills it, and the runtime
-- configuration. A pointer to a number is an Option, a duration a number of nanoseconds.
pub mod Build
pub mod Settings
pub mod Shared
pub mod Sound
pub mod Tests
use mcpshield.Prelude.{ℕ, String, Bool, Option, List, ℤ}

pub record ServerConfig : Type 0 where
  pub listen : String
  pub max_request_bytes : Option ℤ
  pub insecure_allow_anonymous : Bool
  pub request_timeout : String
  pub read_timeout : String
  pub write_timeout : String
  pub idle_timeout : String
  pub warmup_timeout : String
  pub session_ttl : String
  pub session_max_entries : Option ℤ
  pub warmup_retry_interval : String

pub record AuthKeyConfig : Type 0 where
  pub id : String
  pub key_hash : String
  pub client_id : String

pub record AuthConfig : Type 0 where
  pub kind : String
  pub keys : List AuthKeyConfig

pub record UpstreamConfig : Type 0 where
  pub id : String
  pub tool_prefix : String
  pub url : String
  pub headers : List (String × String)
  pub request_timeout : String
  pub max_response_bytes : Option ℤ
  pub tools_cache_ttl : String
  pub refresh_timeout : String

pub record MetricsConfig : Type 0 where
  pub enabled : Bool
  pub include_client_id : Bool

pub record AuditSqliteConfig : Type 0 where
  pub path : String
  pub wal : Bool
  pub busy_timeout : String
  pub synchronous : String

pub record AuditWriteConfig : Type 0 where
  pub batch_max_events : ℤ
  pub batch_max_delay : String
  pub channel_size : ℤ
  pub mode : String

pub record AuditRetentionConfig : Type 0 where
  pub max_age : String
  pub max_size : String
  pub vacuum_interval : String

pub record AuditConfig : Type 0 where
  pub enabled : Bool
  pub backend : String
  pub sqlite : AuditSqliteConfig
  pub write : AuditWriteConfig
  pub retention : AuditRetentionConfig
  pub hash_chain : Bool

pub record Config : Type 0 where
  pub server : ServerConfig
  pub auth : AuthConfig
  pub policy_file : String
  pub upstreams : List UpstreamConfig
  pub metrics : MetricsConfig
  pub audit : AuditConfig

pub record ServerRuntimeConfig : Type 0 where
  pub listen : String
  pub max_request_bytes : ℤ
  pub request_timeout : ℤ
  pub read_timeout : ℤ
  pub write_timeout : ℤ
  pub idle_timeout : ℤ
  pub warmup_timeout : ℤ
  pub warmup_retry_interval : ℤ
  pub session_ttl : ℤ
  pub session_max_entries : ℤ

pub record UpstreamRuntimeConfig : Type 0 where
  pub id : String
  pub tool_prefix : String
  pub url : String
  pub headers : List (String × String)
  pub request_timeout : ℤ
  pub max_response_bytes : ℤ
  pub tools_cache_ttl : ℤ
  pub refresh_timeout : ℤ

pub record UpstreamManagerRuntimeConfig : Type 0 where
  pub tools_cache_ttl : ℤ
  pub refresh_timeout : ℤ

pub record RuntimeConfig : Type 0 where
  pub server : ServerRuntimeConfig
  pub upstreams : List UpstreamRuntimeConfig
  pub upstream_manager : UpstreamManagerRuntimeConfig

abbrev pub second : ℕ
second = 1_000_000_000

-- Which setting an error is about: of the server, or of the upstream with an id.
pub data Field : Type 0 where
  server_field : String → Field
  upstream_field : String → String → Field

pub data ConfigError : Type 0 where
  not_a_duration not_positive not_positive_when_set : Field → ConfigError
  id_required : ℕ → ConfigError
  prefix_required url_required id_not_unique prefix_not_unique : String → ConfigError
