-- ===== src/Config.antt =====
-- internal/config/config.go: the configuration. A map that is nil reads as an empty one in Go, and
-- the setters make it before they write, so a map is an association list. The telemetry settings
-- and the reading of files are left out.
pub mod Selection
pub mod Normalize
pub mod Services
use domour.Common.{ℤ, Bool, false, pos, List, []}
use domour.Common.Text.{Str}
use domour.Common.Assoc.{Assoc}

pub record ProviderConfig : Type 0 where
  pub https_proxy : Str
  pub api_key : Str
  pub base_url : Str
  pub model : Str
  pub models : List Str
  pub max_active_tokens : ℤ
  pub compress_trigger_tokens : ℤ
  pub enabled : Bool

pub record EntryConfig : Type 0 where
  pub provider : Str
  pub model : Str

pub record ModeMapping : Type 0 where
  pub require : List Str
  pub prefer : List Str
  pub exclude : List Str

pub record ServiceConfig : Type 0 where
  pub mode : Str
  pub app_id : Str

pub record McpServerConfig : Type 0 where
  pub kind : Str
  pub command : Str
  pub args : List Str
  pub env : Assoc Str
  pub url : Str
  pub app_id : Str

pub record DomourConfig : Type 0 where
  pub data_dir : Str
  pub https_proxy : Str
  pub log_as_json : Bool
  pub default_provider : Str
  pub default_model : Str
  pub providers : Assoc ProviderConfig
  pub entries : Assoc EntryConfig
  pub mode_mappings : Assoc ModeMapping
  pub services : Assoc ServiceConfig
  pub dapr_grpc_address : Str
  pub dapr_http_address : Str
  pub mcp_dir : Str
  pub skills_dir : Str
  pub mcp_servers : Assoc McpServerConfig
  pub max_active_tokens : ℤ
  pub compress_trigger_tokens : ℤ

-- What Go reads under a key that is missing.
abbrev pub no_provider : ProviderConfig
no_provider = record {
  https_proxy = [];
  api_key = [];
  base_url = [];
  model = [];
  models = [];
  max_active_tokens = pos 0;
  compress_trigger_tokens = pos 0;
  enabled = false;
}

abbrev pub no_entry : EntryConfig
no_entry = record { provider = []; model = [] }

abbrev pub no_service : ServiceConfig
no_service = record { mode = []; app_id = [] }
