-- ===== src/Ws/Config.antt =====
-- `NewClient` of internal/ws/client.go: the settings of a client. Durations are nanoseconds.
pub mod Valid
use distil_proxy.Base.{
  ℕ, ◌*◌, ◌≤◌, ◌≡◌, Bool, true, false, ◌&&◌, Option, none, some, ltb, if◌then◌else◌, length,
}
use distil_proxy.Base.Int.{ℤ, pos, leb_ℤ}
use distil_proxy.Base.Text.{Text, codes, is_empty, has_prefix}
use distil_proxy.Fetch.{HttpExecutor, new_http_executor, default_max_body_bytes}
use distil_proxy.Jobs.{Registry, new_registry}
use distil_proxy.Ws.Protocol.{default_protocol_version}

abbrev pub second : ℕ
second = 1_000_000_000

abbrev pub default_heartbeat : ℕ
default_heartbeat = 30 * second

abbrev pub default_max_reconnect_wait : ℕ
default_max_reconnect_wait = 60 * second

-- The fetcher, the registry and the logger may be nil. The hooks are events of the model.
pub record ClientConfig : Type 0 where
  pub server_url : Text
  pub api_key : Text
  pub protocol_version : Text
  pub default_timeout_ms : ℤ
  pub heartbeat_interval : ℤ
  pub initial_reconnect : ℤ
  pub max_reconnect_wait : ℤ
  pub fetcher : Option HttpExecutor
  pub job_registry : Option Registry

pub data ConfigError : Type 0 where
  server_url_required : ConfigError
  bad_api_key : ConfigError

-- `validateAPIKey`
unfoldable pub validate_api_key : Text → Bool
validate_api_key key =
    if has_prefix key (codes "dk_") && ltb 3 (length key)
    then true
    else if has_prefix key (codes "dpk_") && ltb 4 (length key)
    then true
    else false

abbrev or_default : ℤ → ℕ → ℤ
or_default x d = if leb_ℤ x (pos 0) then pos d else x

unfoldable pub with_defaults : ClientConfig → ClientConfig
with_defaults cfg = record cfg {
  protocol_version =
      if is_empty cfg.protocol_version then default_protocol_version else cfg.protocol_version;
  default_timeout_ms = or_default cfg.default_timeout_ms 30000;
  heartbeat_interval = or_default cfg.heartbeat_interval default_heartbeat;
  initial_reconnect = or_default cfg.initial_reconnect second;
  max_reconnect_wait = or_default cfg.max_reconnect_wait default_max_reconnect_wait;
  fetcher = elim cfg.fetcher [
    | none ↦ some (new_http_executor (pos default_max_body_bytes))
    | some e ↦ some e
  ];
  job_registry = elim cfg.job_registry [ none ↦ some new_registry | some r ↦ some r ];
}

pub data NewClient : Type 0 where
  client : ClientConfig → NewClient
  refused : ConfigError → NewClient

unfoldable pub new_client : ClientConfig → NewClient
new_client cfg =
    if is_empty cfg.server_url
    then refused server_url_required
    else if validate_api_key cfg.api_key
    then client (with_defaults cfg)
    else refused bad_api_key
