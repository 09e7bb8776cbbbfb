-- ===== src/Config.antt =====
-- internal/config/config.go: the settings that are kept in `~/.distil-proxy/config.json`. The JSON codec is
-- the parameter `ConfigJson`.
pub mod Valid
pub mod Storage
pub mod RoundTrip
pub mod Paths
use distil_proxy.Base.{
  Bool, true, false, ◌&&◌, not, Option, none, some, List, [], ◌∷◌, ◌++◌, ltb, length, if◌then◌else◌,
}
use distil_proxy.Base.Int.{ℤ, pos, leb_ℤ}
use distil_proxy.Base.Text.{Text, Bytes, codes, text_eq, is_empty, has_prefix, trim_space, to_lower}
use distil_proxy.Disk.{
  Faults, at, tmp, config_file, IoError, not_exist, Result, ok, err, read_file, write_file, rename,
  touch,
}
use distil_proxy.Disk.Exec.{Exec, raise, lift, ◌>>=◌, ◌>>◌, mapping, attempt}

pub record Config : Type 0 where
  pub api_key : Text
  pub email : Text
  pub legacy_proxy_key : Text
  pub server : Text
  pub timeout_ms : ℤ
  pub log_level : Text
  pub auto_upgrade : Bool
  pub upgrade_check_hours : ℤ
  pub auto_upgrade_set : Bool

pub data ValidationError : Type 0 where
  proxy_key_unsupported bad_api_key server_required bad_timeout_ms log_level_required :
      ValidationError
  bad_upgrade_check_hours unsupported_log_level : ValidationError

pub data ConfigError : Type 0 where
  config_not_found trailing_data decode_config encode_config : ConfigError
  read_config : IoError → ConfigError
  validate_config : ValidationError → ConfigError
  create_directory : IoError → ConfigError
  write_temp_config : IoError → ConfigError
  replace_config : IoError → ConfigError
  chmod_config : IoError → ConfigError

abbrev pub default_server_url : Text
default_server_url = codes "wss://proxy.distil.net/ws"

abbrev pub default_log_level : Text
default_log_level = codes "info"

abbrev is_blank : Text → Bool
is_blank s = is_empty (trim_space s)

-- `ApplyDefaults`
unfoldable pub apply_defaults : Config → Config
apply_defaults c = record c {
  server = if is_blank c.server then default_server_url else c.server;
  timeout_ms = if leb_ℤ c.timeout_ms (pos 0) then pos 30000 else c.timeout_ms;
  log_level = if is_blank c.log_level then default_log_level else c.log_level;
  auto_upgrade = if not c.auto_upgrade_set then true else c.auto_upgrade;
  upgrade_check_hours =
      if leb_ℤ c.upgrade_check_hours (pos 0) then pos 6 else c.upgrade_check_hours;
}

unfoldable pub is_one_of : List Text → Text → Bool
is_one_of [] s = false
is_one_of (t ∷ ts) s = if text_eq s t then true else is_one_of ts s

abbrev pub log_levels : List Text
log_levels = codes "debug" ∷ codes "info" ∷ codes "warn" ∷ codes "warning" ∷ codes "error" ∷ []

-- `isSupportedLogLevel`
unfoldable pub is_supported_log_level : Text → Bool
is_supported_log_level level = is_one_of log_levels (to_lower (trim_space level))

-- `ValidateAPIKey`
unfoldable pub validate_api_key : Text → Bool
validate_api_key key =
    if has_prefix key (codes "dk_") && ltb 3 (length key)
    then true
    else if has_prefix key (codes "dpk_") && ltb 4 (length key)
    then true
    else false

-- `Validate`: the error, if there is one.
unfoldable pub validate : Config → Option ValidationError
validate c =
    if is_blank c.api_key && not (is_blank c.legacy_proxy_key)
    then some proxy_key_unsupported
    else if not (validate_api_key c.api_key)
    then some bad_api_key
    else if is_blank c.server
    then some server_required
    else if leb_ℤ c.timeout_ms (pos 0)
    then some bad_timeout_ms
    else if is_blank c.log_level
    then some log_level_required
    else if leb_ℤ c.upgrade_check_hours (pos 0)
    then some bad_upgrade_check_hours
    else if not (is_supported_log_level c.log_level)
    then some unsupported_log_level
    else none

-- What stands behind the first JSON value of a file.
pub data Trailing : Type 0 where
  end_of_file another_value malformed : Trailing

pub record ConfigJson : Type 0 where
  -- the first value, with no unknown field; `autoUpgradeSet` is not in the file
  pub decode : Bytes → Option Config
  pub trailing : Bytes → Trailing
  -- whether the object has the key `auto_upgrade`, if the file is an object
  pub has_auto_upgrade : Bytes → Option Bool
  pub encode : Config → Option Bytes

unfoldable pub valid_or_error : Config → Result ConfigError Config
valid_or_error c = elim (validate c) [ none ↦ ok c | some e ↦ err (validate_config e) ]

unfoldable pub with_presence : Config → Option Bool → Result ConfigError Config
unfolding valid_or_error
with_presence c none = err decode_config
with_presence c (some present) =
    valid_or_error (
      apply_defaults (record c { auto_upgrade_set = if present then true else c.auto_upgrade_set }))

unfoldable pub with_trailing : Config → Trailing → Option Bool → Result ConfigError Config
unfolding with_presence
with_trailing c end_of_file present = with_presence c present
with_trailing c another_value present = err trailing_data
with_trailing c malformed present = err decode_config

unfoldable pub with_decoded : Option Config → Trailing → Option Bool → Result ConfigError Config
unfolding with_trailing
with_decoded none trailing present = err decode_config
with_decoded (some c) trailing present = with_trailing c trailing present

-- `Load` from the contents on.
unfoldable pub parse_config : ConfigJson → Bytes → Result ConfigError Config
parse_config json content =
    with_decoded (json.decode content) (json.trailing content) (json.has_auto_upgrade content)

-- `EnsureStateDirs`: the root, `bin` and `logs`.
unfoldable pub ensure_state_dirs : Faults → Exec IoError (Unit {0})
ensure_state_dirs faults = do touch faults; touch faults; touch faults

module _ (faults : Faults) (json : ConfigJson) where
  unfoldable pub loaded : Result IoError Bytes → Exec ConfigError Config
  loaded (ok content) = lift (parse_config json content)
  loaded (err not_exist) = raise config_not_found
  loaded (err e) = raise (read_config e)

  -- `Load`
  unfoldable pub load : Exec ConfigError Config
  load = do r ← attempt (read_file faults (at config_file)); loaded r

  abbrev pub normalized : Config → Config
  normalized c = record (apply_defaults c) { legacy_proxy_key = [] }

  abbrev pub encoded : Option Bytes → Result ConfigError Bytes
  encoded none = err encode_config
  encoded (some payload) = ok (payload ++ (10 ∷ []))

  -- The last steps of `Save`: the file is written beside its place and moved.
  unfoldable pub write_config : Bytes → Exec ConfigError (Unit {0})
  write_config payload = do
    mapping write_temp_config (write_file faults (tmp config_file) payload)
    mapping replace_config (rename faults (tmp config_file) (at config_file))
    mapping chmod_config (touch faults)

  unfoldable pub store : Config → Exec ConfigError (Unit {0})
  store c = do
    mapping create_directory (ensure_state_dirs faults)
    payload ← lift (encoded (json.encode c))
    write_config payload

  unfoldable pub store_valid : Config → Option ValidationError → Exec ConfigError (Unit {0})
  store_valid c none = store c
  store_valid c (some e) = raise (validate_config e)

  -- `Save`
  unfoldable pub save : Config → Exec ConfigError (Unit {0})
  save c = store_valid (normalized c) (validate (normalized c))
