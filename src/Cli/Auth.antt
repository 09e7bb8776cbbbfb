-- ===== src/Cli/Auth.antt =====
-- The `auth` command of internal/cli/commands.go behind its prompts, and the hook behind an upgrade of
-- internal/cli/commands_upgrade.go: the key is stored, the daemon restarted and waited for, and a page fetched.
pub mod Stored
pub mod Verified
use distil_proxy.Base.{
  ℕ, Bool, true, false, not, ◌&&◌, ◌||◌, Option, none, some, [], ◌∷◌, ◌++◌, if◌then◌else◌,
}
use distil_proxy.Base.Int.{ℤ, pos, ltb_ℤ, leb_ℤ}
use distil_proxy.Base.Text.{
  Text, codes, text_eq, trim_space, trim_slashes, equal_fold, is_empty, has_prefix,
}
use distil_proxy.Disk.{Faults, Result, ok, err}
use distil_proxy.Disk.Exec.{Action, Exec, pure, raise, lift, ◌>>=◌, ◌>>◌, mapping, wrap, attempt}
use distil_proxy.Config.{
  Config, ConfigError, ConfigJson, apply_defaults, validate_api_key, load, save,
}
use distil_proxy.Daemon.Files.{DaemonError}
use distil_proxy.Daemon.Process.{Host, System}
use distil_proxy.Daemon.Start.{Launcher, StartError, restart}
use distil_proxy.Cli.Wait.{WaitError, wait_for_daemon_connected}
use distil_proxy.Cli.Status.{or_text}
use distil_proxy.Cli.Urls.{UrlCodec, proxy_http_base_url}

-- What the proxy answers to the page's request
pub record Reply : Type 0 where
  pub status : ℤ
  -- the first 256 bytes
  pub body : Text
  pub x_distil : Text
  pub x_distil_source : Text

pub data Exchange : Type 0 where
  unbuilt unanswered : Text → Exchange
  replied : Reply → Exchange

pub data FetchError : Type 0 where
  build_request request_failed : Text → FetchError
  bad_status : ℤ → Text → FetchError
  not_distil : FetchError

pub data AuthError : Type 0 where
  bad_api_key : AuthError
  config_error : ConfigError → AuthError
  restart_error : StartError → AuthError
  wait_error : WaitError → AuthError
  fetch_error : FetchError → AuthError

-- `config.Config{}`
abbrev pub blank_config : Config
blank_config = record {
  api_key = [];
  email = [];
  legacy_proxy_key = [];
  server = [];
  timeout_ms = pos 0;
  log_level = [];
  auto_upgrade = false;
  upgrade_check_hours = pos 0;
  auto_upgrade_set = false;
}

abbrev pub config_or_blank : Result ConfigError Config → Config
config_or_blank (ok c) = c
config_or_blank (err e) = blank_config

-- The settings with the new key: another key without an email drops the old email.
unfoldable pub with_key : Text → Text → Config → Config
with_key api_key email c =
    let previous = trim_space c.api_key in
    record c {
      api_key = api_key;
      email =
          if not (is_empty (trim_space email))
          then trim_space email
          else if not (is_empty previous) && not (text_eq previous api_key)
          then []
          else c.email;
    }

module _ (faults : Faults) (json : ConfigJson) where
  unfoldable pub save_config : Config → Exec ConfigError Config
  save_config c = do save faults json c; pure c

  -- `saveAuthKeyWithVerificationKey` from `Load` to `Save`
  unfoldable pub store_key : Text → Text → Exec ConfigError Config
  store_key api_key email = do
    r ← attempt (load faults json)
    save_config (with_key api_key email (apply_defaults (config_or_blank r)))

unfoldable pub judge_reply : Reply → Result FetchError Text
judge_reply r =
    if ltb_ℤ r.status (pos 200) || leb_ℤ (pos 300) r.status
    then err (bad_status r.status (trim_space r.body))
    else if equal_fold (trim_space r.x_distil) (codes "true")
    then ok (trim_space r.x_distil_source)
    else err not_distil

unfoldable pub judge_exchange : Exchange → Result FetchError Text
judge_exchange (unbuilt e) = err (build_request e)
judge_exchange (unanswered e) = err (request_failed e)
judge_exchange (replied r) = judge_reply r

module _ (url : UrlCodec) (send : Text → Text → Exchange) where
  -- `runVerificationFetch`; `send` has an address and a key.
  unfoldable pub run_verification_fetch : Text → Text → Result FetchError Text
  run_verification_fetch server_url api_key = judge_exchange (
      send (trim_slashes (proxy_http_base_url url server_url) ++ codes "/https://example.com")
        api_key)

module _ (sys : System) (json : ConfigJson) (spawn : ℕ → Text → Option ℤ)
    (error_text : DaemonError → Text) (url : UrlCodec) (send : Text → Text → Exchange) where
  unfoldable pub wait_connected : Action Launcher AuthError (Unit {0})
  wait_connected l =
      let (r, h) = wait_for_daemon_connected error_text sys 20_000 500 l.host in
      (wrap wait_error r, record l { host = h })

  unfoldable pub restart_daemon : Action Launcher AuthError (Unit {0})
  restart_daemon = mapping restart_error (restart sys spawn)

  unfoldable pub verify_fetch : Text → Text → Action Launcher AuthError Text
  verify_fetch server key = lift (wrap fetch_error (run_verification_fetch url send server key))

  -- `postAuthFinalize`: the source of the page
  unfoldable pub post_auth_finalize : Config → Text → Action Launcher AuthError Text
  post_auth_finalize cfg verification_key = do
    restart_daemon
    wait_connected
    verify_fetch cfg.server verification_key

  unfoldable pub verify_credential : Config → Bool → Action Launcher AuthError (Option Text)
  verify_credential cfg false = pure none
  verify_credential cfg true = do source ← verify_fetch cfg.server cfg.api_key; pure (some source)

  -- `runPostUpgradeHook`: the source of the page, unless the fetch is skipped
  unfoldable pub run_post_upgrade_hook : Config → Action Launcher AuthError (Option Text)
  run_post_upgrade_hook cfg = do
    restart_daemon
    wait_connected
    verify_credential cfg (has_prefix (trim_space cfg.api_key) (codes "dk_"))

  unfoldable pub stored_key : Text → Text → Action Launcher AuthError Config
  stored_key api_key email l =
      let (r, d) = store_key sys.faults json api_key email l.host.disk in
      (wrap config_error r, record l { host = record l.host { disk = d } })

  -- `saveAuthKeyWithVerificationKey`
  unfoldable pub save_auth_key_with_verification_key :
      Text → Text → Text → Action Launcher AuthError Text
  save_auth_key_with_verification_key key email verification_key =
      let api_key = trim_space key in
      if validate_api_key api_key
      then (do
        cfg ← stored_key api_key email
        post_auth_finalize (apply_defaults cfg) (or_text (trim_space verification_key) api_key))
      else raise bad_api_key
