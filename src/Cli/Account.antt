-- ===== src/Cli/Account.antt =====
-- The account behind the stored key, internal/cli/commands.go, and the commands that look it up: `dashboard`, and
-- `status` of internal/cli/status.go.
pub mod Careful
pub mod Shows
use distil_proxy.Base.{ℕ, Bool, true, false, ◌&&◌, not, Option, none, some, [], ◌++◌, if◌then◌else◌}
use distil_proxy.Base.Int.{ℤ}
use distil_proxy.Base.Text.{Text, codes, text_eq, trim_space, trim_slashes, is_empty}
use distil_proxy.Disk.{Disk, Faults, Result, ok, err}
use distil_proxy.Disk.Exec.{
  Action, Exec, pure, raise, lift, ◌>>=◌, ◌>>◌, mapping, wrap, ignore, attempt,
}
use distil_proxy.Config.{Config, ConfigError, ConfigJson, apply_defaults, load, save}
use distil_proxy.Config.Paths.{Paths, detect_paths}
use distil_proxy.Daemon.Files.{RuntimeStatus, DaemonError}
use distil_proxy.Daemon.Process.{Host, System}
use distil_proxy.Daemon.Status.{status}
use distil_proxy.Cli.Auth.{config_or_blank}
use distil_proxy.Cli.Interactive.{
  Account, InstallApi, InstallError, ApiRequest, post_key, path_of, judge_answer,
}
use distil_proxy.Cli.Status.{Formats, StatusOutput, build_status_output}
use distil_proxy.Cli.Urls.{UrlCodec, resolve_auth_base_url, build_dashboard_url}
use distil_proxy.Cli.Upgrade.{CommandError, load_error}

pub data AccountError : Type 0 where
  no_home : AccountError
  command_error : CommandError → AccountError
  status_failed : DaemonError → AccountError
  login_failed : InstallError → AccountError

-- What `dashboard` says: the browser is open for an account, or the address to open by hand
pub data Opened : Type 0 where
  opening : Text → Opened
  open_manually : Text → Text → Opened

module _ (faults : Faults) (json : ConfigJson) (api : InstallApi) (url : UrlCodec)
    (environment : Text) where
  -- `lookupAccountByAPIKey`
  unfoldable pub lookup_account_by_api_key : Text → Text → Result InstallError Account
  lookup_account_by_api_key server api_key =
      let request = post_key (trim_space api_key) in
      let base = trim_slashes (resolve_auth_base_url url environment server) in
      judge_answer api (api.post 0 (base ++ path_of request) request)

  unfoldable pub is_new_email : Text → Text → Bool
  is_new_email email old = not (is_empty email) && not (text_eq email (trim_space old))

  -- The email of the account is kept in the settings, and in the file if it can be written.
  unfoldable pub keep_email : Config → Account → Exec InstallError (Account × Config)
  keep_email cfg account =
      let email = trim_space account.email in
      if is_new_email email cfg.email
      then (do
        ignore (save faults json (record cfg { email = email }))
        pure (account, record cfg { email = email }))
      else pure (account, cfg)

  -- `lookupAccountForConfig`, with the settings as it leaves them
  unfoldable pub lookup_account_for_config : Config → Exec InstallError (Account × Config)
  lookup_account_for_config cfg = do
    account ← lift (lookup_account_by_api_key cfg.server cfg.api_key)
    keep_email cfg account

  abbrev pub email_found : Text → Result InstallError (Account × Config) → Text
  email_found old (ok (account, cfg)) = trim_space account.email
  email_found old (err e) = old

  -- The email that `status` shows, behind `Load`
  unfoldable pub account_email : Result ConfigError Config → Exec AccountError Text
  account_email (err e) = pure (trim_space (apply_defaults (config_or_blank (err e))).email)
  account_email (ok c) =
      let cfg = apply_defaults c in
      if is_empty (trim_space cfg.email) && not (is_empty (trim_space cfg.api_key))
      then (do
        r ← attempt (lookup_account_for_config cfg)
        pure (email_found (trim_space cfg.email) r))
      else pure (trim_space cfg.email)

  -- `statusConfigLoadFunc` with the account's email: the server and the email
  unfoldable pub account_shown : Exec AccountError (Text × Text)
  account_shown = do
    r ← attempt (load faults json)
    email ← account_email r
    pure ((apply_defaults (config_or_blank r)).server, email)

  module _ (runs : Text → Bool) where
    unfoldable pub opened_for : Text → Account → Opened
    opened_for server account =
        let email = trim_space account.email in
        let shown = if is_empty email then codes "your account" else email in
        let address =
          build_dashboard_url url (resolve_auth_base_url url environment server)
            account.magic_link_token in
        if runs address then opening shown else open_manually shown address

    -- The `dashboard` command; `runs` is `openBrowserFunc`.
    unfoldable pub open_dashboard : Option Text → Exec AccountError Opened
    open_dashboard none = raise no_home
    open_dashboard (some home) = do
      cfg ← mapping (λ e. command_error (load_error e)) (load faults json)
      found ← mapping login_failed (lookup_account_for_config (apply_defaults cfg))
      pure (opened_for (apply_defaults cfg).server found.0)

module _ (sys : System) (json : ConfigJson) (api : InstallApi) (url : UrlCodec) (environment : Text)
    (formats : Formats) (version : Text) where
  unfoldable pub reported : Action Host AccountError RuntimeStatus
  reported = mapping status_failed (status sys)

  abbrev pub output_of :
      RuntimeStatus → ℤ → Result AccountError (Text × Text) → Result AccountError StatusOutput
  output_of s now (ok (server, email)) = ok (build_status_output formats version server email s now)
  output_of s now (err e) = err e

  unfoldable pub shown_of : RuntimeStatus → ℤ → Action Host AccountError StatusOutput
  shown_of s now h =
      let (r, d) = account_shown sys.faults json api url environment h.disk in
      (output_of s now r, record h { disk = d })

  -- The `status` command before it prints
  unfoldable pub show_status : Option Text → ℤ → Action Host AccountError StatusOutput
  show_status none now = raise no_home
  show_status (some home) now = do s ← reported; shown_of s now
