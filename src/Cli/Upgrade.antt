-- ===== src/Cli/Upgrade.antt =====
-- The `upgrade` command of internal/cli/commands_upgrade.go, on top of the manager of internal/upgrade/manager.go.
pub mod Applied
use distil_proxy.Base.{ℕ, Bool, true, false, Option, none, some, [], if◌then◌else◌}
use distil_proxy.Base.Int.{ℤ, pos}
use distil_proxy.Base.Text.{Text, codes, trim_space}
use distil_proxy.Disk.{Disk, Result, ok, err}
use distil_proxy.Disk.Exec.{Action, pure, raise, ◌>>=◌, mapping, wrap}
use distil_proxy.Config.{Config, ConfigError, config_not_found, ConfigJson, apply_defaults, load}
use distil_proxy.Daemon.Files.{DaemonError}
use distil_proxy.Daemon.Process.{System}
use distil_proxy.Daemon.Start.{Launcher}
use distil_proxy.Upgrade.Version.{normalize_upgrade_current_version}
use distil_proxy.Upgrade.Manager.{
  ManagerConfig, UpgradeError, Release, Checked, new_manager, check_and_upgrade,
}
use distil_proxy.Cli.Auth.{Exchange, AuthError, run_post_upgrade_hook}
use distil_proxy.Cli.Status.{or_text}
use distil_proxy.Cli.Urls.{UrlCodec}

pub data CommandError : Type 0 where
  run_auth_first resolve_executable : CommandError
  load_failed : ConfigError → CommandError
  upgrade_failed : UpgradeError → CommandError
  hook_failed : AuthError → CommandError

-- What the command prints at its end: the version that is there already, or the new one with the page's source.
pub data Report : Type 0 where
  up_to_date : Text → Report
  upgraded : Text → Option Text → Report

unfoldable pub load_error : ConfigError → CommandError
load_error config_not_found = run_auth_first
load_error e = load_failed e

-- The settings of the manager that the command makes
unfoldable pub manual_config : Text → ManagerConfig
manual_config version = new_manager (record {
  is_enabled = true;
  current_version = normalize_upgrade_current_version version;
  rollback_window = pos 0;
  check_interval = pos 0;
})

module _ (sys : System) (json : ConfigJson) (spawn : ℕ → Text → Option ℤ)
    (error_text : DaemonError → Text) (url : UrlCodec) (send : Text → Text → Exchange)
    (net : Release) (version : Text) where
  unfoldable pub load_settings : Action Launcher CommandError Config
  load_settings l =
      let (r, d) = mapping load_error (load sys.faults json) l.host.disk in
      (r, record l { host = record l.host { disk = d } })

  unfoldable pub resolve_path : Action Launcher CommandError Text
  resolve_path l =
      (elim (sys.exec_path l.host.looks) [ none ↦ err resolve_executable | some path ↦ ok path ], l)

  -- `CheckAndUpgrade`, with its error or its result
  unfoldable pub check_release_now : Action Launcher CommandError Checked
  check_release_now l =
      let (c, d) = check_and_upgrade sys.faults net (manual_config version) l.host.disk in
      (
        elim c.error [ some e ↦ err (upgrade_failed e) | none ↦ ok c ],
        record l { host = record l.host { disk = d } },
      )

  unfoldable pub complete_upgrade : Config → Text → Bool → Action Launcher CommandError Report
  complete_upgrade cfg available false = pure (up_to_date (trim_space available))
  complete_upgrade cfg available true = do
    source ← mapping hook_failed (run_post_upgrade_hook sys json spawn error_text url send cfg)
    pure (upgraded (or_text (trim_space available) (codes "latest")) source)

  -- The `upgrade` command
  unfoldable pub run_upgrade : Action Launcher CommandError Report
  run_upgrade = do
    cfg ← load_settings
    path ← resolve_path
    c ← check_release_now
    complete_upgrade (apply_defaults cfg) c.result.available_version c.result.is_applied
