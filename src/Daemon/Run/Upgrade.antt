-- ===== src/Daemon/Run/Upgrade.antt =====
-- `newUpgradeManager` of internal/daemon/service.go: the manager of internal/upgrade/manager.go behind the interface
-- `upgradeManager`. What `%v` prints of its errors is a parameter.
use distil_proxy.Base.{ℕ, ◌+◌, ◌*◌, Bool, Option, none, some, if◌then◌else◌}
use distil_proxy.Base.Int.{ℤ, pos, negsuc, leb_ℤ, wrap64}
use distil_proxy.Base.Text.{Text}
use distil_proxy.Disk.{Faults, Result, ok, err}
use distil_proxy.Disk.Exec.{mapping}
use distil_proxy.Config.{Config}
use distil_proxy.Upgrade.Manager.{
  ManagerConfig, UpgradeError, Release, Checked, new_manager, handle_startup, mark_clean_shutdown,
  check_and_upgrade,
}
use distil_proxy.Daemon.Runtime.{Upgrader}

-- Nanoseconds
abbrev hour : ℕ
hour = 3_600_000_000_000

-- `time.Duration(hours) * time.Hour`
unfoldable pub hours : ℤ → ℤ
hours (pos n) = wrap64 (pos (n * hour))
hours (negsuc n) = wrap64 (negsuc (n * hour + 3_599_999_999_999))

unfoldable pub configured_interval : Config → ℤ
configured_interval cfg =
    let interval = hours cfg.upgrade_check_hours in
    if leb_ℤ interval (pos 0) then hours (pos 6) else interval

-- `newUpgradeManager`, of the settings that the manager's methods read
unfoldable pub new_upgrade_manager : Text → Option Text → Config → Option ManagerConfig
new_upgrade_manager version none cfg = none
new_upgrade_manager version (some exec_path) cfg =
    if cfg.auto_upgrade
    then some (
        new_manager (record {
          is_enabled = cfg.auto_upgrade;
          current_version = version;
          rollback_window = pos 0;
          check_interval = configured_interval cfg;
        }))
    else none

abbrev applied : (UpgradeError → Text) → Checked → Result Text Bool
applied error_text c = elim c.error [ some e ↦ err (error_text e) | none ↦ ok c.result.is_applied ]

module _ (faults : Faults) (net : Release) (error_text : UpgradeError → Text) where
  unfoldable pub upgrader_of : ManagerConfig → Upgrader
  upgrader_of cfg = record {
    handle_startup = mapping error_text (handle_startup faults net cfg);
    check_and_upgrade =
        λ d. let (c, d') = check_and_upgrade faults net cfg d in (applied error_text c, d');
    mark_clean_shutdown = mapping error_text (mark_clean_shutdown faults net cfg);
  }
