-- ===== src/Daemon/Run/Apart.antt =====
-- The files that a check of internal/upgrade/manager.go leaves alone, for `Run` of internal/daemon/service.go.
use distil_proxy.Base.{◌≡◌, refl, ◌∙◌, false, true, Bool, some, if◌then◌else◌}
use distil_proxy.Base.Text.{Text}
use distil_proxy.Disk.{
  Disk, Faults, FilePath, at, tmp, pid_file, status_file, binary, temp_binary, backup,
  upgrade_state, Result, ok, err, same_path,
}
use distil_proxy.Disk.Leaves.{
  Leaves, Leaves-pure, Leaves-if, Leaves-bind, Leaves-mapping, Leaves-touch,
}
use distil_proxy.Upgrade.Manager.{
  ManagerConfig, UpgradeError, Checked, Release, ReleaseInfo, needs_upgrade, install, apply_release,
  act_on, check_release, check_and_upgrade, fetch_latest,
}
use distil_proxy.Upgrade.Manager.Keeps.{replace_file-Leaves, file_sha256-Leaves, prepare-Leaves}
use distil_proxy.Daemon.Run.Late.{IsApart}
use distil_proxy.Daemon.Run.Upgrade.{upgrader_of}

module _ (faults : Faults) (net : Release) (cfg : ManagerConfig) (p : FilePath)
    (h1 : same_path (tmp temp_binary) p ≡ false) (h2 : same_path (at temp_binary) p ≡ false)
    (h3 : same_path (tmp backup) p ≡ false) (h4 : same_path (at backup) p ≡ false)
    (h5 : same_path (tmp upgrade_state) p ≡ false) (h6 : same_path (at upgrade_state) p ≡ false)
    (h7 : same_path (at binary) p ≡ false) where
  needs_upgrade-Leaves : (r : ReleaseInfo) → Leaves p (needs_upgrade faults net cfg r)
  unfolding needs_upgrade
  needs_upgrade-Leaves r =
      search (Leaves-pure, Leaves-if, Leaves-bind, Leaves-mapping, file_sha256-Leaves)

  install-Leaves : Leaves p (install faults net cfg)
  unfolding install
  install-Leaves = search (Leaves-bind, Leaves-mapping, Leaves-touch, replace_file-Leaves)

  apply_release-Leaves : (r : ReleaseInfo) → Leaves p (apply_release faults net cfg r)
  unfolding apply_release
  apply_release-Leaves r =
      Leaves-bind p _ _ (prepare-Leaves faults net cfg p r h1 h2 h3 h4 h5 h6) (λ _. install-Leaves)

  act_on-kept :
      (r : ReleaseInfo) (b : Result UpgradeError Bool) (d : Disk)
      → (act_on faults net cfg r b d).1.files p ≡ d.files p
  unfolding act_on
  act_on-kept r (err e) d = refl
  act_on-kept r (ok false) d = refl
  act_on-kept r (ok true) d = either cfg.is_enabled _ _ ((apply_release-Leaves r).kept d) refl
    where
      either :
          (b : Bool) (x y : Checked × Disk)
          → x.1.files p ≡ d.files p
          → y.1.files p ≡ d.files p
          → (if b then x else y).1.files p ≡ d.files p
      either true x y h k = h
      either false x y h k = k

  check_release-kept :
      (r : Result UpgradeError ReleaseInfo) (d : Disk)
      → (check_release faults net cfg r d).1.files p ≡ d.files p
  unfolding check_release
  check_release-kept (err e) d = refl
  check_release-kept (ok r) d = act_on-kept r _ _ ∙ (needs_upgrade-Leaves r).kept d

  check_and_upgrade-kept : (d : Disk) → (check_and_upgrade faults net cfg d).1.files p ≡ d.files p
  unfolding check_and_upgrade
  check_and_upgrade-kept d = check_release-kept (fetch_latest faults net cfg net.latest) d

-- The manager behind the interface leaves the status file and the PID file, whatever fails.
pub upgrader_of-IsApart :
    (faults : Faults) (net : Release) (error_text : UpgradeError → Text) (cfg : ManagerConfig)
    → IsApart (some (upgrader_of faults net error_text cfg))
unfolding IsApart upgrader_of same_path
upgrader_of-IsApart faults net error_text cfg = (
  record {
    kept =
        check_and_upgrade-kept faults net cfg (at status_file) refl refl refl refl refl refl refl;
  },
  record {
    kept = check_and_upgrade-kept faults net cfg (at pid_file) refl refl refl refl refl refl refl;
  },
)
