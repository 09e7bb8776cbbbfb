-- ===== src/Platform/Service.antt =====
-- `InstallServiceDefinition` and `RemoveServiceDefinitions` of internal/platform. What a command answers is the parameter
-- `runs`; the service's file is the place `service_file`.
pub mod Installed
pub mod Gone
use distil_proxy.Base.{ℕ, Bool, true, false, List, [], ◌∷◌, length, if◌then◌else◌}
use distil_proxy.Base.Text.{Text, codes, text_eq}
use distil_proxy.Base.Text.Paths.{join_path}
use distil_proxy.Disk.{
  Disk, Faults, at, service_file, IoError, not_exist, Result, ok, err, write_file, remove, touch,
}
use distil_proxy.Disk.Exec.{
  Action, Exec, pure, raise, lift, ◌>>=◌, ◌>>◌, mapping, wrap, ignore, attempt,
}
use distil_proxy.Platform.Template.{
  launchd_service_path, systemd_service_path, launchd_plist, systemd_user_unit,
}

-- The files, and the commands that were run, the last one first
pub record Machine : Type 0 where
  pub disk : Disk
  pub ran : List (List Text)

pub data ServiceError : Type 0 where
  create_directory write_definition remove_definition : IoError → ServiceError
  load_service daemon_reload enable_service unsupported : ServiceError

abbrev pub Serving : Type 0 → Type 0
Serving A = Action Machine ServiceError A

abbrev pub launchctl : Text → Text → List Text
launchctl action home_dir =
    codes "launchctl" ∷ action ∷ join_path (home_dir ∷ launchd_service_path ∷ []) ∷ []

abbrev pub reload_command : List Text
reload_command = codes "systemctl" ∷ codes "--user" ∷ codes "daemon-reload" ∷ []

abbrev pub enable_command : List Text
enable_command =
    codes "systemctl" ∷ codes "--user" ∷ codes "enable" ∷ codes "--now" ∷ codes "distil-proxy" ∷ []

abbrev pub disable_command : List Text
disable_command =
    codes "systemctl" ∷ codes "--user" ∷ codes "disable" ∷ codes "--now" ∷ codes "distil-proxy" ∷ []

-- Whether the n-th command ends without an error
module _ (faults : Faults) (runs : ℕ → List Text → Bool) (is_print : ℕ → Bool) where
  unfoldable pub on_files : {A : Type 0} → (IoError → ServiceError) → Exec IoError A → Serving A
  on_files e m s = let (r, d) = mapping e m s.disk in (r, record s { disk = d })

  -- `execCommandFunc(…).Run()`
  unfoldable pub run_command : ServiceError → List Text → Serving (Unit {0})
  run_command e command s =
      (if runs (length s.ran) command then ok tt else err e, record s { ran = command ∷ s.ran })

  -- `mkdirAllFunc` and `writeFileFunc`
  unfoldable pub write_service : Text → Serving (Unit {0})
  write_service content = do
    on_files create_directory (touch faults)
    on_files write_definition (write_file faults (at service_file) content)

  unfoldable pub install_launchd : Text → Serving (Unit {0})
  install_launchd home_dir = do
    write_service (launchd_plist home_dir)
    ignore (run_command load_service (launchctl (codes "unload") home_dir))
    run_command load_service (launchctl (codes "load") home_dir)

  unfoldable pub install_systemd : Text → Serving (Unit {0})
  install_systemd home_dir = do
    write_service (systemd_user_unit is_print home_dir)
    run_command daemon_reload reload_command
    run_command enable_service enable_command

  -- `InstallServiceDefinition`, with `platformGOOS`
  unfoldable pub install_service_definition : Text → Text → Serving (Unit {0})
  install_service_definition goos home_dir =
      if text_eq goos (codes "darwin")
      then install_launchd home_dir
      else if text_eq goos (codes "linux")
      then install_systemd home_dir
      else raise unsupported

  unfoldable pub or_absent : Result IoError (Unit {0}) → Serving (Unit {0})
  or_absent (ok _) = pure tt
  or_absent (err not_exist) = pure tt
  or_absent (err e) = raise (remove_definition e)

  -- `removeIfExists`
  unfoldable pub remove_if_exists : Serving (Unit {0})
  remove_if_exists s =
      let (r, d) = remove faults (at service_file) s.disk in or_absent r (record s { disk = d })

  unfoldable pub remove_launchd : Text → Serving (Unit {0})
  remove_launchd home_dir = do
    ignore (run_command load_service (launchctl (codes "unload") home_dir))
    remove_if_exists

  -- The error of the removal is returned behind the last command.
  unfoldable pub after_reload : Result ServiceError (Unit {0}) → Serving (Unit {0})
  after_reload r = do ignore (run_command daemon_reload reload_command); lift r

  unfoldable pub remove_systemd : Serving (Unit {0})
  remove_systemd = do
    ignore (run_command enable_service disable_command)
    r ← attempt remove_if_exists
    after_reload r

  -- `RemoveServiceDefinitions`
  unfoldable pub remove_service_definitions : Text → Text → Serving (Unit {0})
  remove_service_definitions goos home_dir =
      if text_eq goos (codes "darwin")
      then remove_launchd home_dir
      else if text_eq goos (codes "linux")
      then remove_systemd
      else pure tt
