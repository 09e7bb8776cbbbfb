-- ===== src/Cli/Commands.antt =====
-- The commands `start`, `stop`, `restart`, `logs` and `__run` of internal/cli/commands.go, and `service` of
-- internal/cli/commands_service.go, on top of the other parts.
pub mod Starts
pub mod Installs
use Prim.Native.Nat.{bit_and}
use distil_proxy.Base.{
  ℕ, ◌%◌, Bool, true, false, not, Option, none, some, List, [], ◌∷◌, ◌==◌, if◌then◌else◌,
}
use distil_proxy.Base.Int.{ℤ, pos, leb_ℤ}
use distil_proxy.Base.Text.{Text, codes}
use distil_proxy.Disk.{Disk, Faults, IoError, not_exist, Result, ok, err}
use distil_proxy.Disk.Exec.{Action, Exec, pure, raise, lift, ◌>>=◌, ◌>>◌, mapping, wrap, attempt}
use distil_proxy.Config.{Config, ConfigError, config_not_found, ConfigJson, ensure_state_dirs, load}
use distil_proxy.Config.Paths.{Paths, detect_paths}
use distil_proxy.Daemon.Files.{DaemonError, not_running}
use distil_proxy.Daemon.Logs.{Chunks, Lines, read_log_tail}
use distil_proxy.Daemon.Process.{Host, System, stop}
use distil_proxy.Daemon.Start.{Launcher, StartError, start, restart}
use distil_proxy.Platform.Service.{
  Machine, ServiceError, Serving, install_service_definition, remove_service_definitions,
}

pub data Failure : Type 0 where
  no_home run_auth_first : Failure
  load_failed : ConfigError → Failure
  start_failed : StartError → Failure
  stop_failed : DaemonError → Failure
  create_dirs stat_binary open_log : IoError → Failure
  binary_missing not_regular not_executable : Failure
  service_failed : ServiceError → Failure

-- What a command prints at its end
pub data Message : Type 0 where
  started stopped restarted is_not_running service_installed service_removed : Message

-- A missing file asks for the `auth` command.
unfoldable pub load_failure : ConfigError → Failure
load_failure config_not_found = run_auth_first
load_failure e = load_failed e

-- What `os.Stat` says of a file
pub record FileInfo : Type 0 where
  pub is_regular : Bool
  pub mode : ℕ

-- `config.DetectPaths` and `config.Load`
unfoldable pub settings : Faults → ConfigJson → Option Text → Exec Failure Config
settings faults json none = raise no_home
settings faults json (some home) = mapping load_failure (load faults json)

module _ (sys : System) (json : ConfigJson) (spawn : ℕ → Text → Option ℤ) where
  unfoldable pub with_settings : Option Text → Action Launcher Failure Config
  with_settings home l =
      let (r, d) = settings sys.faults json home l.host.disk in
      (r, record l { host = record l.host { disk = d } })

  -- The `start` command without `--foreground`
  unfoldable pub start_command : Option Text → Action Launcher Failure Message
  start_command home = do with_settings home; mapping start_failed (start sys spawn); pure started

  -- The `restart` command
  unfoldable pub restart_command : Option Text → Action Launcher Failure Message
  restart_command home = do
    with_settings home
    mapping start_failed (restart sys spawn)
    pure restarted

  unfoldable pub stop_message : Result DaemonError (Unit {0}) → Action Host Failure Message
  stop_message (ok _) = pure stopped
  stop_message (err not_running) = pure is_not_running
  stop_message (err e) = raise (stop_failed e)

  -- The `stop` command
  unfoldable pub stop_command : Option Text → Action Host Failure Message
  stop_command none = raise no_home
  stop_command (some home) = do r ← attempt (stop sys); stop_message r

-- What `logs` prints
pub data LogOutput : Type 0 where
  no_log_file : LogOutput
  log_lines : Lines → LogOutput

-- `daemon.ReadLogTail` opens the file only for a number above 0.
unfoldable pub log_output : ℤ → Result IoError Chunks → Result Failure LogOutput
log_output n (ok file) = ok (log_lines (read_log_tail n file))
log_output n (err not_exist) = ok no_log_file
log_output n (err e) = err (open_log e)

-- The `logs` command
unfoldable pub logs_command : Option Text → ℤ → Result IoError Chunks → Result Failure LogOutput
logs_command none n opened = err no_home
logs_command (some home) n opened =
    if leb_ℤ n (pos 0) then ok (log_lines (Lines.lines [])) else log_output n opened

module _ (faults : Faults) (json : ConfigJson) (runs : ℕ → List Text → Bool) (is_print : ℕ → Bool)
    (stat : Disk → Result IoError FileInfo) (goos : Text) where
  unfoldable pub on_disk : {A : Type 0} → Exec Failure A → Action Machine Failure A
  on_disk m s = let (r, d) = m s.disk in (r, record s { disk = d })

  -- `info.Mode().Perm()&0o111`
  unfoldable pub has_execute_bit : ℕ → Bool
  has_execute_bit mode = not (bit_and (mode % 512) 73 == 0)

  -- The checks of the installed executable
  unfoldable pub check_binary : Result IoError FileInfo → Result Failure (Unit {0})
  check_binary (err not_exist) = err binary_missing
  check_binary (err e) = err (stat_binary e)
  check_binary (ok info) =
      if not info.is_regular
      then err not_regular
      else if not (has_execute_bit info.mode)
      then err not_executable
      else ok tt

  unfoldable pub stat_installed : Action Machine Failure (Unit {0})
  stat_installed s = lift (check_binary (stat s.disk)) s

  unfoldable pub install_for : Text → Action Machine Failure Message
  install_for home_dir = do
    on_disk (mapping create_dirs (ensure_state_dirs faults))
    stat_installed
    mapping service_failed (install_service_definition faults runs is_print goos home_dir)
    pure service_installed

  -- The `service install` command
  unfoldable pub install_command : Option Text → Action Machine Failure Message
  install_command none = raise no_home
  install_command (some home) = do on_disk (settings faults json (some home)); install_for home

  -- The `service uninstall` command
  unfoldable pub remove_command : Option Text → Action Machine Failure Message
  remove_command none = raise no_home
  remove_command (some home) = do
    mapping service_failed (remove_service_definitions faults runs is_print goos home)
    pure service_removed
