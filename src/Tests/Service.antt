-- ===== src/Tests/Service.antt =====
-- The service of internal/platform, and the commands that install it, start the daemon and remove everything.
use distil_proxy.Base.{
  if◌then◌else◌, ◌≡◌, ◌≢◌, refl, Bool, true, false, not, Option, none, some, List, [], ◌∷◌, ◌++◌, ℕ,
  arith,
}
use distil_proxy.Base.Text.{Text, codes, text_eq, trim_space, cut_last, to_lower, has_prefix}
use distil_proxy.Base.Text.Decimal.{atoi}
use distil_proxy.Disk.{
  Disk, FilePath, IoError, Result, at, service_file, config_file, same_path, ok, read_file,
  write_file, remove, rename, touch, put, open_append,
}
use distil_proxy.Disk.Exec.{◌>>=◌, continue, attempt, mapping, wrap, lift, ignore, pure, raise}
use distil_proxy.Config.Paths.{default_paths, detect_paths}
use distil_proxy.Config.Paths.Layout.{settings, log, path_of, name_of, paths_apart}
use distil_proxy.Platform.Service.{
  Machine, install_service_definition, install_systemd, write_service, run_command, on_files,
  remove_service_definitions, remove_systemd, remove_if_exists, after_reload,
}
use distil_proxy.Platform.Service
use distil_proxy.Platform.Service.Installed.{IsInstall, install_service_definition-IsInstall}
use distil_proxy.Cli.Auth.{with_key}
use distil_proxy.Tests.Cli.{keyed}
use distil_proxy.Config.{
  ConfigJson, with_decoded, with_trailing, with_presence, valid_or_error, apply_defaults, validate,
  validate_api_key, is_supported_log_level, is_one_of, ensure_state_dirs, load, loaded,
  parse_config,
}
use distil_proxy.Cli.Commands.{
  FileInfo, start_command, install_command, install_for, stat_installed, check_binary,
  has_execute_bit, service_installed, started, load_failed,
}
use distil_proxy.Cli.Commands
use distil_proxy.Cli.Commands.Starts.{IsStarted, start_command-IsStarted}
use distil_proxy.Cli.Commands.Installs.{IsInstalling, install_command-IsInstalling}
use distil_proxy.Cli.Uninstall.{
  Link, global_link, local_link, Entry, symlink, occupied, Desk, uninstall, uninstall_at,
  after_stop, clear_files, remove_found, remove_symlink_if_present, lstat, unlink, same_link,
  remove_all, on_host, on_machine,
}
use distil_proxy.Cli.Uninstall.Removed.{IsUninstall, uninstall-IsUninstall}
use distil_proxy.Daemon.Run.Removed.{IsHonest}
use distil_proxy.Daemon.Start.{
  Launcher, start, start_unless, start_at, open_log_file, register, numbered, record_status,
  recorded,
}
use distil_proxy.Daemon.Start
use distil_proxy.Daemon.Command.{command_matches_executable}
use distil_proxy.Daemon.Files.{
  read_pid, write_pid, parse_pid, remove_pid, or_absent, read_status, write_status,
}
use distil_proxy.Daemon.Process.{
  is_running, look, on_disk, process_running, owns, owned_by, daemon_owns_pid, runs_daemon,
  write_stopped, mark_stopped, forget, after_poll, wait_gone, send_term, signalled, stop_running,
  stop_read, stop, running_pid, running_pid_read,
}
use distil_proxy.Base.Int.{pos}
use distil_proxy.Ws.Client.{WsError}
use distil_proxy.Observability.Logger.{parse_level}
use distil_proxy.Daemon.Run.{ClientEnd, run_logged, start_foreground}
use distil_proxy.Cli.Foreground.{runtime_command, foreground_command}
use distil_proxy.Cli.Foreground.Settled.{IsSettled, foreground_commands-IsSettled}
use distil_proxy.Tests.Codec.{json}
use distil_proxy.Tests.Daemon.{sys, host}
use distil_proxy.Tests.Start.{plain, spawn, fresh}

abbrev home : Text
home = codes "/home/a"

paths_apart_example :
    (path_of (default_paths home) settings ≡ (default_paths home).root_dir ++ name_of settings)
    × (path_of (default_paths home) settings ≢ path_of (default_paths home) log)
paths_apart_example = paths_apart (codes "home/a") settings log (λ h. ground arith)

abbrev runs : ℕ → List Text → Bool
runs _ _ = true

abbrev is_print : ℕ → Bool
is_print _ = true

-- A disk with settings
abbrev set_up : Disk
set_up = record { files = λ p. if same_path p (at config_file) then some [] else none; calls = 0 }

-- Whatever the file holds, it is read as these settings.
abbrev simple : ConfigJson
simple = record json { decode = λ _. some keyed }

abbrev machine : Machine
machine = record { disk = set_up; ran = [] }

install_service_definition-IsInstall_example :
    IsInstall plain.faults runs is_print
      (codes "linux")
      home
      machine
      (install_service_definition plain.faults runs is_print (codes "linux") home machine)
install_service_definition-IsInstall_example =
    install_service_definition-IsInstall plain.faults runs is_print (codes "linux") home machine

abbrev stat : Disk → Result IoError FileInfo
stat _ = ok (record { is_regular = true; mode = 493 })

install_command-IsInstalling_example :
    let (r, m') =
      install_command plain.faults simple runs is_print stat (codes "linux") (some home) machine in
    IsInstalling plain.faults simple runs is_print stat (codes "linux") (some home) machine r m'
install_command-IsInstalling_example =
    install_command-IsInstalling plain.faults simple runs is_print stat (codes "linux") (some home)
      machine

abbrev ready : Launcher
ready = record fresh { host = record fresh.host { disk = set_up } }

start_command-IsStarted_example :
    let (r, l') = start_command plain simple spawn (some home) ready in
    IsStarted plain simple spawn (some home) ready r l'
start_command-IsStarted_example = start_command-IsStarted plain simple spawn (some home) ready

abbrev in_root : FilePath → Bool
in_root p = not (same_path p (at service_file))

abbrev links : Link → Entry
links global_link = symlink
links local_link = occupied

abbrev desk : Desk
desk = record { host = host; ran = []; links = links }

honest : IsHonest sys.faults
honest n f e = ground arith

uninstall-IsUninstall_example :
    IsUninstall sys runs is_print in_root
      (λ _ _. false)
      honest
      (codes "linux")
      (some home)
      desk
      (uninstall sys runs is_print in_root (λ _ _. false) (codes "linux") (some home) desk)
uninstall-IsUninstall_example =
    uninstall-IsUninstall sys runs is_print in_root (λ _ _. false) honest (codes "linux")
      (some home) desk

-- The daemon is stopped, the link goes, the other file stays.
uninstalls :
    let (r, s) =
      uninstall sys runs is_print in_root (λ _ _. false) (codes "linux") (some home) desk in
    (r ≡ ok tt) × (s.host.terminated ≡ pos 42 ∷ []) × (s.links local_link ≡ occupied)
unfolding uninstall uninstall_at detect_paths after_stop clear_files remove_found
    remove_symlink_if_present lstat unlink same_link remove_all on_host on_machine
    remove_service_definitions remove_systemd remove_if_exists Service.or_absent after_reload
    run_command stop stop_read stop_running send_term signalled wait_gone after_poll runs_daemon
    daemon_owns_pid owned_by owns process_running is_running look on_disk forget mark_stopped
    write_stopped ◌>>=◌ continue attempt mapping wrap lift ignore pure raise read_pid parse_pid
    remove_pid or_absent read_status read_file remove same_path atoi trim_space
    command_matches_executable cut_last text_eq write_status ensure_state_dirs touch
uninstalls = (refl, refl, refl)

installs :
    (install_command plain.faults simple runs is_print stat (codes "linux") (some home) machine).0
    ≡ ok service_installed
unfolding install_command install_for stat_installed check_binary has_execute_bit Commands.on_disk
    Commands.settings install_service_definition install_systemd write_service run_command on_files
    with_decoded with_trailing with_presence valid_or_error parse_config load loaded
    ensure_state_dirs read_file touch write_file rename put same_path ◌>>=◌ continue attempt mapping
    wrap lift pure raise with_key apply_defaults validate validate_api_key is_supported_log_level
    is_one_of trim_space to_lower has_prefix text_eq
installs = refl

starts : (start_command plain simple spawn (some home) ready).0 ≡ ok started
unfolding start_command Commands.with_settings Commands.settings with_decoded with_trailing
    with_presence valid_or_error parse_config load loaded start start_unless start_at open_log_file
    Start.start_command register numbered record_status recorded Start.on_host on_disk look
    running_pid running_pid_read ◌>>=◌ continue attempt mapping wrap lift ignore pure raise read_pid
    write_pid write_status read_file write_file rename touch put open_append ensure_state_dirs
    same_path with_key apply_defaults validate validate_api_key is_supported_log_level is_one_of
    trim_space to_lower has_prefix text_eq
starts = refl

abbrev replace : ℕ → Text → Option Text
replace _ _ = none

abbrev error_text : WsError → Text
error_text _ = []

abbrev quiet_end : ClientEnd
quiet_end = record {
  error = none;
  before_mark = [];
  before_status = [];
  before_removal = [];
  at_end = [];
}

foreground_commands-IsSettled_example :
    IsSettled plain replace error_text none [] quiet_end
      (mapping load_failed (load plain.faults simple) ready.host.disk)
      (λ c n.
        run_logged plain replace error_text none [] quiet_end c
          (parse_level c.log_level)
          (pos 77)
          n)
      ready.host
      (runtime_command plain simple replace error_text none [] quiet_end
        (pos 77)
        (some home)
        ready.host)
    × IsSettled plain replace error_text none [] quiet_end
        (Commands.settings plain.faults simple (some home) ready.host.disk)
        (λ c n. start_foreground plain replace error_text none [] quiet_end c (pos 77) n)
        ready.host
        (foreground_command plain simple replace error_text none [] quiet_end
          (pos 77)
          (some home)
          ready.host)
foreground_commands-IsSettled_example =
    foreground_commands-IsSettled plain replace error_text none [] quiet_end simple (pos 77) home
      ready.host
