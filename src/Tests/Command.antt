-- ===== src/Tests/Command.antt =====
-- The `upgrade` command of internal/cli/commands_upgrade.go, from version 1.0.0 to 1.1.0.
use distil_proxy.Base.{◌≡◌, refl, false, none, some, [], if◌then◌else◌}
use distil_proxy.Base.Text.{
  codes, trim_space, text_eq, to_lower, has_prefix, cut_last, equal_fold, trim_slashes, trim_prefix,
  split,
}
use distil_proxy.Base.Text.Decimal.{atoi, print_ℤ}
use distil_proxy.Disk.{
  at, config_file, binary, ok, read_file, touch, write_file, rename, remove, put, same_path,
  open_append,
}
use distil_proxy.Disk.Exec.{◌>>=◌, continue, attempt, mapping, wrap, lift, ignore, pure, raise}
use distil_proxy.Disk.Success.{run_ok}
use distil_proxy.Config.{
  ConfigJson, end_of_file, apply_defaults, validate, validate_api_key, is_supported_log_level,
  is_one_of, ensure_state_dirs, load, loaded, parse_config, with_decoded, with_trailing,
  with_presence, valid_or_error,
}
use distil_proxy.Daemon.Command.{command_matches_executable}
use distil_proxy.Daemon.Files.{read_pid, parse_pid, write_pid, write_status, read_status}
use distil_proxy.Daemon.Process.{
  Host, System, look, on_disk, process_running, is_running, owns, owned_by, daemon_owns_pid,
  runs_daemon, running_pid, running_pid_read, stop_read, stop_error,
}
use distil_proxy.Daemon.Process
use distil_proxy.Daemon.Start.{
  Launcher, on_host, open_log_file, start_command, recorded, record_status, numbered, register,
  start_at, start_unless, start, stopped, restart,
}
use distil_proxy.Daemon.Status.{
  status, stored_status, with_pid, observed, timed, with_times, uptime, or_now,
}
use distil_proxy.Upgrade.Version.{
  is_newer_version, parse_version, normalize_version, normalize_upgrade_current_version,
}
use distil_proxy.Upgrade.Manager.{
  new_manager, check_and_upgrade, check_release, act_on, fetch_latest, needs_upgrade, apply_release,
  prepare, install, save_download, store_download, file_sha256, verify, copy_file, replace_file,
  retry_replace, mark_upgrade, save_state, applied_of,
}
use distil_proxy.Cli.Wait.{wait_for_daemon_connected, wait_rounds, after_look, tells_connected}
use distil_proxy.Cli.Status.{or_text}
use distil_proxy.Cli.Urls.{proxy_http_base_url}
use distil_proxy.Cli.Auth.{
  judge_reply, judge_exchange, run_verification_fetch, wait_connected, restart_daemon, verify_fetch,
  verify_credential, run_post_upgrade_hook, blank_config,
}
use distil_proxy.Cli.Upgrade.{
  Report, upgraded, manual_config, load_settings, resolve_path, check_release_now, complete_upgrade,
  run_upgrade,
}
use distil_proxy.Cli.Upgrade.Applied.{IsReported, run_upgrade-IsReported}
use distil_proxy.Tests.Cli.{error_text, url, send, live}
use distil_proxy.Tests.Start.{spawn, fresh}
use distil_proxy.Tests.Upgrade.{net}

-- A file with a key and defaults.
abbrev json : ConfigJson
json = record {
  decode = λ _. some (record blank_config { api_key = codes "dk_1" });
  trailing = λ _. end_of_file;
  has_auto_upgrade = λ _. some false;
  encode = λ _. none;
}

abbrev installed : Launcher
installed = record fresh {
  host = record fresh.host {
    disk = record {
      files = λ p.
          if same_path p (at binary)
          then some (codes "o")
          else if same_path p (at config_file)
          then some []
          else none;
      calls = 0;
    };
  };
}

abbrev report : Report
report = upgraded (codes "v1.1.0") (some (codes "daemon"))

upgrades :
    (run_upgrade live json spawn error_text url send net (codes "1.0.0") installed).0 ≡ ok report
unfolding run_upgrade load_settings resolve_path check_release_now complete_upgrade manual_config
    new_manager normalize_upgrade_current_version run_post_upgrade_hook verify_credential
    restart_daemon wait_connected verify_fetch run_verification_fetch judge_exchange judge_reply
    proxy_http_base_url wait_for_daemon_connected wait_rounds after_look tells_connected restart
    stopped Process.stop stop_read stop_error start start_unless start_at open_log_file
    start_command register numbered record_status recorded on_host on_disk look running_pid
    running_pid_read read_pid parse_pid write_pid write_status read_status open_append status
    stored_status with_pid observed timed with_times uptime or_now runs_daemon process_running
    is_running daemon_owns_pid owned_by owns command_matches_executable cut_last print_ℤ atoi load
    loaded parse_config with_decoded with_trailing with_presence valid_or_error ensure_state_dirs
    read_file touch write_file rename remove put same_path ◌>>=◌ continue attempt mapping wrap lift
    pure raise ignore apply_defaults validate validate_api_key is_supported_log_level is_one_of
    trim_space to_lower has_prefix text_eq equal_fold or_text trim_slashes trim_prefix split
    check_and_upgrade check_release act_on fetch_latest needs_upgrade is_newer_version apply_release
    prepare install save_download store_download file_sha256 verify copy_file replace_file
    retry_replace mark_upgrade save_state applied_of parse_version normalize_version
upgrades = refl

run_upgrade-IsReported_example :
    IsReported live json spawn error_text url send net
      (codes "1.0.0")
      report
      installed
      (run_upgrade live json spawn error_text url send net (codes "1.0.0") installed).1
run_upgrade-IsReported_example =
    run_upgrade-IsReported live json spawn error_text url send net (codes "1.0.0") report installed
      (run_upgrade live json spawn error_text url send net (codes "1.0.0") installed).1
      (run_ok (run_upgrade live json spawn error_text url send net (codes "1.0.0")) (ok report)
        installed upgrades)
