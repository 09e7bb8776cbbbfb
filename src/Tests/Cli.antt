-- ===== src/Tests/Cli.antt =====
-- Commands of internal/cli beside a daemon that starts as process 77 and connects at once.
use distil_proxy.Base.{◌≡◌, refl, true, none, some, [], ◌∷◌, arith}
use distil_proxy.Base.Int.{pos}
use distil_proxy.Base.Text.{
  Text, codes, trim_space, text_eq, to_lower, has_prefix, cut_last, equal_fold, trim_slashes,
}
use distil_proxy.Base.Text.Decimal.{atoi, print_ℤ}
use distil_proxy.Disk.{ok, read_file, touch, write_file, rename, put, same_path, open_append}
use distil_proxy.Disk.Exec.{◌>>=◌, continue, attempt, mapping, wrap, lift, ignore, pure, raise}
use distil_proxy.Disk.Success.{run_ok}
use distil_proxy.Config.{
  Config, apply_defaults, validate, validate_api_key, is_supported_log_level, is_one_of,
  ensure_state_dirs, load, loaded, save, store_valid, store, write_config,
}
use distil_proxy.Daemon.Command.{command_matches_executable}
use distil_proxy.Daemon.Files.{
  DaemonError, blank_status, read_pid, parse_pid, write_pid, write_status, read_status,
}
use distil_proxy.Daemon.Process.{
  Host, System, delivered, look, on_disk, process_running, is_running, owns, owned_by,
  daemon_owns_pid, runs_daemon, running_pid, running_pid_read, stop_read, stop_error,
}
use distil_proxy.Daemon.Process
use distil_proxy.Daemon.Start.{
  on_host, open_log_file, start_command, recorded, record_status, numbered, register, start_at,
  start_unless, start, stopped, restart,
}
use distil_proxy.Daemon.Status.{
  status, stored_status, with_pid, observed, timed, with_times, uptime, or_now,
}
use distil_proxy.Cli.Wait.{wait_for_daemon_connected, wait_rounds, after_look, tells_connected}
use distil_proxy.Cli.Wait.Settles.{IsSettled, wait_for_daemon_connected-IsSettled}
use distil_proxy.Cli.Status.{Formats, or_text}
use distil_proxy.Cli.Urls.{UrlCodec, proxy_http_base_url}
use distil_proxy.Cli.Auth.{
  Exchange, replied, blank_config, with_key, save_config, store_key, judge_reply, judge_exchange,
  run_verification_fetch, wait_connected, restart_daemon, verify_fetch, post_auth_finalize,
  stored_key, save_auth_key_with_verification_key,
}
use distil_proxy.Cli.Auth.Stored.{IsStored, store_key-IsStored}
use distil_proxy.Cli.Auth.Verified.{IsSaved, save_auth_key-IsVerified}
use distil_proxy.Tests.Codec.{json, json-IsCodec}
use distil_proxy.Tests.Daemon.{sys, host}
use distil_proxy.Tests.Start.{spawn, fresh}

abbrev pub error_text : DaemonError → Text
error_text _ = codes "lost"

wait_for_daemon_connected-IsSettled_example :
    let (t, h) = wait_for_daemon_connected error_text sys 20_000 500 host in
    IsSettled sys 20_000 t h
wait_for_daemon_connected-IsSettled_example =
    wait_for_daemon_connected-IsSettled sys error_text 20_000 500 host (omega arith)

abbrev pub formats : Formats
formats = record { hostname = λ _. none; rfc3339 = λ _. []; minute = λ _. [] }

abbrev pub keyed : Config
keyed = with_key (codes "dk_1") (codes "a@b") (apply_defaults blank_config)

stores : (store_key sys.faults json (codes "dk_1") (codes "a@b") fresh.host.disk).0 ≡ ok keyed
unfolding store_key save_config save store_valid store write_config load loaded ensure_state_dirs
    read_file touch write_file rename put same_path ◌>>=◌ continue attempt mapping wrap lift pure
    raise with_key apply_defaults validate validate_api_key is_supported_log_level is_one_of
    trim_space to_lower has_prefix text_eq
stores = refl

store_key-IsStored_example :
    IsStored json json-IsCodec sys.faults
      (codes "dk_1")
      (codes "a@b")
      (apply_defaults blank_config)
      (store_key sys.faults json (codes "dk_1") (codes "a@b") fresh.host.disk).1
unfolding load loaded read_file attempt raise ◌>>=◌ continue
store_key-IsStored_example =
    store_key-IsStored json json-IsCodec sys.faults (codes "dk_1") (codes "a@b") keyed
      fresh.host.disk (store_key sys.faults json (codes "dk_1") (codes "a@b") fresh.host.disk).1
      (run_ok (store_key sys.faults json (codes "dk_1") (codes "a@b")) (ok keyed) fresh.host.disk
        stores)
      refl

-- The status file of a daemon that is connected, whatever its content.
abbrev pub live : System
live = record sys {
  json = record {
    encode = λ _. some (1 ∷ []);
    decode = λ _. some (record blank_status { running = true; ws_state = codes "connected" });
  };
  signal_zero = λ _ _. delivered;
}

abbrev pub url : UrlCodec
url = record { parse = λ _. none; print = λ _. []; encode_query = λ _. [] }

abbrev pub send : Text → Text → Exchange
send _ _ = replied (record {
  status = pos 200;
  body = [];
  x_distil = codes "true";
  x_distil_source = codes "daemon";
})

saves_key :
    (save_auth_key_with_verification_key live json spawn error_text url send
      (codes " dk_1 ")
      (codes "a@b")
      []
      fresh).0
    ≡ ok (codes "daemon")
unfolding save_auth_key_with_verification_key stored_key post_auth_finalize restart_daemon
    wait_connected verify_fetch run_verification_fetch judge_exchange judge_reply
    proxy_http_base_url wait_for_daemon_connected wait_rounds after_look tells_connected restart
    stopped Process.stop stop_read stop_error start start_unless start_at open_log_file
    start_command register numbered record_status recorded on_host on_disk look running_pid
    running_pid_read read_pid parse_pid write_pid write_status read_status open_append status
    stored_status with_pid observed timed with_times uptime or_now runs_daemon process_running
    is_running daemon_owns_pid owned_by owns command_matches_executable cut_last print_ℤ atoi
    store_key save_config save store_valid store write_config load loaded ensure_state_dirs
    read_file touch write_file rename put same_path ◌>>=◌ continue attempt mapping wrap lift pure
    raise ignore with_key apply_defaults validate validate_api_key is_supported_log_level is_one_of
    trim_space to_lower has_prefix text_eq equal_fold or_text trim_slashes
saves_key = refl

save_auth_key-IsVerified_example :
    (validate_api_key (trim_space (codes " dk_1 ")) ≡ true)
    × IsSaved live json spawn error_text url send
        (trim_space (codes " dk_1 "))
        (codes "a@b")
        (or_text (trim_space []) (trim_space (codes " dk_1 ")))
        (codes "daemon")
        fresh
        (save_auth_key_with_verification_key live json spawn error_text url send
          (codes " dk_1 ")
          (codes "a@b")
          []
          fresh).1
save_auth_key-IsVerified_example =
    save_auth_key-IsVerified live json spawn error_text url send (codes " dk_1 ") (codes "a@b") []
      (codes "daemon") fresh
      (save_auth_key_with_verification_key live json spawn error_text url send (codes " dk_1 ")
        (codes "a@b") [] fresh).1
      (run_ok
        (save_auth_key_with_verification_key live json spawn error_text url send (codes " dk_1 ")
          (codes "a@b") [])
        (ok (codes "daemon")) fresh saves_key)
