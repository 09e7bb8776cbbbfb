-- ===== src/Tests/Run.antt =====
-- A run of the daemon as process 77 that connects, serves a job and ends: `Run` of internal/daemon/service.go.
use distil_proxy.Base.{◌≡◌, refl, ℕ, true, false, Option, none, some, List, [], ◌∷◌, arith}
use distil_proxy.Base.Int.{pos}
use distil_proxy.Base.Text.{Text, codes, trim_space, text_eq, has_prefix, to_lower}
use distil_proxy.Base.Text.Decimal.{atoi, print_ℤ}
use distil_proxy.Disk.{ok, read_file, touch, write_file, rename, put, same_path, remove}
use distil_proxy.Config.{
  Config, validate, validate_api_key, is_supported_log_level, is_one_of, ensure_state_dirs,
}
use distil_proxy.Ws.Client.{
  WsError, state_changed, heartbeat_seen, job_result, error_seen, missing_id,
}
use distil_proxy.Ws.Config.{client, new_client, with_defaults}
use distil_proxy.Ws
use distil_proxy.Observability.Metrics.{snapshot}
use distil_proxy.Daemon.Files.{
  write_pid, write_status, read_pid, parse_pid, remove_pid_if_matches, remove_matching, remove_pid,
  or_absent,
}
use distil_proxy.Daemon.Process.{on_disk}
use distil_proxy.Daemon.Start.{new_status}
use distil_proxy.Disk.Exec.{◌>>=◌, continue, attempt, mapping, wrap, lift, pure, raise}
use distil_proxy.Daemon.Runtime.{
  Upgrader, Activity, hook, status_tick, upgrade_check, passes, new_runtime, perform, act,
  check_upgrade, upgrade_checked, update_status, store_status, with_clock, with_snapshot,
}
use distil_proxy.Daemon.Runtime.Counts.{Shows, reports, perform_counts}
use distil_proxy.Daemon.Runtime.View.{view, view_of, perform-view}
use distil_proxy.Daemon.Run.{
  returned, client_config, run_daemon, ClientEnd, late_check, late_passes, late_told, finish_client,
  remove_own, linger, late_step, finish_run, setup, run_set_up, check_startup, started_up,
  run_checked, run_client, close_runtime, mark_clean, shutdown_marked, returned_from, final_status,
}
use distil_proxy.Daemon.Run.Removed.{IsHonest}
use distil_proxy.Daemon.Run.Ends.{IsOver, run_daemon-IsOver}
use distil_proxy.Daemon.Run.Late.{IsApart}
use distil_proxy.Tests.Start.{plain, fresh}

abbrev error_text : WsError → Text
error_text _ = codes "lost"

abbrev replace : ℕ → Text → Option Text
replace _ _ = none

-- An upgrade manager that never finds anything to do.
abbrev idle : Upgrader
idle = record {
  handle_startup = λ d. (ok false, d);
  check_and_upgrade = λ d. (ok false, d);
  mark_clean_shutdown = λ d. (ok tt, d);
}

-- The latest activity first.
abbrev history : List Activity
history =
    hook (error_seen missing_id)
    ∷ hook (job_result true (pos 120))
    ∷ upgrade_check
    ∷ passes 5000
    ∷ hook (heartbeat_seen 9)
    ∷ status_tick
    ∷ hook (state_changed (codes "connected"))
    ∷ []

perform_counts_example :
    let s =
      (perform plain error_text (some idle) history (new_runtime (pos 77) fresh.host)).status in
    (s.pid ≡ pos 77)
    × (s.running ≡ true)
    × (s.started_at ≡ some (pos 0))
    × Shows (reports history) s
unfolding reports text_eq
perform_counts_example =
    perform_counts plain error_text (some idle) history (pos 77) fresh.host tt (omega arith)
      (omega arith)

perform-view_example :
    view_of (perform plain error_text none history (new_runtime (pos 77) fresh.host))
    ≡ view error_text history
perform-view_example = perform-view plain error_text history (pos 77) fresh.host

-- The settings with a key and a server.
abbrev settings : Config
settings = record {
  api_key = codes "dk_1";
  email = [];
  legacy_proxy_key = [];
  server = codes "wss://h/ws";
  timeout_ms = pos 1000;
  log_level = codes "Warn";
  auto_upgrade = true;
  upgrade_check_hours = pos 6;
  auto_upgrade_set = true;
}

settings_ok : validate settings ≡ none
unfolding validate validate_api_key is_supported_log_level is_one_of trim_space to_lower has_prefix
    text_eq
settings_ok = refl

honest : IsHonest plain.faults
honest n f e = ground arith

-- The client ends without an error. A check that is still running tells of a release behind the last status.
abbrev late_end : ClientEnd
late_end = record {
  error = none;
  before_mark = [];
  before_status = late_check ∷ [];
  before_removal = late_passes 5 ∷ [];
  at_end = late_told (ok true) ∷ [];
}

apart : IsApart (some idle)
unfolding IsApart
apart = (record { kept = λ d. refl }, record { kept = λ d. refl })

run_returns :
    (run_daemon plain replace error_text
      (some idle)
      history
      late_end
      settings
      (pos 77)
      fresh.host).0
    ≡ returned none
unfolding run_daemon setup run_set_up check_startup started_up run_checked run_client finish_run
    finish_client remove_own linger late_step close_runtime mark_clean shutdown_marked returned_from
    client_config new_client Ws.Config.validate_api_key new_runtime new_status perform act
    check_upgrade upgrade_checked update_status store_status with_clock with_snapshot final_status
    snapshot on_disk ensure_state_dirs touch write_pid write_status write_file rename put same_path
    read_file read_pid parse_pid remove_pid_if_matches remove_matching remove_pid or_absent remove
    ◌>>=◌ continue attempt mapping wrap lift pure raise trim_space atoi has_prefix print_ℤ
run_returns = refl

run_daemon-IsOver_example :
    IsOver plain late_end
      (pos 77)
      (run_daemon plain replace error_text
        (some idle)
        history
        late_end
        settings
        (pos 77)
        fresh.host).1.host.disk
run_daemon-IsOver_example =
    run_daemon-IsOver plain honest replace error_text (some idle) history late_end settings apart
      (pos 77) fresh.host run_returns
