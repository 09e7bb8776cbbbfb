-- ===== src/Daemon/Run.antt =====
-- `Run`, `StartForeground` and `restartProcess` of internal/daemon/service.go. The activities while the client runs,
-- what its `Run` returns, with a panic as an error, and the steps of an upgrade check that is still running then are
-- parameters; so is what `execve` answers.
pub mod Accepts
pub mod Removed
pub mod Late
pub mod Apart
pub mod Ends
pub mod Upgrade
use distil_proxy.Base.{
  ℕ, ◌+◌, ◌*◌, Bool, true, false, not, Option, none, some, List, [], ◌∷◌, ◌++◌, if◌then◌else◌,
}
use distil_proxy.Base.Int.{ℤ, pos, leb_ℤ, wrap64}
use distil_proxy.Base.Text.{Text, codes}
use distil_proxy.Disk.{Faults, Result, ok, err}
use distil_proxy.Disk.Exec.{Exec, ◌>>=◌, ◌>>◌, mapping}
use distil_proxy.Config.{Config, ensure_state_dirs}
use distil_proxy.Fetch.{new_http_executor, default_max_body_bytes}
use distil_proxy.Observability.Logger.{Level, parse_level}
use distil_proxy.Ws.Protocol.{default_protocol_version}
use distil_proxy.Ws.Config.{ClientConfig, ConfigError, NewClient, client, refused, new_client}
use distil_proxy.Ws.Client.{WsError}
use distil_proxy.Daemon.Files.{
  RuntimeStatus, DaemonError, file_error, write_pid, write_status, remove_pid_if_matches,
}
use distil_proxy.Daemon.Process.{Host, System, Control, on_disk, running_pid}
use distil_proxy.Daemon.Runtime.{
  Upgrader, Runtime, Activity, new_runtime, with_clock, set_state, set_error, update_status,
  upgrade_checked, perform,
}

pub data RunError : Type 0 where
  process : DaemonError → RunError
  new_client_error : ConfigError → RunError
  client_failed : Text → RunError
  resolve_executable invalid_log_level : RunError
  restart_error : Text → RunError
  already_running : ℤ → RunError

-- `Run` returns, or another program takes the place of this one.
pub data Outcome : Type 0 where
  returned : Option RunError → Outcome
  replaced : Outcome

pub data Startup : Type 0 where
  ready : Bool → Startup
  rolled_back : Startup

-- A step of the upgrade goroutine, which `Run` does not wait for: `CheckAndUpgrade` ends, what it gave is told of, or
-- time passes. Any result may be told, so there are at least the steps of the program.
pub data LateStep : Type 0 where
  late_check : LateStep
  late_told : Result Text Bool → LateStep
  late_passes : ℕ → LateStep

-- How the client ends: the error of its `Run`, and the steps of the upgrade goroutine that come later, up to the end
-- of the process: before `MarkCleanShutdown`, the last status, the removal of the PID file, and behind all that.
pub record ClientEnd : Type 0 where
  pub error : Option Text
  pub before_mark : List LateStep
  pub before_status : List LateStep
  pub before_removal : List LateStep
  pub at_end : List LateStep

-- The settings that `Run` gives to the client
unfoldable pub client_config : Config → ClientConfig
client_config cfg = record {
  server_url = cfg.server;
  api_key = cfg.api_key;
  protocol_version = default_protocol_version;
  default_timeout_ms = cfg.timeout_ms;
  heartbeat_interval = pos 0;
  initial_reconnect = pos 0;
  max_reconnect_wait = pos 0;
  fetcher = some (new_http_executor (pos default_max_body_bytes));
  job_registry = none;
}

unfoldable pub returned_from : Result DaemonError (Unit {0}) → Outcome
returned_from (ok _) = returned none
returned_from (err e) = returned (some (process e))

-- The last status of a run that ends
unfoldable pub final_status : Runtime → RuntimeStatus
final_status r =
    with_clock r.started r.host.clock
      (record r.status { running = false; ws_state = codes "stopped" })

module _ (sys : System) where
  -- `Run` up to the first status
  unfoldable pub setup : ℤ → Control (Unit {0})
  setup pid h =
      on_disk sys
        (do
          mapping file_error (ensure_state_dirs sys.faults)
          write_pid sys.faults pid
          write_status sys.faults sys.json (new_runtime pid h).status)
        h

  unfoldable pub started_up : Result Text Bool → Runtime → Startup × Runtime
  started_up (err e) r = (
    ready false,
    update_status sys (set_error (codes "auto-upgrade startup check failed: " ++ e)) r,
  )
  started_up (ok true) r = (rolled_back, update_status sys (set_state (codes "restarting")) r)
  started_up (ok false) r = (ready true, r)

  -- The startup check: `startupChecked`, or that the process restarts
  unfoldable pub check_startup : Option Upgrader → Runtime → Startup × Runtime
  check_startup none r = (ready false, r)
  check_startup (some u) r =
      let (result, d) = u.handle_startup r.host.disk in
      started_up result (record r { host = record r.host { disk = d } })

  unfoldable pub shutdown_marked : Result Text (Unit {0}) → Runtime → Runtime
  shutdown_marked (ok _) r = r
  shutdown_marked (err e) r =
      update_status sys (set_error (codes "auto-upgrade shutdown state update failed: " ++ e)) r

  unfoldable pub mark_clean : Option Upgrader → Bool → Runtime → Runtime
  mark_clean (some u) true r =
      let (result, d) = u.mark_clean_shutdown r.host.disk in
      shutdown_marked result (record r { host = record r.host { disk = d } })
  mark_clean _ _ r = r

  unfoldable pub late_step : Upgrader → LateStep → Runtime → Runtime
  late_step u late_check r = record r {
    host = record r.host { disk = (u.check_and_upgrade r.host.disk).1 };
  }
  late_step u (late_told result) r = upgrade_checked sys result r
  late_step u (late_passes ms) r = record r { host = record r.host { clock = r.host.clock + ms } }

  -- The steps in their order; without a manager there is no such goroutine.
  unfoldable pub linger : Option Upgrader → List LateStep → Runtime → Runtime
  linger none steps r = r
  linger (some u) [] r = r
  linger (some u) (step ∷ steps) r = linger (some u) steps (late_step u step r)

  -- `Run` behind the last status
  unfoldable pub remove_own :
      ℤ → Option Upgrader → ClientEnd → Result DaemonError (Unit {0}) → Runtime → Outcome × Runtime
  remove_own pid upgrader end (err e) r =
      (returned (some (process e)), linger upgrader end.at_end r)
  remove_own pid upgrader end (ok _) r =
      let t = linger upgrader end.before_removal r in
      let (result, h) = on_disk sys (remove_pid_if_matches sys.faults pid) t.host in
      (returned_from result, linger upgrader end.at_end (record t { host = h }))

  -- The end of `Run` without an error
  unfoldable pub close_runtime : ℤ → Option Upgrader → ClientEnd → Runtime → Outcome × Runtime
  close_runtime pid upgrader end r =
      let s = final_status r in
      let (result, h) = on_disk sys (write_status sys.faults sys.json s) r.host in
      remove_own pid upgrader end result (record r { host = h; status = s })

  module _ (replace : ℕ → Text → Option Text) where
    unfoldable pub replace_error : Option Text → Outcome
    replace_error none = replaced
    replace_error (some e) = returned (some (restart_error e))

    -- `restartProcess`
    unfoldable pub restart_process : Runtime → Outcome × Runtime
    restart_process r = (
      elim (sys.exec_path r.host.looks) [
        | none ↦ returned (some resolve_executable)
        | some path ↦ replace_error (replace r.host.looks path)
      ],
      r,
    )

    unfoldable pub finish_client :
        ℤ → Option Upgrader → Bool → ClientEnd → Option Text → Runtime → Outcome × Runtime
    finish_client pid upgrader startup_checked end (some e) r = (
      returned (some (client_failed e)),
      linger upgrader end.at_end (update_status sys (set_error e) r),
    )
    finish_client pid upgrader startup_checked end none r =
        close_runtime pid upgrader end
          (linger upgrader end.before_status (mark_clean upgrader startup_checked r))

    -- `Run` behind the client. A restart is asked for by the goroutine's last step.
    unfoldable pub finish_run : ℤ → Option Upgrader → Bool → ClientEnd → Runtime → Outcome × Runtime
    finish_run pid upgrader startup_checked end r =
        if r.is_upgrade_requested
        then restart_process r
        else finish_client pid upgrader startup_checked end end.error
            (linger upgrader end.before_mark r)

    module _ (error_text : WsError → Text) (upgrader : Option Upgrader) (history : List Activity)
        (client_end : ClientEnd) (cfg : Config) where
      unfoldable pub run_client : NewClient → ℤ → Bool → Runtime → Outcome × Runtime
      run_client (refused e) pid startup_checked r = (returned (some (new_client_error e)), r)
      run_client (client _) pid startup_checked r =
          finish_run pid upgrader startup_checked client_end
            (perform sys error_text upgrader history r)

      -- `Run` behind the startup check
      unfoldable pub run_checked : ℤ → Startup → Runtime → Outcome × Runtime
      run_checked pid rolled_back r = restart_process r
      run_checked pid (ready startup_checked) r =
          run_client (new_client (client_config cfg)) pid startup_checked r

      unfoldable pub run_set_up : ℤ → Result DaemonError (Unit {0}) → Runtime → Outcome × Runtime
      run_set_up pid (err e) r = (returned (some (process e)), r)
      run_set_up pid (ok _) r = let (s, t) = check_startup upgrader r in run_checked pid s t

      -- `Run`
      unfoldable pub run_daemon : ℤ → Host → Outcome × Runtime
      run_daemon pid h =
          let (result, h') = setup pid h in
          run_set_up pid result (record (new_runtime pid h) { host = h' })

      unfoldable pub run_logged : Option Level → ℤ → Host → Outcome × Host
      run_logged none pid h = (returned (some invalid_log_level), h)
      run_logged (some level) pid h = let (o, r) = run_daemon pid h in (o, r.host)

      unfoldable pub run_alone : Result DaemonError (Option ℤ) → ℤ → Host → Outcome × Host
      run_alone (err e) pid h = (returned (some (process e)), h)
      run_alone (ok (some other)) pid h = (returned (some (already_running other)), h)
      run_alone (ok none) pid h = run_logged (parse_level cfg.log_level) pid h

      -- `StartForeground`
      unfoldable pub start_foreground : ℤ → Host → Outcome × Host
      start_foreground pid h =
          let (r, h1) =
            (do on_disk sys (mapping file_error (ensure_state_dirs sys.faults)); running_pid sys)
              h in
          run_alone r pid h1
