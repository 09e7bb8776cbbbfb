-- ===== src/Daemon/Start.antt =====
-- `Start`, `terminateProcess` and `Restart` of internal/daemon/service.go. What `os.StartProcess` answers is the
-- parameter `spawn_error` with the new process's number.
pub mod Launch
pub mod Again
use distil_proxy.Base.{ℕ, suc, ◌+◌, Bool, true, false, Option, none, some, List, [], ◌∷◌}
use distil_proxy.Base.Int.{ℤ, pos}
use distil_proxy.Base.Text.{Text, codes}
use distil_proxy.Disk.{Disk, IoError, at, log_file, Result, ok, err, open_append}
use distil_proxy.Disk.Exec.{Action, Exec, pure, raise, ◌>>=◌, ◌>>◌, mapping, wrap, ignore}
use distil_proxy.Config.{ensure_state_dirs}
use distil_proxy.Daemon.Files.{
  RuntimeStatus, blank_status, DaemonError, file_error, not_running, write_pid, remove_pid,
  write_status,
}
use distil_proxy.Daemon.Process.{Host, System, Control, look, on_disk, running_pid}
use distil_proxy.Daemon.Process

-- The machine, and the children that this process has started and those that it has killed, the last one
-- first.
pub record Launcher : Type 0 where
  pub host : Host
  pub spawned : List ℤ
  pub killed : List ℤ

pub data StartError : Type 0 where
  already_running : ℤ → StartError
  resolve_executable : StartError
  open_log : IoError → StartError
  start_child : StartError
  process : DaemonError → StartError

abbrev pub Launching : Type 0 → Type 0
Launching A = Action Launcher StartError A

-- `RuntimeStatus{PID: pid, Running: true, WSState: wsState, StartedAt: now, UpdatedAt: now}`
unfoldable pub new_status : ℤ → Text → ℕ → RuntimeStatus
new_status pid ws_state now = record blank_status {
  pid = pid;
  running = true;
  ws_state = ws_state;
  started_at = some (pos now);
  updated_at = some (pos now);
}

-- `proc.Kill` and `proc.Wait`
unfoldable pub terminate_process : ℤ → Launcher → Launcher
terminate_process pid l = record l { killed = pid ∷ l.killed }

abbrev pub started : Option ℤ → Launcher → Result StartError ℤ × Launcher
started none l = (err start_child, l)
started (some pid) l = (ok pid, record l { spawned = pid ∷ l.spawned })

-- `Start` behind a failed `writePID`
unfoldable pub give_up : ℤ → DaemonError → Launching (Unit {0})
give_up pid e l = raise (process e) (terminate_process pid l)

module _ (sys : System) where
  unfoldable pub on_host : {A : Type 0} → Control A → Launching A
  on_host m l = let (r, h) = m l.host in (wrap process r, record l { host = h })

  abbrev pub disk_step : {A : Type 0} → Exec DaemonError A → Launching A
  disk_step m = on_host (on_disk sys m)

  -- `os.OpenFile` of the log
  unfoldable pub open_log_file : Launching (Unit {0})
  open_log_file l =
      let (r, d) = mapping open_log (open_append sys.faults (at log_file)) l.host.disk in
      (r, record l { host = record l.host { disk = d } })

  unfoldable pub recorded : ℤ → Result DaemonError (Unit {0}) → Launching (Unit {0})
  recorded pid (ok u) = pure u
  recorded pid (err e) = do ignore (disk_step (remove_pid sys.faults)); give_up pid e

  -- `writeStatus` of the new daemon
  unfoldable pub record_status : ℤ → Launching (Unit {0})
  record_status pid l =
      let (r, h) =
        on_disk sys
          (write_status sys.faults sys.json (new_status pid (codes "starting") l.host.clock))
          l.host in
      recorded pid r (record l { host = h })

  unfoldable pub numbered : ℤ → Result DaemonError (Unit {0}) → Launching (Unit {0})
  numbered pid (ok _) = record_status pid
  numbered pid (err e) = give_up pid e

  -- `Start` behind `cmd.Start`
  unfoldable pub register : ℤ → Launching (Unit {0})
  register pid l =
      let (r, h) = on_disk sys (write_pid sys.faults pid) l.host in
      numbered pid r (record l { host = h })

module _ (sys : System) (spawn : ℕ → Text → Option ℤ) where
  -- `cmd.Start`
  unfoldable pub start_command : Text → Launching ℤ
  start_command path l = started (spawn l.host.looks path) l

  -- `Start` with the path of the executable
  unfoldable pub start_at : Option Text → Launching (Unit {0})
  start_at none = raise resolve_executable
  start_at (some path) = do open_log_file sys; pid ← start_command path; register sys pid

  unfoldable pub start_unless : Option ℤ → Launching (Unit {0})
  start_unless (some pid) = raise (already_running pid)
  start_unless none = do path ← on_host sys (look sys sys.exec_path); start_at path

  -- `Start`
  unfoldable pub start : Launching (Unit {0})
  start = do
    disk_step sys (mapping file_error (ensure_state_dirs sys.faults))
    running ← on_host sys (running_pid sys)
    start_unless running

  unfoldable pub stopped : Result DaemonError (Unit {0}) → Launching (Unit {0})
  stopped (ok _) = start
  stopped (err not_running) = start
  stopped (err e) = raise (process e)

  -- `Restart`
  unfoldable pub restart : Launching (Unit {0})
  restart l = let (r, h) = Process.stop sys l.host in stopped r (record l { host = h })
