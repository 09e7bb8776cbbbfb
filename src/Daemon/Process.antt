-- ===== src/Daemon/Process.antt =====
-- Whether the daemon runs, and how it is stopped: `Stop` and what it calls in internal/daemon/service.go, with
-- internal/daemon/platform_unix.go. What the system says of processes is the parameter `System`.
pub mod Quiet
pub mod Stop
pub mod Ends
use distil_proxy.Base.{
  ℕ, zero, suc, ◌+◌, Bool, true, false, not, Option, none, some, List, [], ◌∷◌, ltb, if◌then◌else◌,
}
use distil_proxy.Base.Int.{ℤ, pos, leb_ℤ}
use distil_proxy.Base.Text.{Text, codes, is_empty, trim_space}
use distil_proxy.Disk.{Disk, Faults, IoError, not_exist, Result, ok, err}
use distil_proxy.Disk.Exec.{Action, Exec, pure, raise, ◌>>=◌, ◌>>◌, attempt, ignore}
use distil_proxy.Daemon.Command.{FileTree, command_matches_executable}
use distil_proxy.Daemon.Files.{
  RuntimeStatus, blank_status, StatusJson, DaemonError, file_error, not_running, signal_failed,
  timed_out, out_of_polls, read_pid, remove_pid, read_status, write_status,
}

-- The machine: its disk, its clock in milliseconds, how often its processes were looked at, and the processes
-- that were sent SIGTERM, the last one first.
pub record Host : Type 0 where
  pub disk : Disk
  pub clock : ℕ
  pub looks : ℕ
  pub terminated : List ℤ

pub data Signalled : Type 0 where
  delivered no_such_process no_permission : Signalled
  refused : ℕ → Signalled

-- What the n-th look at the processes finds, and how long it takes.
pub record System : Type 0 where
  pub faults : Faults
  pub json : StatusJson
  pub tree : FileTree
  pub signal_zero : ℕ → ℤ → Signalled
  pub signal_term : ℕ → ℤ → Signalled
  pub ps : ℕ → ℤ → Option Text
  pub exec_path : ℕ → Option Text
  pub elapsed : ℕ → ℕ

abbrev pub Control : Type 0 → Type 0
Control A = Action Host DaemonError A

-- `killFunc(pid, sigZero)` succeeds or is not permitted.
unfoldable pub is_running : Signalled → Bool
is_running delivered = true
is_running no_permission = true
is_running _ = false

abbrev pub stop_timeout : ℕ
stop_timeout = 10_000

abbrev pub stop_poll : ℕ
stop_poll = 200

abbrev pub max_polls : ℕ
max_polls = 52

module _ (sys : System) where
  unfoldable pub look : {A : Type 0} → (ℕ → A) → Control A
  look f h =
      (ok (f h.looks), record h { looks = h.looks + 1; clock = h.clock + sys.elapsed h.looks })

  unfoldable pub on_disk : {A : Type 0} → Exec DaemonError A → Control A
  on_disk m h = let (r, d) = m h.disk in (r, record h { disk = d })

  -- `processRunning`
  unfoldable pub process_running : ℤ → Control Bool
  process_running pid =
      if leb_ℤ pid (pos 0) then pure false else look (λ n. is_running (sys.signal_zero n pid))

  -- `processNameByPID`, and the comparison of the command.
  unfoldable pub owns : Text → Option Text → Bool
  owns expected none = false
  owns expected (some output) =
      let name = trim_space output in
      if is_empty name then false else command_matches_executable sys.tree name expected

  unfoldable pub owned_by : ℤ → Option Text → Control Bool
  owned_by pid none = pure false
  owned_by pid (some path) =
      let expected = trim_space path in
      if is_empty expected then pure false else look (λ n. owns expected (sys.ps n pid))

  -- `daemonOwnsPID`
  unfoldable pub daemon_owns_pid : ℤ → Control Bool
  daemon_owns_pid pid =
      if leb_ℤ pid (pos 0) then pure false else (do path ← look sys.exec_path; owned_by pid path)

  abbrev status_or_blank : Result DaemonError RuntimeStatus → RuntimeStatus
  status_or_blank (ok status) = status
  status_or_blank (err _) = blank_status

  unfoldable pub write_stopped : ℤ → Text → RuntimeStatus → Control (Unit {0})
  write_stopped pid ws_state status h =
      ignore
        (on_disk (
          write_status sys.faults sys.json (record status {
            pid = pid;
            running = false;
            ws_state = ws_state;
            updated_at = some (pos h.clock);
          })))
        h

  -- `markStopped`
  unfoldable pub mark_stopped : ℤ → Text → Control (Unit {0})
  mark_stopped pid ws_state = do
    r ← attempt (on_disk (read_status sys.faults sys.json))
    write_stopped pid ws_state (status_or_blank r)

  -- `removePID`, and `markStopped` if it succeeds
  unfoldable pub forget : ℤ → Control (Unit {0})
  forget pid = do on_disk (remove_pid sys.faults); mark_stopped pid (codes "stopped")

  -- `processRunning(pid) && daemonOwnsPID(pid)`
  unfoldable pub runs_daemon : ℤ → Control Bool
  runs_daemon pid = do
    running ← process_running pid
    if running then daemon_owns_pid pid else pure false

  -- The rest of a round of the loop in `Stop`, with the next rounds as `rest`.
  unfoldable pub after_poll : ℤ → ℕ → Control (Unit {0}) → Bool → Control (Unit {0})
  after_poll pid deadline rest still h =
      if not still
      then forget pid h
      else if ltb deadline h.clock
      then raise (timed_out pid) h
      else rest (record h { clock = h.clock + stop_poll })

  -- The loop in `Stop`, of so many rounds at most.
  unfoldable pub wait_gone : ℕ → ℤ → ℕ → Control (Unit {0})
  wait_gone zero pid deadline = raise out_of_polls
  wait_gone (suc polls) pid deadline = do
    still ← runs_daemon pid
    after_poll pid deadline (wait_gone polls pid deadline) still

  -- `killFunc(pid, sigTerm)`
  unfoldable pub send_term : ℤ → Control Signalled
  send_term pid h = look (λ n. sys.signal_term n pid) (record h { terminated = pid ∷ h.terminated })

  unfoldable pub signalled : ℤ → Signalled → Control (Unit {0})
  signalled pid delivered h = wait_gone max_polls pid (h.clock + stop_timeout) h
  signalled pid no_such_process h = forget pid h
  signalled pid no_permission h = raise (signal_failed pid) h
  signalled pid (refused _) h = raise (signal_failed pid) h

  unfoldable pub stop_running : ℤ → Bool → Control (Unit {0})
  stop_running pid true = do s ← send_term pid; signalled pid s
  stop_running pid false = do forget pid; raise not_running

  -- `Stop` without a PID: no file is no daemon.
  unfoldable pub stop_error : DaemonError → DaemonError
  stop_error (file_error not_exist) = not_running
  stop_error e = e

  unfoldable pub stop_read : Result DaemonError ℤ → Control (Unit {0})
  stop_read (err e) = raise (stop_error e)
  stop_read (ok pid) = do still ← runs_daemon pid; stop_running pid still

  -- `Stop`
  unfoldable pub stop : Control (Unit {0})
  stop = do r ← attempt (on_disk (read_pid sys.faults)); stop_read r

  unfoldable pub running_pid_of : ℤ → Bool → Control (Option ℤ)
  running_pid_of pid true = pure (some pid)
  running_pid_of pid false = do ignore (on_disk (remove_pid sys.faults)); pure none

  unfoldable pub running_pid_read : Result DaemonError ℤ → Control (Option ℤ)
  running_pid_read (err _) = pure none
  running_pid_read (ok pid) = do still ← runs_daemon pid; running_pid_of pid still

  -- `runningPID`
  unfoldable pub running_pid : Control (Option ℤ)
  running_pid = do r ← attempt (on_disk (read_pid sys.faults)); running_pid_read r
