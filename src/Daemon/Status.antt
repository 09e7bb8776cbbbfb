-- ===== src/Daemon/Status.antt =====
-- `Status` of internal/daemon/service.go.
pub mod Truth
pub mod Keeps
use distil_proxy.Base.{ℕ, Bool, true, false, Option, none, some}
use distil_proxy.Base.Int.{ℤ, pos, ◌-ℤ◌, quot}
use distil_proxy.Base.Text.{codes}
use distil_proxy.Disk.{not_exist, Result, ok, err}
use distil_proxy.Disk.Exec.{pure, raise, ◌>>=◌, ◌>>◌, attempt, ignore}
use distil_proxy.Daemon.Files.{
  RuntimeStatus, blank_status, DaemonError, file_error, read_pid, remove_pid, read_status,
}
use distil_proxy.Daemon.Process.{Host, System, Control, on_disk, runs_daemon}

-- `int64(time.Since(startedAt).Seconds())`
unfoldable pub seconds_since : ℤ → ℕ → ℤ
seconds_since started_at now = quot (pos now -ℤ started_at) 1000

unfoldable pub uptime : Bool → Option ℤ → ℕ → ℤ → ℤ
unfolding seconds_since
uptime true (some started_at) now old = seconds_since started_at now
uptime _ _ now old = old

unfoldable pub or_now : Option ℤ → ℕ → Option ℤ
or_now (some t) now = some t
or_now none now = some (pos now)

-- The end of `Status`
unfoldable pub with_times : ℕ → RuntimeStatus → RuntimeStatus
with_times now s = record s {
  uptime_seconds = uptime s.running s.started_at now s.uptime_seconds;
  updated_at = or_now s.updated_at now;
}

unfoldable pub timed : RuntimeStatus → Control RuntimeStatus
timed s h = (ok (with_times h.clock s), h)

unfoldable pub stored_status : Result DaemonError RuntimeStatus → Control RuntimeStatus
stored_status (ok s) = pure s
stored_status (err (file_error not_exist)) =
    pure (record blank_status { ws_state = codes "stopped" })
stored_status (err e) = raise e

abbrev pub not_running_status : RuntimeStatus → RuntimeStatus
not_running_status s = record s { running = false; ws_state = codes "stopped" }

module _ (sys : System) where
  unfoldable pub observed : RuntimeStatus → ℤ → Bool → Control RuntimeStatus
  observed s pid true = pure (record s { pid = pid; running = true })
  observed s pid false = do
    ignore (on_disk sys (remove_pid sys.faults))
    pure (not_running_status (record s { pid = pid }))

  -- `Status` behind `readPID`
  unfoldable pub with_pid : RuntimeStatus → Result DaemonError ℤ → Control RuntimeStatus
  with_pid s (ok pid) = do running ← runs_daemon sys pid; observed s pid running
  with_pid s (err (file_error not_exist)) = pure (not_running_status s)
  with_pid s (err e) = raise e

  -- `Status`
  unfoldable pub status : Control RuntimeStatus
  status = do
    stored ← attempt (on_disk sys (read_status sys.faults sys.json))
    s ← stored_status stored
    r ← attempt (on_disk sys (read_pid sys.faults))
    t ← with_pid s r
    timed t
