-- ===== src/Daemon/Status/Keeps.antt =====
-- `Status` of internal/daemon/service.go sends no SIGTERM and does not turn the clock back.
use distil_proxy.Base.{refl, Bool, true, false, arith}
use distil_proxy.Base.Int.{ℤ}
use distil_proxy.Disk.{not_exist, Result, ok, err}
use distil_proxy.Daemon.Files.{RuntimeStatus, DaemonError, file_error}
use distil_proxy.Daemon.Process.{System}
use distil_proxy.Daemon.Process.Quiet.{
  Quiet, Quiet-pure, Quiet-raise, Quiet-bind, quiet_rules, runs_daemon-Quiet,
}
use distil_proxy.Daemon.Status.{stored_status, observed, with_pid, timed, status}

stored_status-Quiet : (r : Result DaemonError RuntimeStatus) → Quiet (stored_status r)
unfolding stored_status
stored_status-Quiet (ok s) = Quiet-pure s
stored_status-Quiet (err (file_error not_exist)) = Quiet-pure _
stored_status-Quiet (err e) = Quiet-raise e

timed-Quiet : (s : RuntimeStatus) → Quiet (timed s)
unfolding timed
timed-Quiet s = record { kept = λ h. (refl, omega arith) }

module _ (sys : System) where
  observed-Quiet : (s : RuntimeStatus) (pid : ℤ) (b : Bool) → Quiet (observed sys s pid b)
  unfolding observed
  observed-Quiet s pid true = Quiet-pure _
  observed-Quiet s pid false = search quiet_rules

  with_pid-Quiet : (s : RuntimeStatus) (r : Result DaemonError ℤ) → Quiet (with_pid sys s r)
  unfolding with_pid
  with_pid-Quiet s (ok pid) = Quiet-bind _ _ (runs_daemon-Quiet sys pid) (observed-Quiet s pid)
  with_pid-Quiet s (err (file_error not_exist)) = Quiet-pure _
  with_pid-Quiet s (err e) = Quiet-raise e

  pub status-Quiet : Quiet (status sys)
  unfolding status
  status-Quiet = search (quiet_rules, stored_status-Quiet, with_pid-Quiet, timed-Quiet) depth 12
