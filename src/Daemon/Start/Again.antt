-- ===== src/Daemon/Start/Again.antt =====
-- `Start` beside a daemon that runs, and `Restart`: internal/daemon/service.go.
use distil_proxy.Base.{◌≡◌, refl, ℕ, Bool, true, false, Option, none, some, arith, ap, ◌∙◌}
use distil_proxy.Base.Int.{ℤ}
use distil_proxy.Base.Text.{Text}
use distil_proxy.Disk.{Disk, Result, ok, err}
use distil_proxy.Disk.Exec.{pure, raise, ◌>>=◌, continue, mapping, wrap, attempt}
use distil_proxy.Config.{ensure_state_dirs}
use distil_proxy.Daemon.Files.{DaemonError, not_running, read_pid}
use distil_proxy.Daemon.Process.{
  Host, System, Control, on_disk, runs_daemon, running_pid_of, running_pid_read, running_pid,
}
use distil_proxy.Daemon.Process
use distil_proxy.Daemon.Process.Quiet.{running_pid-Quiet}
use distil_proxy.Daemon.Process.Stop.{IsStopFrom, stop-IsStopFrom}
use distil_proxy.Daemon.Start.{
  Launcher, StartError, process, already_running, on_host, start_unless, start, stopped, restart,
}
use distil_proxy.Daemon.Start.Launch.{Past, past, IsLaunch, start-IsLaunch}

module _ (sys : System) (spawn : ℕ → Text → Option ℤ) where
  running_pid_read_lem :
      (pid : ℤ) (h : Host)
      → (runs_daemon sys pid h).0 ≡ ok true
      → (running_pid_read sys (ok pid) h).0 ≡ ok (some pid)
  unfolding running_pid_read ◌>>=◌ continue
  running_pid_read_lem pid h = split (runs_daemon sys pid h)
    where
      split :
          (s : Result DaemonError Bool × Host)
          → s.0 ≡ ok true
          → (continue s.0 (running_pid_of sys pid) s.1).0 ≡ ok (some pid)
      split (ok true, h) e = unfold continue running_pid_of pure in refl
      split (ok false, h) e = ground arith
      split (err x, h) e = ground arith

  running_pid_lem :
      (pid : ℤ) (h : Host)
      → (read_pid sys.faults h.disk).0 ≡ ok pid
      → (runs_daemon sys pid (record h { disk = (read_pid sys.faults h.disk).1 })).0 ≡ ok true
      → (running_pid sys h).0 ≡ ok (some pid)
  unfolding running_pid attempt on_disk ◌>>=◌ continue
  running_pid_lem pid h e o = rw e (running_pid_read_lem pid _ o)

  refused :
      (pid : ℤ) (p : Past) (l : Launcher)
      → past l ≡ p
      → (running_pid sys l.host).0 ≡ ok (some pid)
      → let (t, n) = (on_host sys (running_pid sys) >>= start_unless sys spawn) l in
        (t ≡ err (already_running pid)) × (past n ≡ p)
  unfolding on_host wrap ◌>>=◌ continue
  refused pid p l k e =
      split (running_pid sys l.host) e
        (ap (λ t. record (past l) { terminated = t }) (((running_pid-Quiet sys).kept l.host).0) ∙ k)
    where
      split :
          (s : Result DaemonError (Option ℤ) × Host)
          → s.0 ≡ ok (some pid)
          → past (record l { host = s.1 }) ≡ p
          → let (t, n) =
              continue (wrap process s.0) (start_unless sys spawn) (record l { host = s.1 }) in
            (t ≡ err (already_running pid)) × (past n ≡ p)
      split (ok (some x), h) e k = unfold continue wrap start_unless raise in ground arith
      split (ok none, h) e k = ground arith
      split (err x, h) e k = ground arith

  -- If the directories are there and the PID file names a process that is seen to run a command of this
  -- executable, then `Start` fails as already running with that number, starts and kills no process and
  -- sends no SIGTERM.
  pub start_refuses :
      (pid : ℤ) (l : Launcher) (d : Disk)
      → ensure_state_dirs sys.faults l.host.disk ≡ (ok tt, d)
      → (read_pid sys.faults d).0 ≡ ok pid
      → (runs_daemon sys pid (record l.host { disk = (read_pid sys.faults d).1 })).0 ≡ ok true
      → let (t, n) = start sys spawn l in (t ≡ err (already_running pid)) × (past n ≡ past l)
  unfolding start on_host on_disk mapping wrap ◌>>=◌ continue
  start_refuses pid l d e r o = rw e (
      refused pid (past l) (record l { host = record l.host { disk = d } }) refl
        (running_pid_lem pid (record l.host { disk = d }) r o))

  -- How `Restart` goes on behind the result of `Stop`.
  unfoldable pub IsRestart :
      Past → Result DaemonError (Unit {0}) → Result StartError (Unit {0}) → Launcher → Type 0
  IsRestart p (ok _) r l = IsLaunch sys p r l
  IsRestart p (err not_running) r l = IsLaunch sys p r l
  IsRestart p (err e) r l = (r ≡ err (process e)) × (past l ≡ p)

  stopped-IsRestart :
      (r : Result DaemonError (Unit {0})) (l : Launcher)
      → let (t, n) = stopped sys spawn r l in IsRestart (past l) r t n
  unfolding stopped IsRestart raise
  stopped-IsRestart (ok _) l = start-IsLaunch sys spawn l
  stopped-IsRestart (err not_running) l = start-IsLaunch sys spawn l
  stopped-IsRestart (err e) l = ground arith

  -- `Restart` first does what `Stop` does: it sends SIGTERM to no process, or to one of ours that the PID file
  -- names. If that succeeds or finds no daemon, `Restart` does what `Start` does: it leaves one new child that the
  -- files name, or fails and leaves none. If `Stop` fails otherwise, `Restart` fails with its error and starts
  -- nothing.
  pub restart-IsRestart :
      (l : Launcher)
      → let (r, h) = Process.stop sys l.host in
        let (t, n) = restart sys spawn l in
        IsStopFrom sys l.host h × IsRestart (past (record l { host = h })) r t n
  unfolding restart
  restart-IsRestart l = (stop-IsStopFrom sys l.host, stopped-IsRestart _ _)
