-- ===== src/Daemon/Process/Quiet.antt =====
-- Actions that send no SIGTERM and do not turn the clock back.
use distil_proxy.Base.{
  ◌≡◌, refl, ◌∙◌, Option, none, some, ℕ, ◌≤◌, Bool, true, false, arith, if◌then◌else◌,
}
use distil_proxy.Base.Int.{ℤ}
use distil_proxy.Base.Text.{Text}
use distil_proxy.Disk.{Result, ok, err}
use distil_proxy.Disk.Exec.{Exec, pure, raise, ◌>>=◌, continue, attempt, ignore}
use distil_proxy.Daemon.Files.{RuntimeStatus, DaemonError}
use distil_proxy.Daemon.Process.{
  Host, System, Control, look, on_disk, process_running, owned_by, daemon_owns_pid, runs_daemon,
  write_stopped, mark_stopped, forget, running_pid_of, running_pid_read, running_pid,
}

pub record Quiet {A : Type 0} (m : Control A) : Type 0 where
  pub kept : (h : Host) → ((m h).1.terminated ≡ h.terminated) × (h.clock ≤ (m h).1.clock)

module _ {A : Type 0} where
  pub Quiet-pure : (a : A) → Quiet (pure a)
  unfolding pure
  Quiet-pure a = record { kept = λ h. (refl, omega arith) }

  pub Quiet-raise : (e : DaemonError) → Quiet {A = A} (raise e)
  unfolding raise
  Quiet-raise e = record { kept = λ h. (refl, omega arith) }

  pub Quiet-if : (b : Bool) (m n : Control A) → Quiet m → Quiet n → Quiet (if b then m else n)
  Quiet-if true m n q r = q
  Quiet-if false m n q r = r

  pub Quiet-attempt : (m : Control A) → Quiet m → Quiet {A = Result DaemonError A} (attempt m)
  unfolding attempt
  Quiet-attempt m q = record { kept = q.kept }

  pub Quiet-ignore : (m : Control A) → Quiet m → Quiet {A = Unit {0}} (ignore m)
  unfolding ignore
  Quiet-ignore m q = record { kept = q.kept }

  pub Quiet-look : (sys : System) (f : ℕ → A) → Quiet (look sys f)
  unfolding look
  Quiet-look sys f = record { kept = λ h. (refl, omega arith) }

  pub Quiet-on_disk : (sys : System) (m : Exec DaemonError A) → Quiet (on_disk sys m)
  unfolding on_disk
  Quiet-on_disk sys m = record { kept = λ h. (refl, omega arith) }

module _ {A B : Type 0} where
  pub Quiet-bind :
      (m : Control A) (f : A → Control B) → Quiet m → ((a : A) → Quiet (f a)) → Quiet (m >>= f)
  unfolding ◌>>=◌ continue
  Quiet-bind m f q r = record { kept = λ h. after (m h) h (q.kept h) }
    where
      after :
          (s : Result DaemonError A × Host) (h : Host)
          → (s.1.terminated ≡ h.terminated) × (h.clock ≤ s.1.clock)
          → let t = (continue s.0 f s.1).1 in (t.terminated ≡ h.terminated) × (h.clock ≤ t.clock)
      after (ok a, h') h (e, le) = let (e', le') = (r a).kept h' in (e' ∙ e, omega arith)
      after (err x, h') h k = k

pub ruleset quiet_rules = (
  Quiet-pure, Quiet-raise, Quiet-if, Quiet-attempt, Quiet-ignore, Quiet-look, Quiet-on_disk,
  Quiet-bind,
)

module _ (sys : System) where
  process_running-Quiet : (pid : ℤ) → Quiet (process_running sys pid)
  unfolding process_running
  process_running-Quiet pid = search quiet_rules

  owned_by-Quiet : (pid : ℤ) (path : Option Text) → Quiet (owned_by sys pid path)
  unfolding owned_by
  owned_by-Quiet pid none = Quiet-pure false
  owned_by-Quiet pid (some path) = search quiet_rules

  daemon_owns_pid-Quiet : (pid : ℤ) → Quiet (daemon_owns_pid sys pid)
  unfolding daemon_owns_pid
  daemon_owns_pid-Quiet pid = search (quiet_rules, owned_by-Quiet)

  pub runs_daemon-Quiet : (pid : ℤ) → Quiet (runs_daemon sys pid)
  unfolding runs_daemon
  runs_daemon-Quiet pid = search (quiet_rules, process_running-Quiet, daemon_owns_pid-Quiet)

  write_stopped-Quiet :
      (pid : ℤ) (state : Text) (status : RuntimeStatus) → Quiet (write_stopped sys pid state status)
  unfolding write_stopped
  write_stopped-Quiet pid state status = record {
    kept = λ h. (Quiet-ignore _ (Quiet-on_disk sys _)).kept h;
  }

  mark_stopped-Quiet : (pid : ℤ) (state : Text) → Quiet (mark_stopped sys pid state)
  unfolding mark_stopped
  mark_stopped-Quiet pid state = search (quiet_rules, write_stopped-Quiet)

  pub forget-Quiet : (pid : ℤ) → Quiet (forget sys pid)
  unfolding forget
  forget-Quiet pid = search (quiet_rules, mark_stopped-Quiet)

  running_pid_of-Quiet : (pid : ℤ) (b : Bool) → Quiet (running_pid_of sys pid b)
  unfolding running_pid_of
  running_pid_of-Quiet pid true = Quiet-pure (some pid)
  running_pid_of-Quiet pid false = search quiet_rules

  running_pid_read-Quiet : (r : Result DaemonError ℤ) → Quiet (running_pid_read sys r)
  unfolding running_pid_read
  running_pid_read-Quiet (err _) = Quiet-pure none
  running_pid_read-Quiet (ok pid) =
      Quiet-bind _ _ (runs_daemon-Quiet pid) (running_pid_of-Quiet pid)

  pub running_pid-Quiet : Quiet (running_pid sys)
  unfolding running_pid
  running_pid-Quiet = search (quiet_rules, running_pid_read-Quiet)
