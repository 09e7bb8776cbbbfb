-- ===== src/Daemon/Process/Ends.antt =====
-- The polls in the loop of `Stop`, internal/daemon/service.go.
use distil_proxy.Base.{
  ◌≡◌, ◌≢◌, refl, ap, ℕ, zero, suc, ◌+◌, ◌*◌, ◌<◌, ◌≤◌, Bool, true, false, Option, none, some,
  arith, ltb, if◌then◌else◌,
}
use distil_proxy.Base.Int.{ℤ}
use distil_proxy.Base.Text.{Text, trim_space}
use distil_proxy.Base.Text.Decimal.{atoi}
use distil_proxy.Disk.{Disk, IoError, not_exist, Result, ok, err}
use distil_proxy.Disk.Exec.{
  Action, Exec, pure, raise, lift, ◌>>=◌, continue, attempt, ignore, mapping, wrap,
}
use distil_proxy.Daemon.Files.{
  DaemonError, RuntimeStatus, file_error, timed_out, out_of_polls, read_pid, parse_pid, remove_pid,
  or_absent,
}
use distil_proxy.Daemon.Process.{
  Host, System, Control, Signalled, delivered, no_such_process, no_permission, refused, look,
  on_disk, process_running, owned_by, daemon_owns_pid, runs_daemon, write_stopped, mark_stopped,
  forget, after_poll, wait_gone, send_term, signalled, stop_running, stop_error, stop_read, stop,
  stop_poll, stop_timeout,
}
use distil_proxy.Daemon.Process.Quiet.{runs_daemon-Quiet}

-- An action that never uses up the polls.
record Sure {S A : Type 0} (m : Action S DaemonError A) : Type 0 where
  sure : (s : S) → (m s).0 ≢ err out_of_polls

module _ {S A : Type 0} where
  Sure-pure : (a : A) → Sure {S = S} (pure a)
  unfolding pure
  Sure-pure a = record { sure = λ s e. ground arith }

  Sure-if : (b : Bool) (m n : Action S DaemonError A) → Sure m → Sure n → Sure (if b then m else n)
  Sure-if true m n q r = q
  Sure-if false m n q r = r

  Sure-attempt : {E : Type 0} (m : Action S E A) → Sure {A = Result E A} (attempt m)
  unfolding attempt
  Sure-attempt m = record { sure = λ s e. ground arith }

  Sure-ignore : {E : Type 0} (m : Action S E A) → Sure {A = Unit {0}} (ignore m)
  unfolding ignore
  Sure-ignore m = record { sure = λ s e. ground arith }

module _ {S A B : Type 0} where
  Sure-bind :
      (m : Action S DaemonError A) (f : A → Action S DaemonError B)
      → Sure m
      → ((a : A) → Sure (f a))
      → Sure (m >>= f)
  unfolding ◌>>=◌ continue
  Sure-bind m f q r = record { sure = λ s. after (m s) (q.sure s) }
    where
      after :
          (s : Result DaemonError A × S)
          → s.0 ≢ err out_of_polls
          → (continue s.0 f s.1).0 ≢ err out_of_polls
      after (ok a, s) h = (r a).sure s
      after (err x, s) h = λ e. h (ground arith)

module _ (sys : System) where
  Sure-look : {A : Type 0} (f : ℕ → A) → Sure (look sys f)
  unfolding look
  Sure-look f = record { sure = λ s e. ground arith }

  ruleset sure_rules = (Sure-pure, Sure-if, Sure-attempt, Sure-ignore, Sure-bind, Sure-look)

  process_running-Sure : (pid : ℤ) → Sure (process_running sys pid)
  unfolding process_running
  process_running-Sure pid = search sure_rules

  owned_by-Sure : (pid : ℤ) (path : Option Text) → Sure (owned_by sys pid path)
  unfolding owned_by
  owned_by-Sure pid none = Sure-pure false
  owned_by-Sure pid (some path) = search sure_rules

  daemon_owns_pid-Sure : (pid : ℤ) → Sure (daemon_owns_pid sys pid)
  unfolding daemon_owns_pid
  daemon_owns_pid-Sure pid = search (sure_rules, owned_by-Sure)

  runs_daemon-Sure : (pid : ℤ) → Sure (runs_daemon sys pid)
  unfolding runs_daemon
  runs_daemon-Sure pid = search (sure_rules, process_running-Sure, daemon_owns_pid-Sure)

  or_absent-Sure : (r : Result IoError (Unit {0})) → Sure (or_absent sys.faults r)
  unfolding or_absent pure raise
  or_absent-Sure (ok _) = record { sure = λ s e. ground arith }
  or_absent-Sure (err not_exist) = record { sure = λ s e. ground arith }
  or_absent-Sure (err e) = record { sure = λ s e. ground arith }

  remove_pid-Sure : Sure (remove_pid sys.faults)
  unfolding remove_pid
  remove_pid-Sure = search (sure_rules, or_absent-Sure)

  Sure-on_disk : {A : Type 0} (m : Exec DaemonError A) → Sure m → Sure (on_disk sys m)
  unfolding on_disk
  Sure-on_disk m q = record { sure = λ h. q.sure h.disk }

  write_stopped-Sure :
      (pid : ℤ) (state : Text) (status : RuntimeStatus) → Sure (write_stopped sys pid state status)
  unfolding write_stopped ignore
  write_stopped-Sure pid state status = record { sure = λ h e. ground arith }

  mark_stopped-Sure : (pid : ℤ) (state : Text) → Sure (mark_stopped sys pid state)
  unfolding mark_stopped
  mark_stopped-Sure pid state = search (sure_rules, write_stopped-Sure)

  forget-Sure : (pid : ℤ) → Sure (forget sys pid)
  unfolding forget
  forget-Sure pid = search (sure_rules, Sure-on_disk, remove_pid-Sure, mark_stopped-Sure)

  after_poll_ends :
      (pid : ℤ) (deadline : ℕ) (rest : Control (Unit {0})) (still : Bool) (h : Host)
      → (h.clock ≤ deadline
          → (rest (record h { clock = h.clock + stop_poll })).0 ≢ err out_of_polls)
      → (after_poll sys pid deadline rest still h).0 ≢ err out_of_polls
  unfolding after_poll raise
  after_poll_ends pid deadline rest false h next = (forget-Sure pid).sure h
  after_poll_ends pid deadline rest true h next = go (ltb deadline h.clock) refl
    where
      go :
          (b : Bool)
          → ltb deadline h.clock ≡ b
          → (if◌then◌else◌ {A = Result DaemonError (Unit {0}) × Host} b
              (err (timed_out pid), h)
              (rest (record h { clock = h.clock + stop_poll }))).0
            ≢ err out_of_polls
      go true e = λ k. ground arith
      go false e = next (ground arith)

  round_ends :
      (pid : ℤ) (deadline : ℕ) (rest : Control (Unit {0})) (h : Host)
      → ((h1 : Host)
          → h.clock ≤ h1.clock
          → h1.clock ≤ deadline
          → (rest (record h1 { clock = h1.clock + stop_poll })).0 ≢ err out_of_polls)
      → ((runs_daemon sys pid >>= after_poll sys pid deadline rest) h).0 ≢ err out_of_polls
  unfolding ◌>>=◌ continue
  round_ends pid deadline rest h next =
      after (runs_daemon sys pid h) ((runs_daemon-Sure pid).sure h)
        (((runs_daemon-Quiet sys pid).kept h).1)
    where
      after :
          (s : Result DaemonError Bool × Host)
          → s.0 ≢ err out_of_polls
          → h.clock ≤ s.1.clock
          → (continue s.0 (after_poll sys pid deadline rest) s.1).0 ≢ err out_of_polls
      after (ok still, h1) sure le = after_poll_ends pid deadline rest still h1 (next h1 le)
      after (err x, h1) sure le = λ e. sure (ground arith)

  wait_gone_ends :
      (n : ℕ) (pid : ℤ) (deadline : ℕ) (h : Host)
      → deadline + stop_poll < h.clock + suc n * stop_poll
      → (wait_gone sys (suc n) pid deadline h).0 ≢ err out_of_polls
  unfolding wait_gone
  wait_gone_ends zero pid deadline h enough =
      round_ends pid deadline _ h (λ h1 le early. absurd (omega arith))
  wait_gone_ends (suc m) pid deadline h enough =
      round_ends pid deadline _ h (λ h1 le early. wait_gone_ends m pid deadline _ (omega arith))

  signalled_ends :
      (pid : ℤ) (s : Signalled) (h : Host) → (signalled sys pid s h).0 ≢ err out_of_polls
  unfolding signalled raise
  signalled_ends pid delivered h = wait_gone_ends 51 pid (h.clock + stop_timeout) h (omega arith)
  signalled_ends pid no_such_process h = (forget-Sure pid).sure h
  signalled_ends pid no_permission h = λ e. ground arith
  signalled_ends pid (refused _) h = λ e. ground arith

  send_term-Sure : (pid : ℤ) → Sure (send_term sys pid)
  unfolding send_term look
  send_term-Sure pid = record { sure = λ h e. ground arith }

  stop_running-Sure : (pid : ℤ) (b : Bool) → Sure (stop_running sys pid b)
  unfolding stop_running raise
  stop_running-Sure pid true =
      Sure-bind _ _ (send_term-Sure pid) (λ s. record { sure = signalled_ends pid s })
  stop_running-Sure pid false =
      Sure-bind _ _ (forget-Sure pid) (λ _. record { sure = λ h e. ground arith })

  parse_pid-Sure : (o : Option ℤ) → Sure {S = Disk} (lift (parse_pid sys.faults o))
  unfolding parse_pid lift
  parse_pid-Sure none = record { sure = λ d e. ground arith }
  parse_pid-Sure (some pid) = record { sure = λ d e. ground arith }

  Sure-file_error : {A : Type 0} (m : Exec IoError A) → Sure (mapping file_error m)
  unfolding mapping wrap
  Sure-file_error m = record { sure = λ d e. ground arith }

  read_pid-Sure : Sure (read_pid sys.faults)
  unfolding read_pid
  read_pid-Sure = Sure-bind _ _ (Sure-file_error _) (λ c. parse_pid-Sure (atoi (trim_space c)))

  stop_error_sure : (e : DaemonError) → e ≢ out_of_polls → stop_error sys e ≢ out_of_polls
  unfolding stop_error
  stop_error_sure (file_error not_exist) h = λ k. ground arith
  stop_error_sure e h = h

  stop_read_ends :
      (r : Result DaemonError ℤ) (h : Host)
      → r ≢ err out_of_polls
      → (stop_read sys r h).0 ≢ err out_of_polls
  unfolding stop_read raise
  stop_read_ends (err e) h k = λ f. stop_error_sure e (λ g. k (ap err g)) (ground arith)
  stop_read_ends (ok pid) h k =
      (Sure-bind _ _ (runs_daemon-Sure pid) (stop_running-Sure pid)).sure h

  -- The loop of `Stop` ends: as each round takes at least 200 milliseconds, 52 rounds are enough to find the
  -- process gone or the 10 seconds over, whatever the system says.
  pub stop_ends : (h : Host) → (stop sys h).0 ≢ err out_of_polls
  unfolding stop attempt on_disk ◌>>=◌ continue
  stop_ends h = stop_read_ends _ _ (read_pid-Sure.sure h.disk)
