-- ===== src/Daemon/Process/Stop.antt =====
-- What `Stop` of internal/daemon/service.go does: whom it signals, and that its loop ends.
use distil_proxy.Base.{
  ◌≡◌, refl, sym, ap, ◌∙◌, ◌⊎◌, inl, inr, ℕ, zero, suc, ◌+◌, ◌≤◌, Bool, true, false, Option, none,
  some, ◌∷◌, arith, ltb, if◌then◌else◌,
}
use distil_proxy.Base.Int.{ℤ, pos, ◌<ℤ◌}
use distil_proxy.Base.Text.{Text, Bytes, trim_space}
use distil_proxy.Base.Text.Decimal.{atoi}
use distil_proxy.Disk.{Disk, at, pid_file, Result, ok, err}
use distil_proxy.Disk.Exec.{pure, raise, ◌>>=◌, continue, attempt, lift}
use distil_proxy.Disk.Success.{bind_ok, mapping_ok, read_file_ok}
use distil_proxy.Daemon.Files.{
  DaemonError, file_error, not_running, timed_out, out_of_polls, read_pid, parse_pid,
}
use distil_proxy.Daemon.Process.{
  Host, System, Control, Signalled, delivered, no_such_process, no_permission, refused, is_running,
  look, on_disk, process_running, owns, owned_by, daemon_owns_pid, runs_daemon, after_poll,
  wait_gone, send_term, signalled, stop_running, stop_read, stop, max_polls, stop_poll,
  stop_timeout,
}
use distil_proxy.Daemon.Process.Quiet.{
  Quiet, Quiet-raise, Quiet-bind, runs_daemon-Quiet, forget-Quiet,
}

module _ (sys : System) where
  -- A process that was seen to run a command of this executable.
  unfoldable pub IsOurs : ℤ → Type 0
  IsOurs pid =
      (pos 0 <ℤ pid)
      × ((n : ℕ) × (is_running (sys.signal_zero n pid) ≡ true))
      × ((m : ℕ) × (k : ℕ) × (path : Text) × (sys.exec_path m ≡ some path)
          × (owns sys (trim_space path) (sys.ps k pid) ≡ true))

  -- The PID file holds the number.
  unfoldable pub IsPidFile : Disk → ℤ → Type 0
  IsPidFile d pid =
      (c : Bytes) × (d.files (at pid_file) ≡ some c) × (atoi (trim_space c) ≡ some pid)

  process_running-true :
      (pid : ℤ) (h h' : Host)
      → process_running sys pid h ≡ (ok true, h')
      → (pos 0 <ℤ pid) × (is_running (sys.signal_zero h.looks pid) ≡ true)
  unfolding process_running look pure
  process_running-true pid h h' e = ground arith

  owned_by-true :
      (pid : ℤ) (path : Option Text) (h h' : Host)
      → owned_by sys pid path h ≡ (ok true, h')
      → (p : Text) × (path ≡ some p) × (owns sys (trim_space p) (sys.ps h.looks pid) ≡ true)
  unfolding owned_by look pure
  owned_by-true pid none h h' e = ground arith
  owned_by-true pid (some p) h h' e = (p, refl, ground arith)

  look_ok :
      {A : Type 0} (f : ℕ → A) (a : A) (h h' : Host) → look sys f h ≡ (ok a, h') → f h.looks ≡ a
  unfolding look
  look_ok f a h h' e = ground arith

  daemon_owns_pid_true :
      (pid : ℤ) (b : Bool) (h h' : Host)
      → (if b then pure false else (look sys sys.exec_path >>= owned_by sys pid)) h ≡ (ok true, h')
      → (m : ℕ) × (k : ℕ) × (path : Text) × (sys.exec_path m ≡ some path)
        × (owns sys (trim_space path) (sys.ps k pid) ≡ true)
  unfolding pure
  daemon_owns_pid_true pid true h h' e = ground arith
  daemon_owns_pid_true pid false h h' e =
      let (path, h1, e1, e2) = bind_ok _ _ true h h' e in
      let (p, q, o) = owned_by-true pid path h1 h' e2 in
      (h.looks, h1.looks, p, look_ok sys.exec_path path h h1 e1 ∙ q, o)

  owns_pid_true :
      (pid : ℤ) (h h' : Host)
      → daemon_owns_pid sys pid h ≡ (ok true, h')
      → (m : ℕ) × (k : ℕ) × (path : Text) × (sys.exec_path m ≡ some path)
        × (owns sys (trim_space path) (sys.ps k pid) ≡ true)
  unfolding daemon_owns_pid
  owns_pid_true pid h h' e = daemon_owns_pid_true pid _ h h' e

  pub runs_daemon-IsOurs :
      (pid : ℤ) (h h' : Host) → runs_daemon sys pid h ≡ (ok true, h') → IsOurs pid
  unfolding runs_daemon IsOurs pure
  runs_daemon-IsOurs pid h h' e = let (b, h1, e1, e2) = bind_ok _ _ true h h' e in after b h1 e1 e2
    where
      after :
          (b : Bool) (h1 : Host)
          → process_running sys pid h ≡ (ok b, h1)
          → (if b then daemon_owns_pid sys pid else pure false) h1 ≡ (ok true, h')
          → IsOurs pid
      after true h1 e1 e2 =
          let (positive, seen) = process_running-true pid h h1 e1 in
          (positive, (h.looks, seen), owns_pid_true pid h1 h' e2)
      after false h1 e1 e2 = ground arith

  pub read_pid-IsPidFile :
      (pid : ℤ) (d d' : Disk) → read_pid sys.faults d ≡ (ok pid, d') → IsPidFile d pid
  unfolding read_pid IsPidFile lift
  read_pid-IsPidFile pid d d' e =
      let (c, d1, e1, e2) = bind_ok _ _ pid d d' e in
      (
        c,
        read_file_ok sys.faults d d1 (at pid_file) c (mapping_ok file_error _ c d d1 e1),
        parsed (atoi (trim_space c)) (ap (λ s. s.0) e2),
      )
    where
      parsed : (o : Option ℤ) → parse_pid sys.faults o ≡ ok pid → o ≡ some pid
      parsed none h = unfold parse_pid in ground arith
      parsed (some x) h = unfold parse_pid in ground arith

  after_poll-Quiet :
      (pid : ℤ) (deadline : ℕ) (rest : Control (Unit {0})) (still : Bool)
      → Quiet rest
      → Quiet (after_poll sys pid deadline rest still)
  unfolding after_poll raise
  after_poll-Quiet pid deadline rest false q = record { kept = (forget-Quiet sys pid).kept }
  after_poll-Quiet pid deadline rest true q = record {
    kept = λ h.
        let (e, le) = q.kept (record h { clock = h.clock + stop_poll }) in
        go h (ltb deadline h.clock) e le;
  }
    where
      go :
          (h : Host) (b : Bool)
          → let t = (rest (record h { clock = h.clock + stop_poll })).1 in
            t.terminated ≡ h.terminated
            → h.clock + stop_poll ≤ t.clock
            → let u =
                (if◌then◌else◌ {A = Result DaemonError (Unit {0}) × Host} b
                  (err (timed_out pid), h)
                  (rest (record h { clock = h.clock + stop_poll }))).1 in
              (u.terminated ≡ h.terminated) × (h.clock ≤ u.clock)
      go h true e le = (refl, omega arith)
      go h false e le = (e, omega arith)

  wait_gone-Quiet : (polls : ℕ) (pid : ℤ) (deadline : ℕ) → Quiet (wait_gone sys polls pid deadline)
  unfolding wait_gone
  wait_gone-Quiet zero pid deadline = Quiet-raise out_of_polls
  wait_gone-Quiet (suc polls) pid deadline =
      Quiet-bind _ _ (runs_daemon-Quiet sys pid)
        (λ still. after_poll-Quiet pid deadline _ still (wait_gone-Quiet polls pid deadline))

  signalled-Quiet : (pid : ℤ) (s : Signalled) → Quiet (signalled sys pid s)
  unfolding signalled raise
  signalled-Quiet pid delivered = record {
    kept = λ h. (wait_gone-Quiet max_polls pid (h.clock + stop_timeout)).kept h;
  }
  signalled-Quiet pid no_such_process = record { kept = λ h. (forget-Quiet sys pid).kept h }
  signalled-Quiet pid no_permission = record { kept = λ h. (refl, omega arith) }
  signalled-Quiet pid (refused _) = record { kept = λ h. (refl, omega arith) }

  -- Nobody was signalled, or one process of ours whose number is in the PID file.
  unfoldable pub IsStopFrom : Host → Host → Type 0
  IsStopFrom h h' =
      (h'.terminated ≡ h.terminated)
      ⊎ ((pid : ℤ) × (h'.terminated ≡ pid ∷ h.terminated) × IsPidFile h.disk pid × IsOurs pid)

  running_lem :
      (pid : ℤ) (h : Host) → (stop_running sys pid true h).1.terminated ≡ pid ∷ h.terminated
  unfolding stop_running send_term look ◌>>=◌ continue
  running_lem pid h = ((signalled-Quiet pid (sys.signal_term h.looks pid)).kept _).0

  stop_running-Quiet : (pid : ℤ) → Quiet (stop_running sys pid false)
  unfolding stop_running
  stop_running-Quiet pid = Quiet-bind _ _ (forget-Quiet sys pid) (λ _. Quiet-raise not_running)

  stop_read-IsStopFrom :
      (h : Host) (d : Disk) (r : Result DaemonError ℤ)
      → read_pid sys.faults h.disk ≡ (r, d)
      → IsStopFrom h (stop_read sys r (record h { disk = d })).1
  unfolding stop_read IsStopFrom ◌>>=◌ continue raise
  stop_read-IsStopFrom h d (err e) f = inl refl
  stop_read-IsStopFrom h d (ok pid) f = after _ refl
    where
      same :
          (r : Result DaemonError Bool) (h2 : Host)
          → runs_daemon sys pid (record h { disk = d }) ≡ (r, h2)
          → h2.terminated ≡ h.terminated
      same r h2 e =
          sym (ap (λ s. s.1.terminated) e)
          ∙ ((runs_daemon-Quiet sys pid).kept (record h { disk = d })).0

      after :
          (s : Result DaemonError Bool × Host)
          → runs_daemon sys pid (record h { disk = d }) ≡ s
          → IsStopFrom h (continue s.0 (stop_running sys pid) s.1).1
      after (ok true, h2) e = inr (
        pid,
        running_lem pid h2 ∙ ap (λ t. pid ∷ t) (same _ h2 e),
        read_pid-IsPidFile pid h.disk d f,
        runs_daemon-IsOurs pid _ h2 e,
      )
      after (ok false, h2) e = inl (((stop_running-Quiet pid).kept h2).0 ∙ same _ h2 e)
      after (err x, h2) e = inl (same _ h2 e)

  -- `Stop` sends SIGTERM to no process, or to one: its number is above 0 and stands in the PID file, it was
  -- seen to run, and its command to be one of this executable.
  pub stop-IsStopFrom : (h : Host) → IsStopFrom h (stop sys h).1
  unfolding stop attempt on_disk ◌>>=◌ continue
  stop-IsStopFrom h = stop_read-IsStopFrom h _ _ refl
