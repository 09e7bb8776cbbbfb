-- ===== src/Daemon/Windows/Missed.antt =====
-- What `Stop` of internal/daemon/service.go makes of the answers on Windows.
use mathlib.Core.Path.{subst}
use distil_proxy.Base.{
  ◌≡◌, ◌≢◌, refl, ap, ◌∙◌, inl, inr, ℕ, Bool, true, false, Option, none, some, List, if◌then◌else◌,
  Option-cases, arith,
}
use distil_proxy.Base.Int.{ℤ, pos, leb_ℤ}
use distil_proxy.Daemon.Files.{read_pid}
use distil_proxy.Daemon.Process.{forget}
use distil_proxy.Daemon.Process.Quiet.{runs_daemon-Quiet, forget-Quiet}
use distil_proxy.Disk.{Disk, Result, ok, err}
use distil_proxy.Disk.Exec.{◌>>=◌, continue, pure, raise, attempt}
use distil_proxy.Daemon.Files.{DaemonError, not_running}
use distil_proxy.Daemon.Process.{
  Host, System, owns, owned_by, daemon_owns_pid, process_running, is_running, runs_daemon, look,
  stop, stop_read, stop_running, on_disk,
}
use distil_proxy.Base.Text.{Text, trim_space, is_empty}
use distil_proxy.Daemon.Windows.{Ended, process_lookup_command, printed, on_windows}
use distil_proxy.Daemon.Process.{Signalled}
use distil_proxy.Daemon.Windows.Listed.{IsList, IsForeign, trim_space-IsList, command_missed}

module _ (sys : System)
    (listed : (n : ℕ) (pid : ℤ) (output : Text) → sys.ps n pid ≡ some output → IsList output)
    (foreign : (n : ℕ) (path : Text)
      → sys.exec_path n ≡ some path
      → IsForeign sys.tree (trim_space (trim_space path))) where
  owns_missed :
      (n : ℕ) (pid : ℤ) (path : Text)
      → IsForeign sys.tree (trim_space (trim_space path))
      → owns sys (trim_space path) (sys.ps n pid) ≡ false
  unfolding owns
  owns_missed n pid path f = elim (Option-cases (sys.ps n pid)) [
    | inl e ↦ rw (e) refl
    | inr (output, e) ↦
        let (line, q) = trim_space-IsList sys.tree output (listed n pid output e) in
        rw (e, q) (command_missed sys.tree line (trim_space path) f)
  ]

  owned_missed : (n : ℕ) (pid : ℤ) (h : Host) → (owned_by sys pid (sys.exec_path n) h).0 ≡ ok false
  unfolding owned_by look pure
  owned_missed n pid h = elim (Option-cases (sys.exec_path n)) [
    | inl e ↦ rw (e) refl
    | inr (path, e) ↦ rw (e) (decide path (foreign n path e) (is_empty (trim_space path)))
  ]
    where
      decide :
          (path : Text)
          → IsForeign sys.tree (trim_space (trim_space path))
          → (b : Bool)
          → ((if b then pure false else look sys (λ m. owns sys (trim_space path) (sys.ps m pid)))
              h).0
            ≡ ok false
      decide path f true = refl
      decide path f false = ap ok (owns_missed h.looks pid path f)

  daemon_owns_missed : (pid : ℤ) (h : Host) → (daemon_owns_pid sys pid h).0 ≡ ok false
  unfolding daemon_owns_pid look pure ◌>>=◌ continue
  daemon_owns_missed pid h = decide (leb_ℤ pid (pos 0))
    where
      decide :
          (b : Bool)
          → ((if b then pure false else (do path ← look sys sys.exec_path; owned_by sys pid path))
              h).0
            ≡ ok false
      decide true = refl
      decide false = owned_missed h.looks pid _

  pub runs_daemon_missed : (pid : ℤ) (h : Host) → (runs_daemon sys pid h).0 ≡ ok false
  unfolding runs_daemon process_running look pure ◌>>=◌ continue
  runs_daemon_missed pid h = decide (leb_ℤ pid (pos 0))
    where
      owned :
          (b : Bool) (n : Host)
          → ((if b then daemon_owns_pid sys pid else pure false) n).0 ≡ ok false
      owned true n = daemon_owns_missed pid n
      owned false n = refl

      decide :
          (b : Bool)
          → ((do
            running ← if b then pure false else look sys (λ n. is_running (sys.signal_zero n pid))
            if running then daemon_owns_pid sys pid else pure false)
              h).0
            ≡ ok false
      decide true = refl
      decide false = owned _ _

  -- What `Stop` comes to when no daemon is seen
  unfoldable pub IsMissed : Host → Result DaemonError (Unit {0}) × Host → Type 0
  IsMissed h s = (s.1.terminated ≡ h.terminated) × (s.0 ≢ ok tt)

  pub stop_lem : (h : Host) → IsMissed h (stop sys h)
  unfolding stop stop_read stop_running IsMissed on_disk attempt raise ◌>>=◌ continue
  stop_lem h = after (read_pid sys.faults h.disk)
    where
      raised :
          (s : Result DaemonError (Unit {0}) × Host)
          → s.1.terminated ≡ h.terminated
          → IsMissed h (continue s.0 (λ _. raise {A = Unit {0}} not_running) s.1)
      raised (ok _, n) e = (e, λ q. ground arith)
      raised (err x, n) e = (e, λ q. ground arith)

      forgot :
          (pid : ℤ) (n : Host)
          → n.terminated ≡ h.terminated
          → IsMissed h (stop_running sys pid false n)
      forgot pid n e = raised (forget sys pid n) (((forget-Quiet sys pid).kept n).0 ∙ e)

      seen :
          (pid : ℤ) (s : Result DaemonError Bool × Host)
          → s.0 ≡ ok false
          → s.1.terminated ≡ h.terminated
          → IsMissed h (continue s.0 (stop_running sys pid) s.1)
      seen pid (r, n) p e = rw (p) (forgot pid n e)

      looked : (pid : ℤ) (d : Disk) → IsMissed h (stop_read sys (ok pid) (record h { disk = d }))
      looked pid d =
          seen pid (runs_daemon sys pid (record h { disk = d })) (runs_daemon_missed pid _)
            (((runs_daemon-Quiet sys pid).kept (record h { disk = d })).0)

      after :
          (r : Result DaemonError ℤ × Disk)
          → IsMissed h (stop_read sys r.0 (record h { disk = r.1 }))
      after (err e, d) = (refl, λ q. ground arith)
      after (ok pid, d) = looked pid d

-- Where `wmic` prints the command behind the name of the property, as its list form does, and no path that begins with
-- that name leads to the executable: `Stop` on Windows never sends anything to a process and never succeeds,
-- whatever `tasklist` and `taskkill` answer, also where the daemon runs.
pub stop-IsMissed :
    (runs : ℕ → List Text → Ended) (delivers : ℕ → ℤ → ℕ → Signalled) (sys : System)
    → ((n : ℕ) (pid : ℤ)
        → (runs n (process_lookup_command pid)).error ≡ none
        → IsList (runs n (process_lookup_command pid)).output)
    → ((n : ℕ) (path : Text)
        → sys.exec_path n ≡ some path
        → IsForeign sys.tree (trim_space (trim_space path)))
    → (h : Host)
    → let (r, h') = stop (on_windows runs delivers sys) h in
      (h'.terminated ≡ h.terminated) × (r ≢ ok tt)
unfolding on_windows IsMissed
stop-IsMissed runs delivers sys listed foreign h =
    stop_lem (on_windows runs delivers sys) lists foreign h
  where
    some_injective : (a b : Text) → ◌≡◌ {A = Option Text} (some a) (some b) → a ≡ b
    some_injective a b e = ground arith

    taken :
        (error : Option ℕ) (o output : Text)
        → (error ≡ none → IsList o)
        → ◌≡◌ {A = Option Text} (elim error [ none ↦ some o | some _ ↦ none ]) (some output)
        → IsList output
    taken none o output f e = subst IsList (some_injective o output e) (f refl)
    taken (some x) o output f e = ground arith

    lists :
        (n : ℕ) (pid : ℤ) (output : Text)
        → printed runs (runs n (process_lookup_command pid)) ≡ some output
        → IsList output
    lists n pid output e =
        taken (runs n (process_lookup_command pid)).error
          (runs n (process_lookup_command pid)).output output (listed n pid) e
