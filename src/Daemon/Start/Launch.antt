-- ===== src/Daemon/Start/Launch.antt =====
-- The child that `Start` of internal/daemon/service.go leaves behind, and its files.
use distil_proxy.Base.{
  ◌≡◌, refl, ap, ◌∙◌, ◌⊎◌, inl, inr, ℕ, Option, none, some, List, [], ◌∷◌, ◌++◌,
}
use distil_proxy.Base.Int.{ℤ}
use distil_proxy.Base.Text.{Text, codes}
use distil_proxy.Base.Text.Decimal.{print_ℤ}
use distil_proxy.Disk.{Disk, at, pid_file, log_file, Result, ok, err, same_path, open_append}
use distil_proxy.Disk.Exec.{pure, raise, ◌>>=◌, continue, wrap, ignore, mapping}
use distil_proxy.Disk.Success.{run_ok}
use distil_proxy.Daemon.Files.{DaemonError, write_pid, write_status}
use distil_proxy.Daemon.Files.RoundTrip.{written}
use distil_proxy.Daemon.Files.Written.{IsStatusFile, write_status-Leaves, write_status-IsStatusFile}
use distil_proxy.Daemon.Process.{Host, System, Control, on_disk}
use distil_proxy.Daemon.Process.Quiet.{Quiet, Quiet-on_disk, Quiet-look, running_pid-Quiet}
use distil_proxy.Daemon.Start.{
  Launcher, StartError, started, Launching, process, new_status, terminate_process, on_host,
  open_log_file, start_command, give_up, recorded, record_status, numbered, register, start_at,
  start_unless, start, open_log,
}

module _ (sys : System) where
  -- The PID file and the status file are those of a new daemon.
  unfoldable pub IsRecorded : ℤ → Disk → Type 0
  IsRecorded pid d =
      (d.files (at pid_file) ≡ some (print_ℤ pid ++ (10 ∷ [])))
      × ((now : ℕ) × IsStatusFile sys.json d (new_status pid (codes "starting") now))

-- What was started, killed and signalled before.
pub record Past : Type 0 where
  pub spawned : List ℤ
  pub killed : List ℤ
  pub terminated : List ℤ

abbrev pub past : Launcher → Past
past l = record { spawned = l.spawned; killed = l.killed; terminated = l.host.terminated }

abbrev pub with_child : ℤ → Past → Past
with_child pid p = record p { spawned = pid ∷ p.spawned }

abbrev pub with_kill : ℤ → Past → Past
with_kill pid p = record p { killed = pid ∷ p.killed }

module _ (sys : System) where
  -- A success leaves one new child, which the files name; a failure leaves none that is not killed. Nobody is
  -- sent SIGTERM.
  unfoldable pub IsLaunch : Past → Result StartError (Unit {0}) → Launcher → Type 0
  IsLaunch p (ok _) l = (pid : ℤ) × (past l ≡ with_child pid p) × IsRecorded sys pid l.host.disk
  IsLaunch p (err _) l = (past l ≡ p) ⊎ ((pid : ℤ) × (past l ≡ with_kill pid (with_child pid p)))

  recorded-IsLaunch :
      (pid : ℤ) (r : Result DaemonError (Unit {0})) (p : Past) (l : Launcher)
      → past l ≡ with_child pid p
      → (r ≡ ok tt → IsRecorded sys pid l.host.disk)
      → let (t, m) = recorded sys pid r l in IsLaunch p t m
  unfolding recorded IsLaunch pure ignore give_up raise terminate_process on_host on_disk ◌>>=◌
      continue wrap
  recorded-IsLaunch pid (ok u) p l e h = (pid, e, h refl)
  recorded-IsLaunch pid (err x) p l e h = inr (pid, ap (with_kill pid) e)

  numbered-IsLaunch :
      (pid : ℤ) (r : Result DaemonError (Unit {0})) (p : Past) (l : Launcher)
      → past l ≡ with_child pid p
      → (r ≡ ok tt → l.host.disk.files (at pid_file) ≡ some (print_ℤ pid ++ (10 ∷ [])))
      → let (t, m) = numbered sys pid r l in IsLaunch p t m
  unfolding numbered IsLaunch give_up raise terminate_process
  numbered-IsLaunch pid (err x) p l e h = inr (pid, ap (with_kill pid) e)
  numbered-IsLaunch pid (ok u) p l e h =
      unfold record_status on_disk in recorded-IsLaunch pid _ p _ e (λ k. after _ k)
    where
      after :
          (now : ℕ)
          → (write_status sys.faults sys.json (new_status pid (codes "starting") now) l.host.disk).0
            ≡ ok tt
          → IsRecorded sys pid
              (write_status sys.faults sys.json
                (new_status pid (codes "starting") now)
                l.host.disk).1
      after now k =
          unfold IsRecorded same_path in
          (
            (write_status-Leaves sys.faults sys.json (at pid_file) _ refl refl).kept l.host.disk
                ∙ h refl,
            (
              now,
              write_status-IsStatusFile sys.faults sys.json _ l.host.disk _ (
                  run_ok (write_status sys.faults sys.json (new_status pid (codes "starting") now))
                    _ _ k),
            ),
          )

  register-IsLaunch :
      (pid : ℤ) (p : Past) (l : Launcher)
      → past l ≡ with_child pid p
      → let (t, m) = register sys pid l in IsLaunch p t m
  unfolding register on_disk
  register-IsLaunch pid p l e =
      numbered-IsLaunch pid _ p _ e
        (λ k. written sys.faults pid l.host.disk _ (run_ok (write_pid sys.faults pid) _ _ k))

  -- A step on the machine in front of the rest.
  IsLaunch-on_host :
      {A : Type 0} (m : Control A) (f : A → Launching (Unit {0})) (p : Past) (l : Launcher)
      → Quiet m
      → past l ≡ p
      → ((a : A) (l' : Launcher) → past l' ≡ p → let (t, n) = f a l' in IsLaunch p t n)
      → let (t, n) = (on_host sys m >>= f) l in IsLaunch p t n
  unfolding on_host wrap ◌>>=◌ continue IsLaunch
  IsLaunch-on_host {A = A} m f p l q e next =
      split (m l.host) (ap (λ t. record (past l) { terminated = t }) ((q.kept l.host).0) ∙ e)
    where
      split :
          (s : Result DaemonError A × Host)
          → past (record l { host = s.1 }) ≡ p
          → let (t, n) = continue (wrap process s.0) f (record l { host = s.1 }) in IsLaunch p t n
      split (ok a, h) k = next a _ k
      split (err x, h) k = inl k

  module _ (spawn : ℕ → Text → Option ℤ) where
    spawned-IsLaunch :
        (path : Text) (p : Past) (l : Launcher)
        → past l ≡ p
        → let (t, n) = (start_command sys spawn path >>= register sys) l in IsLaunch p t n
    unfolding start_command ◌>>=◌ continue
    spawned-IsLaunch path p l e = split (spawn l.host.looks path)
      where
        split :
            (o : Option ℤ)
            → let (r, l') = started o l in
              let (t, n) = continue r (register sys) l' in IsLaunch p t n
        split none = unfold IsLaunch in inl e
        split (some pid) = register-IsLaunch pid p _ (ap (with_child pid) e)

    start_at-IsLaunch :
        (path : Option Text) (p : Past) (l : Launcher)
        → past l ≡ p
        → let (t, n) = start_at sys spawn path l in IsLaunch p t n
    unfolding start_at raise
    start_at-IsLaunch none p l e = unfold IsLaunch in inl e
    start_at-IsLaunch (some path) p l e =
        unfold open_log_file ◌>>=◌ continue in
        split (mapping open_log (open_append sys.faults (at log_file)) l.host.disk)
      where
        split :
            (s : Result StartError (Unit {0}) × Disk)
            → let (t, n) =
                continue s.0
                  (λ _. start_command sys spawn path >>= register sys)
                  (record l { host = record l.host { disk = s.1 } }) in
              IsLaunch p t n
        split (ok u, d) = unfold continue in spawned-IsLaunch path p _ e
        split (err x, d) = unfold continue IsLaunch in inl e

    start_unless-IsLaunch :
        (running : Option ℤ) (p : Past) (l : Launcher)
        → past l ≡ p
        → let (t, n) = start_unless sys spawn running l in IsLaunch p t n
    unfolding start_unless raise
    start_unless-IsLaunch (some pid) p l e = unfold IsLaunch in inl e
    start_unless-IsLaunch none p l e =
        IsLaunch-on_host _ _ p l (Quiet-look sys _) e (λ path. start_at-IsLaunch path p)

    -- `Start` either succeeds: then it has started one new process and killed none, the PID file names that process,
    -- and the status file says that it runs and is starting. Or it fails: then it has started no process, or one
    -- that it has killed. It never sends SIGTERM.
    pub start-IsLaunch : (l : Launcher) → let (t, n) = start sys spawn l in IsLaunch (past l) t n
    unfolding start
    start-IsLaunch l = IsLaunch-on_host _ _ (past l) l (Quiet-on_disk sys _) refl (λ _ l' e.
        IsLaunch-on_host _ _ (past l) l' (running_pid-Quiet sys) e
          (λ running. start_unless-IsLaunch running (past l)))
