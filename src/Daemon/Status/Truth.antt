-- ===== src/Daemon/Status/Truth.antt =====
-- What a report of `Status`, internal/daemon/service.go, says of the machine.
use distil_proxy.Base.{◌≡◌, refl, sym, ◌∙◌, Bool, true, false, arith}
use distil_proxy.Base.Int.{ℤ}
use distil_proxy.Base.Text.{codes}
use distil_proxy.Disk.{Disk, FilePath, at, pid_file, not_exist, Result, ok, err}
use distil_proxy.Disk.Exec.{pure, raise, ◌>>=◌, continue, attempt, ignore}
use distil_proxy.Disk.Leaves.{Leaves, Leaves-bind, Leaves-mapping, Leaves-lift, Leaves-read_file}
use distil_proxy.Disk.Success.{run_ok}
use distil_proxy.Daemon.Files.{RuntimeStatus, DaemonError, file_error, read_pid, read_status}
use distil_proxy.Daemon.Process.{Host, System, Control, on_disk, runs_daemon}
use distil_proxy.Daemon.Process.Stop.{IsOurs, IsPidFile, runs_daemon-IsOurs, read_pid-IsPidFile}
use distil_proxy.Daemon.Status.{with_times, timed, stored_status, observed, with_pid, status}

abbrev pub Holds : {A : Type 0} → (A → Type 0) → Result DaemonError A → Type 0
Holds P (ok a) = P a
Holds P (err e) = Unit {0}

-- What an action returns has the property.
record Ensures {A : Type 0} (P : A → Type 0) (m : Control A) : Type 0 where
  holds : (h : Host) → Holds P (m h).0

Ensures-raise : {A : Type 0} {P : A → Type 0} (e : DaemonError) → Ensures P (raise e)
unfolding raise
Ensures-raise e = record { holds = λ h. tt }

Ensures-bind :
    {A B : Type 0} {P : A → Type 0} {Q : B → Type 0} (m : Control A) (f : A → Control B)
    → Ensures P m
    → ((a : A) → P a → Ensures Q (f a))
    → Ensures Q (m >>= f)
unfolding ◌>>=◌ continue
Ensures-bind {A} {B} {P} {Q} m f k next = record { holds = λ h. split (m h) (k.holds h) }
  where
    split : (s : Result DaemonError A × Host) → Holds P s.0 → Holds Q (continue s.0 f s.1).0
    split (ok a, h) k = (next a k).holds h
    split (err e, h) k = tt

module _ (sys : System) where
  -- A report of a running daemon names a process of ours from the PID file; any other says "stopped".
  unfoldable pub IsTrue : Disk → RuntimeStatus → Type 0
  IsTrue d s =
      (s.running ≡ true → IsPidFile sys d s.pid × IsOurs sys s.pid)
      × (s.running ≡ false → s.ws_state ≡ codes "stopped")

  read_status-Leaves : (p : FilePath) → Leaves p (read_status sys.faults sys.json)
  unfolding read_status
  read_status-Leaves p = search (Leaves-bind, Leaves-mapping, Leaves-lift, Leaves-read_file)

  observed-IsTrue :
      (d : Disk) (s : RuntimeStatus) (pid : ℤ) (b : Bool)
      → (b ≡ true → IsPidFile sys d pid × IsOurs sys pid)
      → Ensures (IsTrue d) (observed sys s pid b)
  unfolding observed IsTrue pure ◌>>=◌ continue ignore
  observed-IsTrue d s pid true k = record { holds = λ h. (λ _. k refl, λ e. ground arith) }
  observed-IsTrue d s pid false k = record { holds = λ h. (λ e. ground arith, λ _. refl) }

  runs_daemon-Ensures : (pid : ℤ) → Ensures (λ b. b ≡ true → IsOurs sys pid) (runs_daemon sys pid)
  runs_daemon-Ensures pid = record { holds = λ h. split h (runs_daemon sys pid h) refl }
    where
      split :
          (h : Host) (s : Result DaemonError Bool × Host)
          → runs_daemon sys pid h ≡ s
          → Holds (λ b. b ≡ true → IsOurs sys pid) s.0
      split h (ok true, h') e = λ _. runs_daemon-IsOurs sys pid h h' e
      split h (ok false, h') e = λ k. ground arith
      split h (err x, h') e = tt

  with_pid-IsTrue :
      (d : Disk) (s : RuntimeStatus) (r : Result DaemonError ℤ)
      → Holds (IsPidFile sys d) r
      → Ensures (IsTrue d) (with_pid sys s r)
  unfolding with_pid
  with_pid-IsTrue d s (ok pid) k =
      Ensures-bind _ _ (runs_daemon-Ensures pid)
        (λ b ours. observed-IsTrue d s pid b (λ e. (k, ours e)))
  with_pid-IsTrue d s (err (file_error not_exist)) k =
      unfold IsTrue pure in record { holds = λ h. (λ e. ground arith, λ _. refl) }
  with_pid-IsTrue d s (err e) k = Ensures-raise e

  timed-IsTrue : (d : Disk) (s : RuntimeStatus) → IsTrue d s → Ensures (IsTrue d) (timed s)
  unfolding timed with_times IsTrue
  timed-IsTrue d s k = record { holds = λ h. k }

  -- The part of `Status` behind `readStatus`, on a disk whose PID file is that of `d`.
  read_on :
      (s : RuntimeStatus) (d : Disk) (h : Host)
      → h.disk.files (at pid_file) ≡ d.files (at pid_file)
      → Holds
          (IsTrue d)
          ((attempt (on_disk sys (read_pid sys.faults)) >>= (λ r. with_pid sys s r >>= timed)) h).0
  unfolding ◌>>=◌ continue attempt on_disk
  read_on s d h e =
      (Ensures-bind _ _ (with_pid-IsTrue d s _ (split _ refl)) (λ t k. timed-IsTrue d t k)).holds _
    where
      split :
          (r : Result DaemonError ℤ)
          → (read_pid sys.faults h.disk).0 ≡ r
          → Holds (IsPidFile sys d) r
      split (ok pid) k =
          unfold IsPidFile in
          let (c, f, g) =
            read_pid-IsPidFile sys pid h.disk _ (run_ok (read_pid sys.faults) _ h.disk k) in
          (c, sym e ∙ f, g)
      split (err x) k = tt

  stored_on :
      (r : Result DaemonError RuntimeStatus) (d : Disk) (h : Host)
      → h.disk.files (at pid_file) ≡ d.files (at pid_file)
      → Holds
          (IsTrue d)
          ((stored_status r >>= (λ s.
              attempt (on_disk sys (read_pid sys.faults)) >>= (λ r. with_pid sys s r >>= timed)))
            h).0
  unfolding stored_status
  stored_on (ok s) d h e = unfold ◌>>=◌ continue pure in read_on s d h e
  stored_on (err (file_error not_exist)) d h e = unfold ◌>>=◌ continue pure in read_on _ d h e
  stored_on (err x) d h e = unfold ◌>>=◌ continue raise in tt

  -- Where `Status` gives a report at all: if it says that the daemon runs, then its number is the one in the PID
  -- file, it is above 0, the process was seen to run, and its command to be one of this executable; if not, the
  -- state is "stopped".
  pub status-IsTrue : (h : Host) → Holds (IsTrue h.disk) (status sys h).0
  unfolding status
  status-IsTrue h =
      unfold ◌>>=◌ continue attempt on_disk in
      stored_on _ h.disk (record h { disk = (read_status sys.faults sys.json h.disk).1 })
        ((read_status-Leaves (at pid_file)).kept h.disk)
