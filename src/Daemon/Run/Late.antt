-- ===== src/Daemon/Run/Late.antt =====
-- What the upgrade goroutine of `Run`, internal/daemon/service.go, may still do behind the last status.
use distil_proxy.Base.{
  ◌≡◌, refl, ◌∙◌, ◌⊎◌, inl, inr, Bool, true, false, ◌||◌, Option, none, some, List, [], ◌∷◌,
}
use distil_proxy.Base.Text.{Text, codes}
use distil_proxy.Disk.{Disk, at, pid_file, status_file, Result, ok, err, same_path}
use distil_proxy.Disk.Leaves.{Leaves}
use distil_proxy.Disk.Success.{run_ok}
use distil_proxy.Daemon.Files.{RuntimeStatus, write_status}
use distil_proxy.Daemon.Files.Written.{
  IsStatusFile, write_status-Leaves, write_status-IsStatusFile, write_status-IsTried,
}
use distil_proxy.Daemon.Process.{System, on_disk}
use distil_proxy.Daemon.Runtime.{
  Upgrader, Runtime, set_error, set_state, update_status, store_status, upgrade_checked, with_clock,
  with_snapshot,
}
use distil_proxy.Daemon.Run.{LateStep, late_check, late_told, late_passes, late_step, linger}

abbrev pub tells : LateStep → Bool
tells (late_told (ok true)) = true
tells _ = false

-- A check tells of a release that it has applied.
unfoldable pub tells_release : List LateStep → Bool
tells_release [] = false
tells_release (step ∷ steps) = tells step || tells_release steps

-- The daemon does not run any more; it has stopped, or a check has told of a release.
unfoldable pub IsStopped : Bool → RuntimeStatus → Type 0
IsStopped told s =
    (s.running ≡ false)
    × ((s.ws_state ≡ codes "stopped") ⊎ ((told ≡ true) × (s.ws_state ≡ codes "restarting")))

-- A check changes neither the status file nor the PID file.
unfoldable pub IsApart : Option Upgrader → Type 0
IsApart none = Unit
IsApart (some u) =
    Leaves (at status_file) u.check_and_upgrade × Leaves (at pid_file) u.check_and_upgrade

module _ (sys : System) (told : Bool) where
  pub IsStatusFile-moved :
      (d e : Disk) (s : RuntimeStatus)
      → e.files (at status_file) ≡ d.files (at status_file)
      → IsStatusFile sys.json d s
      → IsStatusFile sys.json e s
  unfolding IsStatusFile
  IsStatusFile-moved d e s k (payload, g, h) = (payload, g, k ∙ h)

  -- The status and its file both say so.
  pub record IsClosed (r : Runtime) : Type 0 where
    pub memory : IsStopped told r.status
    pub file : (s : RuntimeStatus) × IsStatusFile sys.json r.host.disk s × IsStopped told s

  -- An action behind the last status
  pub record IsIdle (f : Runtime → Runtime) : Type 0 where
    pub closed : (r : Runtime) → IsClosed r → IsClosed (f r)
    pub pid_kept :
        (r : Runtime) → (f r).host.disk.files (at pid_file) ≡ r.host.disk.files (at pid_file)

  written :
      (s : RuntimeStatus) (d : Disk)
      → IsStopped told s
      → ((s0 : RuntimeStatus) × IsStatusFile sys.json d s0 × IsStopped told s0)
      → (s1 : RuntimeStatus) × IsStatusFile sys.json (write_status sys.faults sys.json s d).1 s1
        × IsStopped told s1
  written s d h (s0, f, k) = split (write_status-IsTried sys.faults sys.json s d)
    where
      split :
          ((write_status sys.faults sys.json s d).0 ≡ ok tt)
            ⊎ ((write_status sys.faults sys.json s d).1.files (at status_file)
                ≡ d.files (at status_file))
          → (s1 : RuntimeStatus) × IsStatusFile sys.json (write_status sys.faults sys.json s d).1 s1
            × IsStopped told s1
      split (inl e) = (
        s,
        write_status-IsStatusFile sys.faults sys.json s d _
            (run_ok (write_status sys.faults sys.json s) (ok tt) d e),
        h,
      )
      split (inr e) = (s0, IsStatusFile-moved d _ s0 e f, k)

  update-IsIdle :
      (f : RuntimeStatus → RuntimeStatus)
      → ((s : RuntimeStatus) → IsStopped told s → IsStopped told (f s))
      → IsIdle (update_status sys f)
  unfolding update_status store_status on_disk with_clock with_snapshot IsStopped same_path
  update-IsIdle f keeps = record {
    closed = λ r c. record {
      memory = keeps r.status c.memory;
      file = written _ r.host.disk (keeps r.status c.memory) c.file;
    };
    pid_kept =
        λ r. (write_status-Leaves sys.faults sys.json (at pid_file) _ refl refl).kept r.host.disk;
  }

  upgrade_checked-IsIdle :
      (result : Result Text Bool)
      → (tells (late_told result) ≡ true → told ≡ true)
      → IsIdle (upgrade_checked sys result)
  unfolding upgrade_checked IsStopped
  upgrade_checked-IsIdle (err e) g =
      let u = update-IsIdle (set_error _) (λ s h. h) in
      record { closed = u.closed; pid_kept = u.pid_kept }
  upgrade_checked-IsIdle (ok false) g = record { closed = λ r c. c; pid_kept = λ r. refl }
  upgrade_checked-IsIdle (ok true) g =
      let u = update-IsIdle (set_state (codes "restarting")) (λ s h. (h.0, inr (g refl, refl))) in
      record {
        closed = λ r c. let d = u.closed r c in record { memory = d.memory; file = d.file };
        pid_kept = u.pid_kept;
      }

  late_step-IsIdle :
      (u : Upgrader) (step : LateStep)
      → (tells step ≡ true → told ≡ true)
      → IsApart (some u)
      → IsIdle (late_step sys u step)
  unfolding late_step IsApart
  late_step-IsIdle u late_check g (s, p) = record {
    closed = λ r c. record {
      memory = c.memory;
      file =
          let (t, f, k) = c.file in
          (t, IsStatusFile-moved r.host.disk _ t (s.kept r.host.disk) f, k);
    };
    pid_kept = λ r. p.kept r.host.disk;
  }
  late_step-IsIdle u (late_told result) g a =
      let t = upgrade_checked-IsIdle result g in record { closed = t.closed; pid_kept = t.pid_kept }
  late_step-IsIdle u (late_passes ms) g a = record {
    closed = λ r c. record { memory = c.memory; file = c.file };
    pid_kept = λ r. refl;
  }

  pub linger-IsIdle :
      (u : Option Upgrader) (steps : List LateStep)
      → (tells_release steps ≡ true → told ≡ true)
      → IsApart u
      → IsIdle (linger sys u steps)
  unfolding linger tells_release
  linger-IsIdle none steps g a = record { closed = λ r c. c; pid_kept = λ r. refl }
  linger-IsIdle (some u) [] g a = record { closed = λ r c. c; pid_kept = λ r. refl }
  linger-IsIdle (some u) (step ∷ steps) g a =
      let now = late_step-IsIdle u step (λ h. g (rw h refl)) a in
      let later = linger-IsIdle (some u) steps (λ h. g (either (tells step) _ h)) a in
      record {
        closed = λ r c. later.closed _ (now.closed r c);
        pid_kept = λ r. later.pid_kept _ ∙ now.pid_kept r;
      }
    where
      either : (a b : Bool) → b ≡ true → (a || b) ≡ true
      either true b h = refl
      either false b h = h
