-- ===== src/Daemon/Files/RoundTrip.antt =====
-- The PID file: `readPID` after `writePID`, in internal/daemon/service.go.
use distil_proxy.Base.{◌≡◌, refl, ap, none, some, [], ◌∷◌, ◌++◌}
use distil_proxy.Base.Int.{ℤ, IsInt64}
use distil_proxy.Base.Text.{trim_space, is_space}
use distil_proxy.Base.Text.Trim.{trim_space-line}
use distil_proxy.Base.Text.Decimal.{print_ℤ, atoi}
use distil_proxy.Base.Text.Decimal.RoundTrip.{atoi-print, print_ℤ-IsBlack, print_ℤ-ne-nil}
use distil_proxy.Disk.{Disk, Faults, at, pid_file, ok, read_file, same_path}
use distil_proxy.Disk.Exec.{◌>>=◌, continue, mapping, wrap, lift}
use distil_proxy.Disk.Success.{bind_ok, mapping_ok, write_file_ok}
use distil_proxy.Daemon.Files.{file_error, write_pid, read_pid, parse_pid}

module _ (faults : Faults) where
  pid_text : (pid : ℤ) → IsInt64 pid → atoi (trim_space (print_ℤ pid ++ (10 ∷ []))) ≡ some pid
  unfolding is_space
  pid_text pid h =
      rw (trim_space-line (print_ℤ pid) 10 (print_ℤ-IsBlack pid) (print_ℤ-ne-nil pid) refl)
        (atoi-print pid h)

  pub written :
      (pid : ℤ) (d d' : Disk)
      → write_pid faults pid d ≡ (ok tt, d')
      → d'.files (at pid_file) ≡ some (print_ℤ pid ++ (10 ∷ []))
  unfolding write_pid same_path
  written pid d d' e =
      let (_, d1, e1, e2) = bind_ok _ _ tt d d' e in
      write_file_ok faults d1 d' (at pid_file) _ refl (mapping_ok file_error _ tt d1 d' e2)

  read_back :
      (pid : ℤ) (d : Disk)
      → IsInt64 pid
      → d.files (at pid_file) ≡ some (print_ℤ pid ++ (10 ∷ []))
      → faults d.calls ≡ none
      → (read_pid faults d).0 ≡ ok pid
  unfolding read_pid read_file ◌>>=◌ continue mapping wrap lift
  read_back pid d int h f =
      rw (f, read_file, h, read_file, pid_text pid int) (unfold parse_pid in refl)

  -- If a number is written to the PID file without an error, and the file can be read, then that number is
  -- read back.
  pub read_pid-write_pid :
      (pid : ℤ) (d : Disk)
      → IsInt64 pid
      → (write_pid faults pid d).0 ≡ ok tt
      → faults (write_pid faults pid d).1.calls ≡ none
      → (read_pid faults (write_pid faults pid d).1).0 ≡ ok pid
  read_pid-write_pid pid d int h f = read_back pid _ int (written pid d _ (both h)) f
    where
      both :
          (write_pid faults pid d).0 ≡ ok tt
          → write_pid faults pid d ≡ (ok tt, (write_pid faults pid d).1)
      both h = ap (λ r. (r, (write_pid faults pid d).1)) h
