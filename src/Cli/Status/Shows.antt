-- ===== src/Cli/Status/Shows.antt =====
-- What the `status` command, internal/cli/status.go, shows of what `Status` of internal/daemon/service.go reports.
use distil_proxy.Base.{◌≡◌, refl, ◌⊎◌, inl, inr, ℕ, zero, suc, Bool, true, false, arith}
use distil_proxy.Base.Int.{ℤ, pos, negsuc}
use distil_proxy.Base.Text.{Text, codes, trim_space}
use distil_proxy.Disk.{Disk, Result, ok, err}
use distil_proxy.Daemon.Files.{RuntimeStatus, DaemonError}
use distil_proxy.Daemon.Process.{Host, System}
use distil_proxy.Daemon.Process.Stop.{IsOurs, IsPidFile}
use distil_proxy.Daemon.Status.{status}
use distil_proxy.Daemon.Status.Truth.{Holds, IsTrue, status-IsTrue}
use distil_proxy.Cli.Duration.{human_duration}
use distil_proxy.Cli.Duration.Reads.{read_parts, human_duration_lem}
use distil_proxy.Cli.Status.{Formats, StatusOutput, shown_state, shown_uptime, build_status_output}

module _ (sys : System) where
  -- The state is "stopped", or the process is one of ours from the PID file; the uptime is not below 0, and its text
  -- says the same number.
  unfoldable pub IsShown : Disk → StatusOutput → Type 0
  IsShown d out =
      ((out.status ≡ codes "stopped") ⊎ (IsPidFile sys d out.pid × IsOurs sys out.pid))
      × (out.websocket_state ≡ out.status)
      × ((n : ℕ) × (out.uptime_seconds ≡ pos n) × (read_parts out.uptime_human 0 0 ≡ n))

  shown_state_lem : (state : Text) → shown_state false state ≡ codes "stopped"
  unfolding shown_state
  shown_state_lem state = refl

  uptime_text : (n : ℕ) → read_parts (human_duration (pos n)) 0 0 ≡ n
  uptime_text zero = unfold human_duration in refl
  uptime_text (suc n) = (human_duration_lem (suc n) (omega arith)).0

  shown_uptime-pos : (seconds : ℤ) → (n : ℕ) × (shown_uptime seconds ≡ pos n)
  unfolding shown_uptime
  shown_uptime-pos (pos n) = (n, ground arith)
  shown_uptime-pos (negsuc n) = (0, ground arith)

  pub build-IsShown :
      (formats : Formats) (version url email : Text) (s : RuntimeStatus) (now : ℤ) (d : Disk)
      → IsTrue sys d s
      → IsShown d (build_status_output formats version url email s now)
  unfolding IsShown build_status_output IsTrue
  build-IsShown formats version url email s now d (runs, stands) =
      let (n, e) = shown_uptime-pos s.uptime_seconds in
      (state s.running runs, refl, (n, e, rw e (uptime_text n)))
    where
      state :
          (b : Bool)
          → (b ≡ true → IsPidFile sys d s.pid × IsOurs sys s.pid)
          → (shown_state b (trim_space s.ws_state) ≡ codes "stopped")
            ⊎ (IsPidFile sys d s.pid × IsOurs sys s.pid)
      state true runs = inr (runs refl)
      state false runs = inl (shown_state_lem (trim_space s.ws_state))

  -- Where the `status` command has a report of `Status`, it shows the state "stopped", or the number of a process
  -- from the PID file that was seen to run a command of this executable. Both places for the state show the same,
  -- the uptime is not below 0, and its text reads as the same number of seconds.
  pub status-IsShown :
      (formats : Formats) (version url email : Text) (now : ℤ) (h : Host)
      → Holds
          (λ s. IsShown h.disk (build_status_output formats version url email s now))
          (status sys h).0
  status-IsShown formats version url email now h = split (status sys h).0 (status-IsTrue sys h)
    where
      split :
          (r : Result DaemonError RuntimeStatus)
          → Holds (IsTrue sys h.disk) r
          → Holds (λ s. IsShown h.disk (build_status_output formats version url email s now)) r
      split (ok s) k = build-IsShown formats version url email s now h.disk k
      split (err e) k = tt
