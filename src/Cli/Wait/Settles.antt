-- ===== src/Cli/Wait/Settles.antt =====
-- How the wait for a connected daemon ends: `waitForDaemonConnected` of internal/cli/commands.go.
use mathlib.Core.Path.{subst}
use distil_proxy.Base.{
  ◌≡◌, refl, ℕ, zero, suc, ◌+◌, ◌*◌, ◌≤◌, ◌<◌, Bool, true, false, not, ltb, arith, if◌then◌else◌,
}
use distil_proxy.Base.Text.{Text, codes, text_eq, text_eq_iff, trim_space}
use distil_proxy.Disk.{Result, ok, err}
use distil_proxy.Disk.Exec.{Action}
use distil_proxy.Daemon.Files.{RuntimeStatus, DaemonError}
use distil_proxy.Daemon.Process.{Host, System}
use distil_proxy.Daemon.Process.Stop.{IsOurs, IsPidFile}
use distil_proxy.Daemon.Status.{status}
use distil_proxy.Daemon.Status.Truth.{Holds, IsTrue, status-IsTrue}
use distil_proxy.Daemon.Status.Keeps.{status-Quiet}
use distil_proxy.Cli.Wait.{
  Seen, WaitError, not_reconnected, out_of_rounds, tells_connected, note_status, after_look,
  wait_rounds, wait_for_daemon_connected,
}

module _ (sys : System) where
  -- The machine is as `Status` left it when it told of a daemon in the state "connected" that runs, and whose number
  -- the PID file had, with a process of ours.
  unfoldable pub IsConnected : Host → Type 0
  IsConnected n =
      (h : Host) × (s : RuntimeStatus) × (status sys h ≡ (ok s, n))
      × (trim_space s.ws_state ≡ codes "connected")
      × (s.running ≡ true)
      × IsPidFile sys h.disk s.pid
      × IsOurs sys s.pid

  stopped-connected : text_eq (trim_space (codes "stopped")) (codes "connected") ≡ false
  unfolding text_eq trim_space
  stopped-connected = refl

  status-IsConnected :
      (s : RuntimeStatus) (h n : Host)
      → status sys h ≡ (ok s, n)
      → tells_connected (ok s) ≡ true
      → IsTrue sys h.disk s
      → IsConnected n
  unfolding IsConnected IsTrue tells_connected
  status-IsConnected s h n e c (runs, stands) = split s.running refl
    where
      split : (b : Bool) → s.running ≡ b → IsConnected n
      split true r = let (p, o) = runs r in (h, s, e, (text_eq_iff _ _).0 c, r, p, o)
      split false r = absurd (ground (arith, stopped-connected, rw (stands r) at c))

  -- What is known when the wait is over.
  unfoldable pub IsSettled : ℕ → Result WaitError (Unit {0}) → Host → Type 0
  IsSettled deadline (ok _) h = IsConnected h
  IsSettled deadline (err (not_reconnected seen)) h = deadline ≤ h.clock
  IsSettled deadline (err out_of_rounds) h = ⊥

  module _ (error_text : DaemonError → Text) where
    after_look-IsSettled :
        (rest : Seen → Action Host WaitError (Unit {0})) (deadline poll : ℕ) (seen : Seen)
        → (r : Result DaemonError RuntimeStatus) (h0 h : Host) → status sys h0 ≡ (r, h)
        → (h.clock < deadline
            → (later : Seen)
            → let (t, n) = rest later (record h { clock = h.clock + poll }) in
              IsSettled deadline t n)
        → let (t, n) = after_look error_text rest deadline poll seen r h in IsSettled deadline t n
    unfolding after_look
    after_look-IsSettled rest deadline poll seen r h0 h e next =
        split (tells_connected r) refl (ltb h.clock deadline) refl
      where
        known :
            (r : Result DaemonError RuntimeStatus)
            → status sys h0 ≡ (r, h)
            → tells_connected r ≡ true
            → IsConnected h
        known (ok s) e c =
            status-IsConnected s h0 h e c
              (subst (λ t. Holds (IsTrue sys h0.disk) t.0) e (status-IsTrue sys h0))
        known (err x) e c = unfold tells_connected in ground arith

        split :
            (b : Bool)
            → tells_connected r ≡ b
            → (c : Bool) → ltb h.clock deadline ≡ c
            → let (t, n) =
                if◌then◌else◌ {A = Result WaitError (Unit {0}) × Host} b
                  (ok tt, h)
                  (if not c
                    then (err (not_reconnected (note_status error_text r seen)), h)
                    else rest
                        (note_status error_text r seen)
                        (record h { clock = h.clock + poll })) in
              IsSettled deadline t n
        split true k c l = unfold IsSettled in known r e k
        split false k true l = next (ground arith) _
        split false k false l = unfold IsSettled in ground arith

    wait_rounds-IsSettled :
        (n deadline poll : ℕ) (seen : Seen) (h : Host)
        → deadline < h.clock + n * poll
        → let (t, m) = wait_rounds error_text sys (suc n) deadline poll seen h in
          IsSettled deadline t m
    unfolding wait_rounds
    wait_rounds-IsSettled zero deadline poll seen h enough =
        after_look-IsSettled _ deadline poll seen _ h _ refl
          (λ early later. absurd (ground (arith, ((status-Quiet sys).kept h).1)))
    wait_rounds-IsSettled (suc n) deadline poll seen h enough =
        after_look-IsSettled _ deadline poll seen _ h _ refl (λ early later.
          wait_rounds-IsSettled n deadline poll later _
            (ground (arith, ((status-Quiet sys).kept h).1)))

    le_mul : (n poll : ℕ) → 0 < poll → n ≤ n * poll
    le_mul n zero h = absurd (omega arith)
    le_mul n (suc q) h = omega arith

    -- With a poll interval above 0 the wait for the daemon ends, whatever the system and the status say, within as
    -- many rounds as the timeout has milliseconds and two. Either it succeeds, and then its last look was a `Status`
    -- that told of a daemon in the state "connected", blanks around it aside, that runs, whose number was in the
    -- PID file and which was seen to be a process of ours; or it fails, and then the timeout is over.
    pub wait_for_daemon_connected-IsSettled :
        (timeout poll : ℕ) (h : Host)
        → 0 < poll
        → let (t, n) = wait_for_daemon_connected error_text sys timeout poll h in
          IsSettled (h.clock + timeout) t n
    unfolding wait_for_daemon_connected
    wait_for_daemon_connected-IsSettled timeout poll h positive =
        wait_rounds-IsSettled (suc timeout) (h.clock + timeout) poll _ h
          (ground (arith, le_mul (suc timeout) poll positive))
