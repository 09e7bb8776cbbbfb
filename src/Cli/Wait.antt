-- ===== src/Cli/Wait.antt =====
-- `waitForDaemonConnected` of internal/cli/commands.go, which stands in internal/cli/commands_upgrade.go once more as
-- `waitForDaemonConnectedAfterUpgrade`. Times are milliseconds. What `Error` prints is a parameter.
pub mod Settles
use distil_proxy.Base.{ℕ, zero, suc, ◌+◌, Bool, true, false, not, ltb, [], if◌then◌else◌}
use distil_proxy.Base.Text.{Text, codes, text_eq, trim_space, is_empty}
use distil_proxy.Disk.{Result, ok, err}
use distil_proxy.Disk.Exec.{Action, raise}
use distil_proxy.Daemon.Files.{RuntimeStatus, DaemonError}
use distil_proxy.Daemon.Process.{Host, System}
use distil_proxy.Daemon.Status.{status}

-- What the error at the end tells
pub record Seen : Type 0 where
  pub last_state : Text
  pub last_error : Text

pub data WaitError : Type 0 where
  not_reconnected : Seen → WaitError
  -- the rounds of the model are used up
  out_of_rounds : WaitError

unfoldable pub tells_connected : Result DaemonError RuntimeStatus → Bool
tells_connected (ok s) = text_eq (trim_space s.ws_state) (codes "connected")
tells_connected (err _) = false

module _ (error_text : DaemonError → Text) where
  unfoldable pub note_status : Result DaemonError RuntimeStatus → Seen → Seen
  note_status (err e) seen = record seen { last_error = error_text e }
  note_status (ok s) seen =
      let message = trim_space s.last_error in
      record {
        last_state = trim_space s.ws_state;
        last_error = if is_empty message then seen.last_error else message;
      }

  -- The rest of a round, with the next rounds as `rest`.
  unfoldable pub after_look :
      (Seen → Action Host WaitError (Unit {0}))
      → ℕ
      → ℕ
      → Seen
      → Result DaemonError RuntimeStatus
      → Action Host WaitError (Unit {0})
  after_look rest deadline poll_interval seen r h =
      if tells_connected r
      then (ok tt, h)
      else if not (ltb h.clock deadline)
      then (err (not_reconnected (note_status r seen)), h)
      else rest (note_status r seen) (record h { clock = h.clock + poll_interval })

  module _ (sys : System) where
    -- The loop, of so many rounds at most.
    unfoldable pub wait_rounds : ℕ → ℕ → ℕ → Seen → Action Host WaitError (Unit {0})
    wait_rounds zero deadline poll_interval seen h = (err out_of_rounds, h)
    wait_rounds (suc rounds) deadline poll_interval seen h =
        let (r, h1) = status sys h in
        after_look (wait_rounds rounds deadline poll_interval) deadline poll_interval seen r h1

    -- `waitForDaemonConnected`
    unfoldable pub wait_for_daemon_connected : ℕ → ℕ → Action Host WaitError (Unit {0})
    wait_for_daemon_connected timeout poll_interval h =
        wait_rounds (suc (suc timeout)) (h.clock + timeout) poll_interval
          (record { last_state = []; last_error = [] }) h
