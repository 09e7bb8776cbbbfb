-- ===== src/Cli/Foreground.antt =====
-- The commands that run the daemon in their own process: `start --foreground` and `__run` of internal/cli/commands.go.
pub mod Settled
use distil_proxy.Base.{ℕ, Option, none, some, List}
use distil_proxy.Base.Int.{ℤ}
use distil_proxy.Base.Text.{Text}
use distil_proxy.Disk.{Disk, Result, ok, err}
use distil_proxy.Disk.Exec.{Action, Exec, raise, ◌>>=◌, mapping}
use distil_proxy.Config.{Config, ConfigJson, load}
use distil_proxy.Observability.Logger.{parse_level}
use distil_proxy.Ws.Client.{WsError}
use distil_proxy.Daemon.Process.{Host, System}
use distil_proxy.Daemon.Runtime.{Upgrader, Activity}
use distil_proxy.Daemon.Run.{Outcome, ClientEnd, run_logged, start_foreground}
use distil_proxy.Cli.Commands.{Failure, no_home, load_failed, settings}

-- What becomes of the client and of the upgrade manager is any, as in `Run`.
module _ (sys : System) (json : ConfigJson) (replace : ℕ → Text → Option Text)
    (error_text : WsError → Text) (upgrader : Option Upgrader) (history : List Activity)
    (client_end : ClientEnd) where
  unfoldable pub on_disk : Exec Failure Config → Action Host Failure Config
  on_disk m h = let (r, d) = m h.disk in (r, record h { disk = d })

  unfoldable pub run_with : ℤ → Config → Action Host Failure Outcome
  run_with pid cfg h =
      let (o, h') =
        run_logged sys replace error_text upgrader history client_end cfg
          (parse_level cfg.log_level) pid h in
      (ok o, h')

  -- The `__run` command
  unfoldable pub runtime_command : ℤ → Option Text → Action Host Failure Outcome
  runtime_command pid none = raise no_home
  runtime_command pid (some home) = do
    cfg ← on_disk (mapping load_failed (load sys.faults json))
    run_with pid cfg

  unfoldable pub run_in_front : ℤ → Config → Action Host Failure Outcome
  run_in_front pid cfg h =
      let (o, h') = start_foreground sys replace error_text upgrader history client_end cfg pid h in
      (ok o, h')

  -- The `start` command with `--foreground`
  unfoldable pub foreground_command : ℤ → Option Text → Action Host Failure Outcome
  foreground_command pid home = do
    cfg ← on_disk (settings sys.faults json home)
    run_in_front pid cfg
