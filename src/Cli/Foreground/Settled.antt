-- ===== src/Cli/Foreground/Settled.antt =====
-- The settings behind a daemon that runs in the process of its command: internal/cli/commands.go.
use distil_proxy.Base.{
  ◌≡◌, refl, ℕ, Bool, true, false, Option, none, some, List, ◌⊎◌, inl, inr, arith, if◌then◌else◌,
}
use distil_proxy.Base.Int.{ℤ}
use distil_proxy.Base.Text.{Text}
use distil_proxy.Disk.{Disk, Result, ok, err}
use distil_proxy.Disk.Exec.{◌>>=◌, continue, mapping, wrap}
use distil_proxy.Config.{Config, ConfigError, ConfigJson, load}
use distil_proxy.Config.Valid.{IsValid}
use distil_proxy.Config.Storage.{load-IsValid}
use distil_proxy.Observability.Logger.{parse_level}
use distil_proxy.Ws.Client.{WsError}
use distil_proxy.Ws.Config.{new_client}
use distil_proxy.Daemon.Files.{DaemonError}
use distil_proxy.Daemon.Process.{Host, System}
use distil_proxy.Daemon.Runtime.{Upgrader, Runtime, Activity, perform}
use distil_proxy.Daemon.Run.{
  remove_own, finish_client, linger, Outcome, ClientEnd, returned, RunError, invalid_log_level,
  new_client_error, Startup, ready, rolled_back, client_config, restart_process, replace_error,
  finish_run, close_runtime, returned_from, run_client, run_checked, run_set_up, run_daemon,
  run_logged, run_alone, start_foreground, check_startup,
}
use distil_proxy.Daemon.Run.Accepts.{valid_config_accepted}
use distil_proxy.Cli.Commands.{Failure, load_failed, settings}
use distil_proxy.Cli.Commands.Starts.{settings-IsValid}
use distil_proxy.Cli.Foreground
use distil_proxy.Cli.Foreground.{run_with, runtime_command, run_in_front, foreground_command}

-- The daemon ends because of its settings.
unfoldable pub blames_settings : Outcome → Bool
blames_settings (returned (some invalid_log_level)) = true
blames_settings (returned (some (new_client_error _))) = true
blames_settings _ = false

module _ (sys : System) (replace : ℕ → Text → Option Text) (error_text : WsError → Text)
    (upgrader : Option Upgrader) (history : List Activity) (client_end : ClientEnd) where
  restart_lem : (r : Runtime) → blames_settings (restart_process sys replace r).0 ≡ false
  unfolding restart_process replace_error blames_settings
  restart_lem r = decide (sys.exec_path r.host.looks)
    where
      answered : (x : Option Text) → blames_settings (replace_error sys replace x) ≡ false
      answered none = refl
      answered (some e) = refl

      decide :
          (x : Option Text)
          → blames_settings (elim x [
            | none ↦ returned (some RunError.resolve_executable)
            | some path ↦ replace_error sys replace (replace r.host.looks path)
          ])
            ≡ false
      decide none = refl
      decide (some path) = answered (replace r.host.looks path)

  removed_lem :
      (pid : ℤ) (x : Result DaemonError (Unit {0})) (r : Runtime)
      → blames_settings (remove_own sys pid upgrader client_end x r).0 ≡ false
  unfolding remove_own blames_settings
  removed_lem pid (err e) r = refl
  removed_lem pid (ok _) r = closed _
    where
      closed : (x : Result DaemonError (Unit {0})) → blames_settings (returned_from x) ≡ false
      closed (ok _) = unfold returned_from in refl
      closed (err e) = unfold returned_from in refl

  finish_client_lem :
      (pid : ℤ) (checked : Bool) (x : Option Text) (r : Runtime)
      → blames_settings (finish_client sys replace pid upgrader checked client_end x r).0 ≡ false
  unfolding finish_client close_runtime blames_settings
  finish_client_lem pid checked (some e) r = refl
  finish_client_lem pid checked none r = removed_lem pid _ _

  finish_lem :
      (pid : ℤ) (checked : Bool) (r : Runtime)
      → blames_settings (finish_run sys replace pid upgrader checked client_end r).0 ≡ false
  unfolding finish_run
  finish_lem pid checked r = decide r.is_upgrade_requested
    where
      decide :
          (b : Bool)
          → blames_settings
              (if b
                then restart_process sys replace r
                else finish_client sys replace pid upgrader checked client_end client_end.error
                    (linger sys upgrader client_end.before_mark r)).0
            ≡ false
      decide true = restart_lem r
      decide false = finish_client_lem pid checked client_end.error _

  client_lem :
      (cfg : Config) (pid : ℤ) (checked : Bool) (r : Runtime)
      → IsValid cfg
      → blames_settings
          (run_client sys replace error_text upgrader history client_end cfg
            (new_client (client_config cfg))
            pid
            checked
            r).0
        ≡ false
  unfolding run_client
  client_lem cfg pid checked r v =
      rw ((valid_config_accepted cfg v).1)
        (finish_lem pid checked (perform sys error_text upgrader history r))

  checked_lem :
      (cfg : Config) (pid : ℤ) (s : Startup) (r : Runtime)
      → IsValid cfg
      → blames_settings
          (run_checked sys replace error_text upgrader history client_end cfg pid s r).0
        ≡ false
  unfolding run_checked
  checked_lem cfg pid rolled_back r v = restart_lem r
  checked_lem cfg pid (ready b) r v = client_lem cfg pid b r v

  set_up_lem :
      (cfg : Config) (pid : ℤ) (x : Result DaemonError (Unit {0})) (r : Runtime)
      → IsValid cfg
      → blames_settings
          (run_set_up sys replace error_text upgrader history client_end cfg pid x r).0
        ≡ false
  unfolding run_set_up blames_settings
  set_up_lem cfg pid (err e) r v = refl
  set_up_lem cfg pid (ok _) r v =
      let (s, t) = check_startup sys upgrader r in checked_lem cfg pid s t v

  logged_lem :
      (cfg : Config) (pid : ℤ) (h : Host)
      → IsValid cfg
      → blames_settings
          (run_logged sys replace error_text upgrader history client_end cfg
            (parse_level cfg.log_level)
            pid
            h).0
        ≡ false
  unfolding run_logged run_daemon
  logged_lem cfg pid h v = rw ((valid_config_accepted cfg v).0.1) (set_up_lem cfg pid _ _ v)

  alone_lem :
      (cfg : Config) (pid : ℤ) (x : Result DaemonError (Option ℤ)) (h : Host)
      → IsValid cfg
      → blames_settings (run_alone sys replace error_text upgrader history client_end cfg x pid h).0
        ≡ false
  unfolding run_alone blames_settings
  alone_lem cfg pid (err e) h v = refl
  alone_lem cfg pid (ok (some p)) h v = refl
  alone_lem cfg pid (ok none) h v = logged_lem cfg pid h v

  -- A command fails as its settings do and does nothing else, or they are valid, and it does what `run` does with
  -- them, which does not end because of them.
  unfoldable pub IsSettled :
      Result Failure Config × Disk
      → (Config → Host → Outcome × Host)
      → Host
      → Result Failure Outcome × Host
      → Type 0
  IsSettled given run h s =
      ((f : Failure) × (given.0 ≡ err f) × (s ≡ (err f, record h { disk = given.1 })))
      ⊎ ((c : Config) × (given.0 ≡ ok c)
          × IsValid c
          × let (o, n) = run c (record h { disk = given.1 }) in
            (s ≡ (ok o, n)) × (blames_settings o ≡ false))

  settle_lem :
      (given : Result Failure Config × Disk) (run : Config → Host → Outcome × Host) (h : Host)
      → ((c : Config) → given.0 ≡ ok c → IsValid c)
      → ((c : Config) (n : Host) → IsValid c → blames_settings (run c n).0 ≡ false)
      → IsSettled given run h (
          continue given.0 (λ c n. let (o, m) = run c n in (ok o, m)) (record h { disk = given.1 }))
  unfolding IsSettled continue
  settle_lem (err f, d) run h v b = inl (f, refl, refl)
  settle_lem (ok c, d) run h v b = inr (c, refl, v c refl, (refl, b c _ (v c refl)))

  module _ (json : ConfigJson) (pid : ℤ) (home : Text) (h : Host) where
    loaded-IsValid :
        (c : Config) → (mapping load_failed (load sys.faults json) h.disk).0 ≡ ok c → IsValid c
    unfolding mapping wrap
    loaded-IsValid c e = load-IsValid sys.faults json h.disk c (unwrapped _ e)
      where
        unwrapped : (r : Result ConfigError Config) → wrap load_failed r ≡ ok c → r ≡ ok c
        unwrapped (ok x) q = ground arith
        unwrapped (err x) q = ground arith

    -- With a home directory, `__run` and `start --foreground` fail as the settings do, and do nothing else; or the
    -- settings are valid, and they do what `Run` does behind `ParseLevel`, and what `StartForeground` does. Then
    -- the daemon never ends because its log level is not known or because its client refuses the settings.
    pub foreground_commands-IsSettled :
        IsSettled
          (mapping load_failed (load sys.faults json) h.disk)
          (λ c n.
            run_logged sys replace error_text upgrader history client_end c
              (parse_level c.log_level)
              pid
              n)
          h
          (runtime_command sys json replace error_text upgrader history client_end pid
            (some home)
            h)
        × IsSettled
            (settings sys.faults json (some home) h.disk)
            (λ c n. start_foreground sys replace error_text upgrader history client_end c pid n)
            h
            (foreground_command sys json replace error_text upgrader history client_end pid
              (some home)
              h)
    unfolding runtime_command foreground_command run_with run_in_front Foreground.on_disk ◌>>=◌
    foreground_commands-IsSettled = (
      settle_lem _ _ h loaded-IsValid (λ c n v. logged_lem c pid n v),
      settle_lem _ _ h (settings-IsValid sys.faults json (some home) h.disk)
          (λ c n v. front_lem c n v),
    )
      where
        front_lem :
            (c : Config) (n : Host)
            → IsValid c
            → blames_settings
                (start_foreground sys replace error_text upgrader history client_end c pid n).0
              ≡ false
        front_lem c n v = unfold start_foreground in alone_lem c pid _ _ v
