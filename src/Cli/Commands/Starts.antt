-- ===== src/Cli/Commands/Starts.antt =====
-- What the `start` command of internal/cli/commands.go starts.
use distil_proxy.Base.{ℕ, ◌≡◌, refl, ap, ◌⊎◌, inl, inr, Option, none, some, arith}
use distil_proxy.Base.Int.{ℤ}
use distil_proxy.Base.Text.{Text}
use distil_proxy.Disk.{Disk, Faults, Result, ok, err}
use distil_proxy.Disk.Exec.{◌>>=◌, continue, mapping, wrap, raise, pure}
use distil_proxy.Config.{Config, ConfigError, ConfigJson}
use distil_proxy.Config.Valid.{IsValid}
use distil_proxy.Config.Storage.{load-IsValid}
use distil_proxy.Daemon.Process.{System}
use distil_proxy.Daemon.Start.{Launcher, StartError, start}
use distil_proxy.Daemon.Start.Launch.{IsLaunch, past, start-IsLaunch}
use distil_proxy.Cli.Commands.{
  Failure, start_failed, Message, started, load_failure, settings, with_settings, start_command,
}

module _ (faults : Faults) (json : ConfigJson) where
  -- The settings that a command goes on with are valid.
  pub settings-IsValid :
      (home : Option Text) (d : Disk) (c : Config)
      → (settings faults json home d).0 ≡ ok c
      → IsValid c
  unfolding settings raise mapping wrap
  settings-IsValid none d c h = ground arith
  settings-IsValid (some home) d c h = load-IsValid faults json d c (unwrapped _ h)
    where
      unwrapped : (r : Result ConfigError Config) → wrap load_failure r ≡ ok c → r ≡ ok c
      unwrapped (ok x) e = ground arith
      unwrapped (err x) e = ground arith

module _ (sys : System) (json : ConfigJson) (spawn : ℕ → Text → Option ℤ) where
  abbrev pub answer : Result StartError (Unit {0}) → Result Failure Message
  answer (ok _) = ok started
  answer (err e) = err (start_failed e)

  -- The command fails as its settings do, and starts and kills no process; or its settings are valid, and it does what
  -- `Start` does.
  pub IsStarted : Option Text → Launcher → Result Failure Message → Launcher → Type 0
  IsStarted home l r l' =
      ((f : Failure) × ((settings sys.faults json home l.host.disk).0 ≡ err f)
        × (r ≡ err f)
        × (past l' ≡ past l))
      ⊎ ((c : Config) × ((settings sys.faults json home l.host.disk).0 ≡ ok c)
          × IsValid c
          × (t : Result StartError (Unit {0})) × (r ≡ answer t)
          × IsLaunch sys (past l) t l')

  -- The `start` command fails as the settings do, and then it starts and kills no process; or the settings are valid, and
  -- it does what `Start` does: it leaves one new child that the files name, or it fails and leaves none.
  pub start_command-IsStarted :
      (home : Option Text) (l : Launcher)
      → let (r, l') = start_command sys json spawn home l in IsStarted home l r l'
  unfolding start_command with_settings IsStarted mapping pure ◌>>=◌ continue
  start_command-IsStarted home l = after (settings sys.faults json home l.host.disk) refl
    where
      launched :
          (c : Config)
          → (settings sys.faults json home l.host.disk).0 ≡ ok c
          → (t : Result StartError (Unit {0}) × Launcher) → IsLaunch sys (past l) t.0 t.1
          → let (r, l') = continue (wrap start_failed t.0) (λ _ n. (ok started, n)) t.1 in
            IsStarted home l r l'
      launched c e (ok u, n) h =
          inr (c, e, settings-IsValid sys.faults json home l.host.disk c e, ok u, refl, h)
      launched c e (err x, n) h =
          inr (c, e, settings-IsValid sys.faults json home l.host.disk c e, err x, refl, h)

      after :
          (s : Result Failure Config × Disk)
          → settings sys.faults json home l.host.disk ≡ s
          → let (r, l') =
              continue s.0
                (λ _ n.
                  let (t, n') = start sys spawn n in
                  continue (wrap start_failed t) (λ _ n. (ok started, n)) n')
                (record l { host = record l.host { disk = s.1 } }) in
            IsStarted home l r l'
      after (ok c, d) e =
          launched c (ap (λ s. s.0) e) _
            (start-IsLaunch sys spawn (record l { host = record l.host { disk = d } }))
      after (err f, d) e = inl (f, ap (λ s. s.0) e, refl, refl)
