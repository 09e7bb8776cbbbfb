-- ===== src/Cli/Commands/Installs.antt =====
-- When the `service install` command of internal/cli/commands_service.go installs.
use distil_proxy.Base.{
  ℕ, ◌≡◌, refl, ap, ◌∙◌, ◌⊎◌, inl, inr, Bool, true, Option, none, some, List, arith,
}
use distil_proxy.Base.Text.{Text, Bytes}
use distil_proxy.Disk.{Disk, Faults, IoError, not_exist, at, service_file, Result, ok, err}
use distil_proxy.Disk.Exec.{◌>>=◌, continue, mapping, wrap, raise, lift, pure}
use distil_proxy.Disk.Leaves.{
  Leaves, Leaves-raise, Leaves-lift, Leaves-bind, Leaves-mapping, Leaves-attempt, Leaves-read_file,
  Leaves-touch,
}
use distil_proxy.Config.{Config, ConfigJson, load, loaded, ensure_state_dirs}
use distil_proxy.Config.Valid.{IsValid}
use distil_proxy.Platform.Service.{Machine, ServiceError, install_service_definition}
use distil_proxy.Platform.Service.Installed.{IsInstall, install_service_definition-IsInstall}
use distil_proxy.Cli.Commands.{
  Failure, no_home, create_dirs, service_failed, load_failure, FileInfo, Message, service_installed,
  settings, on_disk, has_execute_bit, check_binary, stat_installed, install_for, install_command,
}
use distil_proxy.Cli.Commands.Starts.{settings-IsValid}

module _ (faults : Faults) (json : ConfigJson) (runs : ℕ → List Text → Bool) (is_print : ℕ → Bool)
    (stat : Disk → Result IoError FileInfo) (goos : Text) where
  abbrev pub served : Result ServiceError (Unit {0}) → Result Failure Message
  served (ok _) = ok service_installed
  served (err e) = err (service_failed e)

  -- The command runs nothing and leaves the definition, and fails; or the settings are valid, the installed executable
  -- is a regular file that may be executed, and the command does what the installation does.
  pub IsInstalling : Option Text → Machine → Result Failure Message → Machine → Type 0
  IsInstalling home m r m' =
      ((f : Failure) × (r ≡ err f)
        × (m'.ran ≡ m.ran)
        × (m'.disk.files (at service_file) ≡ m.disk.files (at service_file)))
      ⊎ ((c : Config) × (home_dir : Text) × (d : Disk) × (info : FileInfo) × (home ≡ some home_dir)
          × ((settings faults json home m.disk).0 ≡ ok c)
          × IsValid c
          × (stat d ≡ ok info)
          × (info.is_regular ≡ true)
          × (has_execute_bit faults json runs is_print stat goos info.mode ≡ true)
          × (t : Result ServiceError (Unit {0})) × (r ≡ served t)
          × IsInstall faults runs is_print goos home_dir (record m { disk = d }) (t, m'))

  loaded-Leaves : (r : Result IoError Bytes) → Leaves (at service_file) (loaded faults json r)
  unfolding loaded
  loaded-Leaves (ok content) = Leaves-lift (at service_file) _
  loaded-Leaves (err not_exist) = Leaves-raise (at service_file) _
  loaded-Leaves (err e) = Leaves-raise (at service_file) _

  load-Leaves : Leaves (at service_file) (load faults json)
  unfolding load
  load-Leaves = search (Leaves-bind, Leaves-attempt, Leaves-read_file, loaded-Leaves)

  settings-Leaves : (home : Text) → Leaves (at service_file) (settings faults json (some home))
  unfolding settings
  settings-Leaves home = Leaves-mapping (at service_file) load_failure _ load-Leaves

  dirs-Leaves : Leaves (at service_file) (mapping create_dirs (ensure_state_dirs faults))
  unfolding ensure_state_dirs
  dirs-Leaves = search (Leaves-touch, Leaves-bind, Leaves-mapping)

  check_binary_ok :
      (r : Result IoError FileInfo) (u : Unit {0})
      → check_binary faults json runs is_print stat goos r ≡ ok u
      → (info : FileInfo) × (r ≡ ok info)
        × (info.is_regular ≡ true)
        × (has_execute_bit faults json runs is_print stat goos info.mode ≡ true)
  unfolding check_binary
  check_binary_ok (ok info) u h = (info, refl, ground arith, ground arith)
  check_binary_ok (err not_exist) u h = ground arith
  check_binary_ok (err e) u h = ground arith

  module _ (home : Text) (m : Machine) (c : Config)
      (loads : (settings faults json (some home) m.disk).0 ≡ ok c) where
    installed :
        (d : Disk) (info : FileInfo)
        → stat d ≡ ok info
        → info.is_regular ≡ true
        → has_execute_bit faults json runs is_print stat goos info.mode ≡ true
        → (t : Result ServiceError (Unit {0}) × Machine)
        → IsInstall faults runs is_print goos home (record m { disk = d }) t
        → let (r, m') = continue (wrap service_failed t.0) (λ _ n. (ok service_installed, n)) t.1 in
          IsInstalling (some home) m r m'
    unfolding IsInstalling continue wrap
    installed d info e f g (ok u, n) h = inr (
      c,
      home,
      d,
      info,
      refl,
      loads,
      settings-IsValid faults json (some home) m.disk c loads,
      e,
      f,
      g,
      ok u,
      refl,
      h,
    )
    installed d info e f g (err x, n) h = inr (
      c,
      home,
      d,
      info,
      refl,
      loads,
      settings-IsValid faults json (some home) m.disk c loads,
      e,
      f,
      g,
      err x,
      refl,
      h,
    )

    checked :
        (d : Disk) (r : Result Failure (Unit {0}))
        → check_binary faults json runs is_print stat goos (stat d) ≡ r
        → d.files (at service_file) ≡ m.disk.files (at service_file)
        → let (r', m') =
            continue r
              (λ _ n.
                let (t, n') = install_service_definition faults runs is_print goos home n in
                continue (wrap service_failed t) (λ _ n. (ok service_installed, n)) n')
              (record m { disk = d }) in
          IsInstalling (some home) m r' m'
    unfolding IsInstalling continue
    checked d (ok u) e k =
        let (info, f, g, h) = check_binary_ok (stat d) u e in
        installed d info f g h _ (
          install_service_definition-IsInstall faults runs is_print goos home
            (record m { disk = d }))
    checked d (err x) e k = inl (x, refl, refl, k)

    prepared :
        (s : Result Failure (Unit {0}) × Disk)
        → s.1.files (at service_file) ≡ m.disk.files (at service_file)
        → let (r', m') =
            continue s.0
              (λ _ k.
                continue
                  (check_binary faults json runs is_print stat goos (stat k.disk))
                  (λ _ n.
                    let (t, n') = install_service_definition faults runs is_print goos home n in
                    continue (wrap service_failed t) (λ _ n. (ok service_installed, n)) n')
                  k)
              (record m { disk = s.1 }) in
          IsInstalling (some home) m r' m'
    unfolding IsInstalling continue
    prepared (ok u, d) k = checked d _ refl k
    prepared (err x, d) k = inl (x, refl, refl, k)

    loaded_lem :
        (d : Disk)
        → d.files (at service_file) ≡ m.disk.files (at service_file)
        → let (r', m') =
            install_for faults json runs is_print stat goos home (record m { disk = d }) in
          IsInstalling (some home) m r' m'
    unfolding install_for on_disk stat_installed lift mapping pure ◌>>=◌ continue
    loaded_lem d k =
        prepared (mapping create_dirs (ensure_state_dirs faults) d) (dirs-Leaves.kept d ∙ k)

  -- The `service install` command either fails, has run no command and left the service's definition; or the settings
  -- are valid, the installed executable is a regular file that somebody may execute, and the command does what
  -- `InstallServiceDefinition` does, behind those checks.
  pub install_command-IsInstalling :
      (home : Option Text) (m : Machine)
      → let (r, m') = install_command faults json runs is_print stat goos home m in
        IsInstalling home m r m'
  unfolding install_command IsInstalling on_disk raise ◌>>=◌ continue
  install_command-IsInstalling none m = inl (no_home, refl, refl, refl)
  install_command-IsInstalling (some home) m =
      after (settings faults json (some home) m.disk) refl ((settings-Leaves home).kept m.disk)
    where
      after :
          (s : Result Failure Config × Disk)
          → settings faults json (some home) m.disk ≡ s
          → s.1.files (at service_file) ≡ m.disk.files (at service_file)
          → let (r, m') =
              continue s.0
                (λ _. install_for faults json runs is_print stat goos home)
                (record m { disk = s.1 }) in
            IsInstalling (some home) m r m'
      after (ok c, d) e k = loaded_lem home m c (ap (λ s. s.0) e) d k
      after (err f, d) e k = inl (f, refl, refl, k)
