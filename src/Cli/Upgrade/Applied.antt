-- ===== src/Cli/Upgrade/Applied.antt =====
-- What the `upgrade` command, internal/cli/commands_upgrade.go, has done when it succeeds.
use mathlib.Core.Path.{subst}
use distil_proxy.Base.{◌≡◌, sym, ap, ◌∙◌, ℕ, Bool, true, false, Option, none, some, [], ◌∷◌, arith}
use distil_proxy.Base.Int.{ℤ}
use distil_proxy.Base.Text.{Text, Bytes}
use distil_proxy.Disk.{Disk, at, binary, IoError, not_exist, Result, ok, err}
use distil_proxy.Disk.Leaves.{
  Leaves, Leaves-lift, Leaves-raise, Leaves-bind, Leaves-attempt, Leaves-read_file,
}
use distil_proxy.Disk.Exec.{pure, mapping, wrap}
use distil_proxy.Disk.Success.{bind_ok, mapping_ok}
use distil_proxy.Config.{Config, ConfigError, ConfigJson, apply_defaults, load, loaded}
use distil_proxy.Daemon.Files.{DaemonError}
use distil_proxy.Daemon.Process.{System}
use distil_proxy.Daemon.Start.{Launcher}
use distil_proxy.Upgrade.Manager.{Release, UpgradeError, Checked, check_and_upgrade}
use distil_proxy.Upgrade.Manager.Outcome.{IsApplied, check_and_upgrade-IsApplied}
use distil_proxy.Cli.Auth.{Exchange, run_post_upgrade_hook}
use distil_proxy.Cli.Auth.Verified.{IsHooked, hook-IsHooked}
use distil_proxy.Cli.Urls.{UrlCodec}
use distil_proxy.Cli.Upgrade.{
  CommandError, load_error, Report, up_to_date, upgraded, upgrade_failed, hook_failed,
  manual_config, load_settings, resolve_path, check_release_now, complete_upgrade, run_upgrade,
}

module _ (sys : System) (json : ConfigJson) (spawn : ℕ → Text → Option ℤ)
    (error_text : DaemonError → Text) (url : UrlCodec) (send : Text → Text → Exchange)
    (net : Release) (version : Text) where
  -- The disk behind `Load`, which is the check's, and what the check of the command comes to
  abbrev pub read_disk : Launcher → Disk
  read_disk l = (load sys.faults json l.host.disk).1

  abbrev pub checked : Launcher → Checked × Disk
  checked l = check_and_upgrade sys.faults net (manual_config version) (read_disk l)

  -- What a report means, of the machine before and after.
  unfoldable pub IsReported : Report → Launcher → Launcher → Type 0
  IsReported (up_to_date available) l l' =
      (l'.spawned ≡ l.spawned)
      × ((checked l).0.result.is_applied ≡ false)
      × (l'.host.disk ≡ (checked l).1)
  IsReported (upgraded target source) l l' =
      ((read_disk l).files (at binary) ≡ l.host.disk.files (at binary))
      × IsApplied sys.faults net (manual_config version) (read_disk l) (checked l).1
      × (cfg : Config) × ((load sys.faults json l.host.disk).0 ≡ ok cfg)
      × IsHooked sys json spawn error_text url send (apply_defaults cfg) source l l'

  loaded-Leaves : (r : Result IoError Bytes) → Leaves (at binary) (loaded sys.faults json r)
  unfolding loaded
  loaded-Leaves (ok content) = Leaves-lift _ _
  loaded-Leaves (err not_exist) = Leaves-raise _ _
  loaded-Leaves (err e) = Leaves-raise _ _

  load-Leaves : Leaves (at binary) (load sys.faults json)
  unfolding load
  load-Leaves = search (Leaves-bind, Leaves-attempt, Leaves-read_file, loaded-Leaves)

  settings_ok :
      (cfg : Config) (l l' : Launcher)
      → load_settings sys json spawn error_text url send net version l ≡ (ok cfg, l')
      → ((load sys.faults json l.host.disk).0 ≡ ok cfg)
        × (l'.host.disk ≡ read_disk l)
        × (l'.spawned ≡ l.spawned)
  unfolding load_settings mapping wrap
  settings_ok cfg l l' e = (
    unwrapped (load sys.faults json l.host.disk).0 (ap (λ r. r.0) e),
    sym (ap (λ r. r.1.host.disk) e),
    sym (ap (λ r. r.1.spawned) e),
  )
    where
      unwrapped : (r : Result ConfigError Config) → wrap load_error r ≡ ok cfg → r ≡ ok cfg
      unwrapped (ok c) q = ground arith
      unwrapped (err x) q = ground arith

  path_ok :
      (path : Text) (l l' : Launcher)
      → resolve_path sys json spawn error_text url send net version l ≡ (ok path, l')
      → l ≡ l'
  unfolding resolve_path
  path_ok path l l' e = ap (λ r. r.1) e

  -- The check that the command makes, on the disk that it has read
  checked_ok :
      (c : Checked) (l0 l l' : Launcher)
      → l.host.disk ≡ read_disk l0
      → check_release_now sys json spawn error_text url send net version l ≡ (ok c, l')
      → (c ≡ (checked l0).0) × (l'.host.disk ≡ (checked l0).1) × (l'.spawned ≡ l.spawned)
  unfolding check_release_now
  checked_ok c l0 l l' d e =
      let q = ap (check_and_upgrade sys.faults net (manual_config version)) d in
      (
        same _ _ (ap (λ r. r.0) e) ∙ ap (λ r. r.0) q,
        sym (ap (λ r. r.1.host.disk) e) ∙ ap (λ r. r.1) q,
        sym (ap (λ r. r.1.spawned) e),
      )
    where
      same :
          (x : Checked) (o : Option UpgradeError)
          → ◌≡◌ {A = Result CommandError Checked}
              (elim o [ some e ↦ err (upgrade_failed e) | none ↦ ok x ])
              (ok c)
          → c ≡ x
      same x none h = ground arith
      same x (some e) h = ground arith

  IsHooked-before :
      (cfg : Config) (source : Option Text) (l0 l l' : Launcher)
      → l.spawned ≡ l0.spawned
      → IsHooked sys json spawn error_text url send cfg source l l'
      → IsHooked sys json spawn error_text url send cfg source l0 l'
  unfolding IsHooked
  IsHooked-before cfg source l0 l l' s ((pid, p), c, f) = ((pid, p ∙ ap (λ t. pid ∷ t) s), c, f)

  -- The report of a command's result
  abbrev report_of : Result CommandError Report × Launcher → Report
  report_of (ok r, _) = r
  report_of (err e, _) = up_to_date []

  completed :
      (cfg : Config) (available : Text) (b : Bool) (report : Report) (l0 l l' : Launcher)
      → (load sys.faults json l0.host.disk).0 ≡ ok cfg
      → l.host.disk ≡ (checked l0).1
      → l.spawned ≡ l0.spawned
      → (checked l0).0.result.is_applied ≡ b
      → complete_upgrade sys json spawn error_text url send net version
          (apply_defaults cfg)
          available
          b
          l
        ≡ (ok report, l')
      → IsReported report l0 l'
  unfolding complete_upgrade pure IsReported
  completed cfg available false report l0 l l' g d s a e =
      subst (λ r. IsReported r l0 l') (ap report_of e)
        (sym (ap (λ r. r.1.spawned) e) ∙ s, a, sym (ap (λ r. r.1.host.disk) e) ∙ d)
  completed cfg available true report l0 l l' g d s a e =
      let (source, l1, e1, e2) = bind_ok _ _ report l l' e in
      let hooked =
        hook-IsHooked sys json spawn error_text url send (apply_defaults cfg) source l l1 (
          mapping_ok hook_failed
            (run_post_upgrade_hook sys json spawn error_text url send (apply_defaults cfg)) source l
            l1 e1) in
      subst (λ r. IsReported (report_of r) l0 r.1) e2
        (
          load-Leaves.kept l0.host.disk,
          check_and_upgrade-IsApplied sys.faults net (manual_config version) (read_disk l0) a,
          cfg,
          g,
          IsHooked-before (apply_defaults cfg) source l0 l l1 s hooked,
        )

  -- If the `upgrade` command reports that the program is up to date, it has started nothing, its check, on the disk
  -- as `Load` has left it, applied no release, and the disk is as the check has left it. If it reports an upgrade,
  -- that check had put a wanted release of the endpoint in the place of the executable that was there at the
  -- start, with the release's checksum and a backup; a new daemon was started; the last look was a `Status` that
  -- told of a daemon in the state "connected" that is a process of ours; and, where the key of the settings that
  -- were loaded begins with `dk_`, the proxy of their server had served a page with that key, whose source is
  -- reported. With another key no source is.
  pub run_upgrade-IsReported :
      (report : Report) (l l' : Launcher)
      → run_upgrade sys json spawn error_text url send net version l ≡ (ok report, l')
      → IsReported report l l'
  unfolding run_upgrade
  run_upgrade-IsReported report l l' e =
      let (cfg, l1, e1, f1) = bind_ok _ _ report l l' e in
      let (path, l2, e2, f2) = bind_ok _ _ report l1 l' f1 in
      let (c, l3, e3, f3) = bind_ok _ _ report l2 l' f2 in
      let (g, d1, s1) = settings_ok cfg l l1 e1 in
      let same = path_ok path l1 l2 e2 in
      let (k, d3, s3) = checked_ok c l l2 l3 (ap (λ n. n.host.disk) (sym same) ∙ d1) e3 in
      completed cfg c.result.available_version c.result.is_applied report l l3 l' g d3
        (s3 ∙ ap (λ n. n.spawned) (sym same) ∙ s1) (ap (λ x. x.result.is_applied) (sym k)) f3
