-- ===== src/Platform/Service/Installed.antt =====
-- What an installation of the service comes to: internal/platform/service_templates.go.
use mathlib.Core.Path.{subst}
use distil_proxy.Base.{
  sym, Option-cases, ℕ, suc, ◌≡◌, ◌≢◌, refl, ◌⊎◌, inl, inr, Bool, true, false, some, List, ◌∷◌,
  length, if◌then◌else◌, arith,
}
use distil_proxy.Base.Text.{Text, Bytes, codes, text_eq}
use distil_proxy.Disk.{
  Disk, IoError, Faults, at, service_file, Result, ok, err, same_path, put, write_file, touch,
}
use distil_proxy.Disk.Exec.{◌>>=◌, ◌>>◌, continue, mapping, wrap, ignore, raise}
use distil_proxy.Platform.Template.{launchd_plist, systemd_user_unit}
use distil_proxy.Platform.Service.{
  Machine, ServiceError, create_directory, write_definition, unsupported, launchctl, reload_command,
  enable_command, on_files, run_command, write_service, install_launchd, install_systemd,
  install_service_definition,
}

module _ (faults : Faults) (runs : ℕ → List Text → Bool) (is_print : ℕ → Bool) where
  -- No command is run before the content is in place. Success means that it is in place, that the two commands
  -- were run in this order, and that the second has ended without an error, and the first too where it matters.
  pub record IsInstallOf (content : Bytes) (first second : List Text) (matters : Bool) (m : Machine)
      (s : Result ServiceError (Unit {0}) × Machine) : Type 0 where
    pub in_order : (s.1.ran ≡ m.ran) ⊎ (s.1.disk.files (at service_file) ≡ some content)
    pub taken :
        (s.0 ≢ ok tt)
        ⊎ ((s.1.disk.files (at service_file) ≡ some content)
            × (s.1.ran ≡ second ∷ first ∷ m.ran)
            × ((matters ≡ false) ⊎ (runs (length m.ran) first ≡ true))
            × (runs (suc (length m.ran)) second ≡ true))

  judged :
      {content : Bytes} (d : Disk)
      → let s = write_file faults (at service_file) content d in
        (wrap write_definition s.0 ≢ ok tt) ⊎ (s.1.files (at service_file) ≡ some content)
  unfolding write_file put same_path wrap
  judged d = elim (Option-cases (faults d.calls)) [
    | inl e ↦ inr (rw (e, write_file) refl)
    | inr (f, e) ↦ inl (rw (e, write_file) (λ h. ground arith))
  ]

  -- What is written, and whether it was
  written_or_not :
      (content : Bytes) (m : Machine)
      → (r : Result ServiceError (Unit {0})) × (d : Disk) × (write_service faults runs is_print
            content m
          ≡ (r, record m { disk = d }))
        × ((r ≢ ok tt) ⊎ (d.files (at service_file) ≡ some content))
  unfolding write_service on_files ◌>>=◌ continue mapping wrap
  written_or_not content m = after (touch faults m.disk)
    where
      after :
          (s : Result IoError (Unit {0}) × Disk)
          → (r : Result ServiceError (Unit {0})) × (d : Disk) × (continue
                (wrap create_directory s.0)
                (λ _ n.
                  let (r, d) =
                    mapping write_definition (write_file faults (at service_file) content) n.disk in
                  (r, record n { disk = d }))
                (record m { disk = s.1 })
              ≡ (r, record m { disk = d }))
            × ((r ≢ ok tt) ⊎ (d.files (at service_file) ≡ some content))
      after (err e, d) = (err (create_directory e), d, refl, inl (λ h. ground arith))
      after (ok u, d) = (_, _, refl, judged d)

  module _ (content : Bytes) (first second : List Text) (e f : ServiceError) (m : Machine) where
    strict_lem : IsInstallOf content first second true m (
        (do
          write_service faults runs is_print content
          run_command faults runs is_print e first
          run_command faults runs is_print f second)
          m)
    unfolding ◌>>=◌ continue run_command
    strict_lem =
        let (r, d, written, w) = written_or_not content m in
        subst
          (λ s. IsInstallOf content first second true m (
            continue s.0
              (λ _.
                run_command faults runs is_print e first
                >> run_command faults runs is_print f second)
              s.1))
          (sym written) (after r d w)
      where
        last :
            (d : Disk) (b : Bool)
            → d.files (at service_file) ≡ some content
            → runs (length m.ran) first ≡ true
            → runs (suc (length m.ran)) second ≡ b
            → IsInstallOf content first second true m
                (if b then ok tt else err f, record m { disk = d; ran = second ∷ first ∷ m.ran })
        last d true h k l = record { in_order = inr h; taken = inr (h, refl, inr k, l) }
        last d false h k l = record { in_order = inr h; taken = inl (λ q. ground arith) }

        decide :
            (d : Disk) (a : Bool)
            → d.files (at service_file) ≡ some content
            → runs (length m.ran) first ≡ a
            → IsInstallOf content first second true m (
                continue
                  (if a then ok tt else err e)
                  (λ _. run_command faults runs is_print f second)
                  (record m { disk = d; ran = first ∷ m.ran }))
        decide d true h k = last d _ h k refl
        decide d false h k = record { in_order = inr h; taken = inl (λ q. ground arith) }

        after :
            (r : Result ServiceError (Unit {0})) (d : Disk)
            → (r ≢ ok tt) ⊎ (d.files (at service_file) ≡ some content)
            → IsInstallOf content first second true m (
                continue r
                  (λ _.
                    run_command faults runs is_print e first
                    >> run_command faults runs is_print f second)
                  (record m { disk = d }))
        after (err x) d w = record { in_order = inl refl; taken = inl (λ h. ground arith) }
        after (ok u) d (inl n) = absurd (n refl)
        after (ok u) d (inr h) = decide d _ h refl

    lenient_lem : IsInstallOf content first second false m (
        (do
          write_service faults runs is_print content
          ignore (run_command faults runs is_print e first)
          run_command faults runs is_print f second)
          m)
    unfolding ◌>>=◌ continue run_command ignore
    lenient_lem =
        let (r, d, written, w) = written_or_not content m in
        subst
          (λ s. IsInstallOf content first second false m (
            continue s.0
              (λ _.
                ignore (run_command faults runs is_print e first)
                >> run_command faults runs is_print f second)
              s.1))
          (sym written) (after r d w)
      where
        decide :
            (d : Disk) (a b : Bool)
            → d.files (at service_file) ≡ some content
            → runs (length m.ran) first ≡ a
            → runs (suc (length m.ran)) second ≡ b
            → IsInstallOf content first second false m
                (if b then ok tt else err f, record m { disk = d; ran = second ∷ first ∷ m.ran })
        decide d a true h k l = record { in_order = inr h; taken = inr (h, refl, inl refl, l) }
        decide d a false h k l = record { in_order = inr h; taken = inl (λ q. ground arith) }

        after :
            (r : Result ServiceError (Unit {0})) (d : Disk)
            → (r ≢ ok tt) ⊎ (d.files (at service_file) ≡ some content)
            → IsInstallOf content first second false m (
                continue r
                  (λ _.
                    ignore (run_command faults runs is_print e first)
                    >> run_command faults runs is_print f second)
                  (record m { disk = d }))
        after (err x) d w = record { in_order = inl refl; taken = inl (λ h. ground arith) }
        after (ok u) d (inl n) = absurd (n refl)
        after (ok u) d (inr h) = decide d _ _ h refl refl

  -- What `InstallServiceDefinition` comes to on each system
  pub IsInstall : Text → Text → Machine → Result ServiceError (Unit {0}) × Machine → Type 0
  IsInstall goos home_dir m s =
      if text_eq goos (codes "darwin")
      then IsInstallOf (launchd_plist home_dir) (launchctl (codes "unload") home_dir)
          (launchctl (codes "load") home_dir) false m s
      else if text_eq goos (codes "linux")
      then IsInstallOf (systemd_user_unit is_print home_dir) reload_command enable_command true m s
      else s ≡ (err unsupported, m)

  -- Whatever call or command fails, `InstallServiceDefinition` runs no command before the system's definition is in
  -- place, and it succeeds only if that definition is in place and the two commands were run in their order, the
  -- second without an error, and the first too where it is `daemon-reload`. On another system it does nothing.
  pub install_service_definition-IsInstall :
      (goos home_dir : Text) (m : Machine)
      → IsInstall goos home_dir m (install_service_definition faults runs is_print goos home_dir m)
  unfolding install_service_definition install_launchd install_systemd IsInstall raise
  install_service_definition-IsInstall goos home_dir m =
      decide (text_eq goos (codes "darwin")) (text_eq goos (codes "linux"))
    where
      decide :
          (a b : Bool)
          → if a
            then IsInstallOf
                (launchd_plist home_dir)
                (launchctl (codes "unload") home_dir)
                (launchctl (codes "load") home_dir)
                false
                m
                ((if a
                    then install_launchd faults runs is_print home_dir
                    else if b
                    then install_systemd faults runs is_print home_dir
                    else raise unsupported)
                  m)
            else if b
            then IsInstallOf
                (systemd_user_unit is_print home_dir)
                reload_command
                enable_command
                true
                m
                ((if a
                    then install_launchd faults runs is_print home_dir
                    else if b
                    then install_systemd faults runs is_print home_dir
                    else raise unsupported)
                  m)
            else (if a
                  then install_launchd faults runs is_print home_dir
                  else if b
                  then install_systemd faults runs is_print home_dir
                  else raise unsupported)
                m
              ≡ (err unsupported, m)
      decide true b = lenient_lem _ _ _ _ _ m
      decide false true = strict_lem _ _ _ _ _ m
      decide false false = refl
