-- ===== src/Platform/Service/Gone.antt =====
-- What a removal of the service comes to: `RemoveServiceDefinitions` of internal/platform/service.go.
use distil_proxy.Base.{
  ℕ, ap, ◌+◌, ◌≡◌, ◌≢◌, refl, ◌⊎◌, inl, inr, Bool, true, false, Option, none, some, List, ◌∷◌,
  if◌then◌else◌, arith,
}
use distil_proxy.Base.Text.{Text, Bytes, codes, text_eq}
use distil_proxy.Disk.{
  Disk, Faults, Fault, IoError, not_exist, at, service_file, Result, ok, err, same_path, put,
  removed, remove,
}
use distil_proxy.Disk.Exec.{◌>>=◌, continue, ignore, attempt, pure, raise, lift}
use distil_proxy.Daemon.Run.Removed.{IsHonest}
use distil_proxy.Platform.Service.{
  Machine, ServiceError, launchctl, reload_command, disable_command, run_command, or_absent,
  remove_if_exists, remove_launchd, after_reload, remove_systemd, remove_service_definitions,
}

module _ (faults : Faults) (runs : ℕ → List Text → Bool) (is_print : ℕ → Bool) where
  -- The file is gone, or it is as it was and an error is returned. `ErrNotExist` from the system is no error, so
  -- a system that says it of a file that is there is believed.
  pub record IsGone (commands : List (List Text)) (m : Machine)
      (s : Result ServiceError (Unit {0}) × Machine) : Type 0 where
    pub ran : s.1.ran ≡ commands
    pub gone :
        (s.1.disk.files (at service_file) ≡ none)
        ⊎ ((s.1.disk.files (at service_file) ≡ m.disk.files (at service_file)) × (s.0 ≢ ok tt))

  module _ (honest : IsHonest faults) where
    failed :
        (e : IoError) (m : Machine) (d : Disk)
        → e ≢ not_exist
        → d.files (at service_file) ≡ m.disk.files (at service_file)
        → IsGone m.ran m (or_absent faults runs is_print (err e) (record m { disk = d }))
    unfolding or_absent raise
    failed not_exist m d h k = absurd (h refl)
    failed IoError.already_exists m d h k = record { ran = refl; gone = inr (k, λ q. ground arith) }
    failed IoError.not_empty m d h k = record { ran = refl; gone = inr (k, λ q. ground arith) }
    failed IoError.is_directory m d h k = record { ran = refl; gone = inr (k, λ q. ground arith) }
    failed IoError.not_directory m d h k = record { ran = refl; gone = inr (k, λ q. ground arith) }
    failed IoError.not_permitted m d h k = record { ran = refl; gone = inr (k, λ q. ground arith) }
    failed (IoError.other n) m d h k = record { ran = refl; gone = inr (k, λ q. ground arith) }

    present :
        (m : Machine) (o : Option Bytes)
        → m.disk.files (at service_file) ≡ o
        → let (r, d) =
            removed faults (at service_file) o (record m.disk { calls = m.disk.calls + 1 }) in
          IsGone m.ran m (or_absent faults runs is_print r (record m { disk = d }))
    unfolding or_absent pure put same_path
    present m none e = record { ran = refl; gone = inl e }
    present m (some c) e = record { ran = refl; gone = inl refl }

    removed_lem : (m : Machine) → IsGone m.ran m (remove_if_exists faults runs is_print m)
    unfolding remove_if_exists remove put
    removed_lem m = called (faults m.disk.calls) refl
      where
        called :
            (o : Option Fault)
            → faults m.disk.calls ≡ o
            → let (r, d) = remove faults (at service_file) m.disk in
              IsGone m.ran m (or_absent faults runs is_print r (record m { disk = d }))
        called (some f) e = rw (e, remove) (failed f.error m _ (honest _ f e) refl)
        called none e = rw (e, remove) (present m _ refl)

    launchd_lem :
        (home_dir : Text) (m : Machine)
        → IsGone
            (launchctl (codes "unload") home_dir ∷ m.ran)
            m
            (remove_launchd faults runs is_print home_dir m)
    unfolding remove_launchd run_command ignore ◌>>=◌ continue
    launchd_lem home_dir m =
        let g = removed_lem (record m { ran = launchctl (codes "unload") home_dir ∷ m.ran }) in
        record { ran = g.ran; gone = g.gone }

    systemd_lem :
        (m : Machine)
        → IsGone
            (reload_command ∷ disable_command ∷ m.ran)
            m
            (remove_systemd faults runs is_print m)
    unfolding remove_systemd after_reload run_command ignore attempt lift ◌>>=◌ continue
    systemd_lem m =
        let g = removed_lem (record m { ran = disable_command ∷ m.ran }) in
        record { ran = ap (λ l. reload_command ∷ l) g.ran; gone = g.gone }

    -- What `RemoveServiceDefinitions` comes to on each system
    unfoldable pub IsRemoval :
        Text → Text → Machine → Result ServiceError (Unit {0}) × Machine → Type 0
    IsRemoval goos home_dir m s =
        if text_eq goos (codes "darwin")
        then IsGone (launchctl (codes "unload") home_dir ∷ m.ran) m s
        else if text_eq goos (codes "linux")
        then IsGone (reload_command ∷ disable_command ∷ m.ran) m s
        else s ≡ (ok tt, m)

    -- Where no call fails as "no such file" on a file that is there, `RemoveServiceDefinitions` runs its commands whatever
    -- they answer, and either the definition is gone, or it is as it was and an error is returned. On
    -- another system it does nothing.
    pub remove_service_definitions-IsRemoval :
        (goos home_dir : Text) (m : Machine)
        → IsRemoval goos home_dir m
            (remove_service_definitions faults runs is_print goos home_dir m)
    unfolding remove_service_definitions IsRemoval pure
    remove_service_definitions-IsRemoval goos home_dir m =
        decide (text_eq goos (codes "darwin")) (text_eq goos (codes "linux"))
      where
        decide :
            (a b : Bool)
            → let s : Result ServiceError (Unit {0}) × Machine =
                (if a
                    then remove_launchd faults runs is_print home_dir
                    else if b
                    then remove_systemd faults runs is_print
                    else pure tt)
                  m in
              if a
              then IsGone (launchctl (codes "unload") home_dir ∷ m.ran) m s
              else if b
              then IsGone (reload_command ∷ disable_command ∷ m.ran) m s
              else s ≡ (ok tt, m)
        decide true b = launchd_lem home_dir m
        decide false true = systemd_lem m
        decide false false = refl
