-- ===== src/Upgrade/Manager/Calm.antt =====
-- What the steps of a start do where no call fails: internal/upgrade/manager.go.
use distil_proxy.Base.{ℕ, ◌+◌, ◌≡◌, true, false, none, some, [], ◌∷◌, ◌++◌, arith}
use distil_proxy.Base.Text.{Bytes}
use distil_proxy.Disk.{
  Disk, Faults, at, binary, backup, upgrade_state, ok, same_path, put, read_file, write_file,
  rename, remove,
}
use distil_proxy.Disk.Exec.{pure, lift, ◌>>=◌, continue, attempt, mapping, wrap, ignore}
use distil_proxy.Base.{true, false, if◌then◌else◌}
use distil_proxy.Base.Int.{◌-ℤ◌, ltb_ℤ}
use distil_proxy.Disk.Exec.{Exec, ◌>>◌}
use distil_proxy.Upgrade.Manager.{
  UpgradeError, is_current, ManagerConfig, Release, UpgradeState, load_state, save_state,
  clear_state, settle_upgrade, roll_back, startup_of, or_no_state, handle_startup, shutdown_of,
  mark_clean_shutdown, replace_file, retry_replace,
}

-- No call fails.
abbrev pub calm : Faults
calm = λ _. none

abbrev counted : ℕ → Disk → Disk
counted n d = record d { calls = d.calls + n }

module _ (net : Release) (cfg : ManagerConfig) where
  -- A start without faults, where the file holds the state.
  pub startup_from :
      (s : UpgradeState) (c : Bytes) (d : Disk)
      → d.files (at upgrade_state) ≡ some c
      → net.decode_state c ≡ some s
      → handle_startup calm net cfg d ≡ startup_of calm net cfg s (counted 1 d)
  unfolding handle_startup load_state or_no_state read_file lift attempt mapping wrap ◌>>=◌ continue
  startup_from s c d e f = rw (e, handle_startup) (rw f)

  then_lem :
      {A B : Type 0} (m : Exec UpgradeError A) (a : A) (b : B) (d : Disk)
      → (m d).0 ≡ ok a
      → (do m; pure b) d ≡ (ok b, (m d).1)
  unfolding ◌>>=◌ continue pure
  then_lem m a b d e = rw e

  -- The branches of `HandleStartup` for an upgrade to this version.
  pub startup_first :
      (s : UpgradeState) (d : Disk)
      → is_current calm net cfg s.to_version ≡ true
      → s.started_once ≡ false
      → let s' = record s {
        started_once = true;
        started_at = net.now d.calls;
        clean_shutdown = false;
      } in
        (save_state calm net cfg s' d).0 ≡ ok tt
        → startup_of calm net cfg s d ≡ (ok false, (save_state calm net cfg s' d).1)
  unfolding startup_of
  startup_first s d e f h = rw (e, startup_of) (rw f (then_lem _ tt false d h))

  pub startup_clean :
      (s : UpgradeState) (d : Disk)
      → is_current calm net cfg s.to_version ≡ true
      → s.started_once ≡ true
      → s.clean_shutdown ≡ true
      → startup_of calm net cfg s d ≡ settle_upgrade calm net cfg d
  unfolding startup_of
  startup_clean s d e f g = rw (e, startup_of) (rw f (rw g))

  pub startup_again :
      (s : UpgradeState) (d : Disk)
      → is_current calm net cfg s.to_version ≡ true
      → s.started_once ≡ true
      → s.clean_shutdown ≡ false
      → startup_of calm net cfg s d ≡ (
          if ltb_ℤ (net.now d.calls -ℤ s.started_at) cfg.rollback_window
          then roll_back calm net cfg d
          else settle_upgrade calm net cfg d)
  unfolding startup_of
  startup_again s d e f g = rw (e, startup_of) (rw f (rw g))

  pub shutdown_first :
      (s : UpgradeState) (d : Disk)
      → is_current calm net cfg s.to_version ≡ true
      → s.started_once ≡ true
      → s.clean_shutdown ≡ false
      → shutdown_of calm net cfg s d
        ≡ save_state calm net cfg (record s { clean_shutdown = true }) d
  unfolding shutdown_of
  shutdown_first s d e f g = rw (f, shutdown_of) (rw e (rw g))

  pub shutdown_from :
      (s : UpgradeState) (c : Bytes) (d : Disk)
      → d.files (at upgrade_state) ≡ some c
      → net.decode_state c ≡ some s
      → mark_clean_shutdown calm net cfg d ≡ shutdown_of calm net cfg s (counted 1 d)
  unfolding mark_clean_shutdown load_state or_no_state read_file lift attempt mapping wrap ◌>>=◌
      continue
  shutdown_from s c d e f = rw (e, mark_clean_shutdown) (rw f)

  -- A state that is saved without faults is in the file.
  pub save_calm :
      (s : UpgradeState) (c : Bytes) (d : Disk)
      → net.encode_state s ≡ some c
      → ((save_state calm net cfg s d).0 ≡ ok tt)
        × ((save_state calm net cfg s d).1.files (at upgrade_state) ≡ some (c ++ (10 ∷ [])))
  unfolding save_state replace_file retry_replace write_file rename lift attempt mapping wrap pure
      put same_path ◌>>=◌ continue
  save_calm s c d e = ground arith

  pub roll_back-calm :
      (old : Bytes) (d : Disk)
      → d.files (at backup) ≡ some old
      → ((roll_back calm net cfg d).0 ≡ ok true)
        × ((roll_back calm net cfg d).1.files (at binary) ≡ some old)
        × ((roll_back calm net cfg d).1.files (at backup) ≡ none)
        × ((roll_back calm net cfg d).1.files (at upgrade_state) ≡ none)
  unfolding roll_back clear_state replace_file retry_replace rename remove attempt mapping wrap pure
      put ignore same_path ◌>>=◌ continue
  roll_back-calm old d e = ground arith

  pub settle_calm :
      (d : Disk)
      → ((settle_upgrade calm net cfg d).0 ≡ ok false)
        × ((settle_upgrade calm net cfg d).1.files (at binary) ≡ d.files (at binary))
        × ((settle_upgrade calm net cfg d).1.files (at backup) ≡ none)
        × ((settle_upgrade calm net cfg d).1.files (at upgrade_state) ≡ none)
  unfolding settle_upgrade clear_state remove pure put ignore same_path ◌>>=◌ continue
  settle_calm d = ground arith
