-- ===== src/Upgrade/Manager/Outcome.antt =====
-- The outcomes of `CheckAndUpgrade`, internal/upgrade/manager.go.
use distil_proxy.Base.{
  ◌≡◌, refl, ap, ◌∙◌, ◌⊎◌, inl, inr, Bool, true, false, not, some, if◌then◌else◌, arith,
}
use distil_proxy.Base.Text.{Bytes, trim_space, equal_fold}
use distil_proxy.Disk.{Disk, Faults, at, binary, backup, Result, ok, err}
use distil_proxy.Disk.Exec.{Exec, ◌>>=◌, mapping, pure}
use distil_proxy.Disk.Leaves.{Leaves, Leaves-pure, Leaves-if, Leaves-bind, Leaves-mapping}
use distil_proxy.Disk.Success.{bind_ok, Leaves-run, mapping_ok}
use distil_proxy.Upgrade.Version.{is_newer_version}
use distil_proxy.Upgrade.Manager.{
  ManagerConfig, Release, ReleaseInfo, UpgradeError, installed_checksum, Checked, is_current,
  file_sha256, fetch_latest, needs_upgrade, apply_release, applied_of, act_on, check_release,
  check_and_upgrade,
}
use distil_proxy.Upgrade.Manager.Keeps.{file_sha256-Leaves}
use distil_proxy.Upgrade.Manager.Safe.{
  sha256_ok, IsVerified, IsRecoverable, apply_release-IsRecoverable, apply_release_ok,
}

module _ (faults : Faults) (net : Release) (cfg : ManagerConfig) where
  -- The release is newer, or it is the version that runs and the binary has another checksum.
  pub IsWanted : ReleaseInfo → Disk → Type 0
  IsWanted release d =
      (is_newer_version cfg.current_version release.version ≡ true)
      ⊎ ((is_current faults net cfg release.version ≡ true)
          × (c : Bytes) × (d.files (at binary) ≡ some c)
          × (equal_fold (net.sha256 c) (trim_space release.checksum_sha256) ≡ false))

  -- The release is in the binary's place, with its checksum, and the binary of before in the backup.
  unfoldable pub IsInstalled : ReleaseInfo → Disk → Disk → Type 0
  IsInstalled release d d' =
      (d'.files (at backup) ≡ d.files (at binary))
      × (c : Bytes) × (d'.files (at binary) ≡ some c)
      × IsVerified faults net cfg release c

  checked : ReleaseInfo → Exec UpgradeError Bool
  checked release = do
    checksum ← mapping installed_checksum (file_sha256 faults net cfg (at binary))
    pure (not (equal_fold checksum (trim_space release.checksum_sha256)))

  needs_upgrade-Leaves :
      (release : ReleaseInfo) → Leaves (at binary) (needs_upgrade faults net cfg release)
  unfolding needs_upgrade
  needs_upgrade-Leaves release =
      search (Leaves-pure, Leaves-if, Leaves-bind, Leaves-mapping, file_sha256-Leaves)

  checked_lem :
      (release : ReleaseInfo) (d d' : Disk)
      → checked release d ≡ (ok true, d')
      → (c : Bytes) × (d.files (at binary) ≡ some c)
        × (equal_fold (net.sha256 c) (trim_space release.checksum_sha256) ≡ false)
  unfolding checked pure
  checked_lem release d d' h =
      let (text, d1, e1, h1) = bind_ok _ _ true d d' h in
      let (c, b, s) =
        sha256_ok faults net cfg release (at binary) text d d1
          (mapping_ok installed_checksum _ text d d1 e1) in
      (c, b, ap (λ x. equal_fold x (trim_space release.checksum_sha256)) s ∙ ground arith)

  decide :
      (release : ReleaseInfo) (d d' : Disk) (n m : Bool)
      → is_newer_version cfg.current_version release.version ≡ n
      → is_current faults net cfg release.version ≡ m
      → (if n then pure true else (if not m then pure false else checked release)) d ≡ (ok true, d')
      → IsWanted release d
  unfolding IsWanted pure
  decide release d d' true m e f h = inl e
  decide release d d' false false e f h = ground arith
  decide release d d' false true e f h =
      (let (c, b, k) = checked_lem release d d' h in inr (f, c, b, k))

  needs_upgrade-IsWanted :
      (release : ReleaseInfo) (d d' : Disk)
      → needs_upgrade faults net cfg release d ≡ (ok true, d')
      → IsWanted release d
  unfolding needs_upgrade checked
  needs_upgrade-IsWanted release d d' h = decide release d d' _ _ refl refl h

  -- A run leaves the binary, or it takes a release that the endpoint offers and leaves a recoverable disk.
  pub IsSafe : Disk → Disk → Type 0
  IsSafe d d' =
      (d'.files (at binary) ≡ d.files (at binary))
      ⊎ ((release : ReleaseInfo) × (fetch_latest faults net cfg net.latest ≡ ok release)
          × (cfg.is_enabled ≡ true)
          × IsWanted release d
          × IsRecoverable faults net cfg release d d')

  IsRecoverable-before :
      (release : ReleaseInfo) (d d' d'' : Disk)
      → d'.files (at binary) ≡ d.files (at binary)
      → IsRecoverable faults net cfg release d' d''
      → IsRecoverable faults net cfg release d d''
  unfolding IsRecoverable
  IsRecoverable-before release d d' d'' e (inl h) = inl (h ∙ e)
  IsRecoverable-before release d d' d'' e (inr (h, k)) = inr (h ∙ e, k)

  unchanged :
      (release : ReleaseInfo) (d d' : Disk) (r : Result UpgradeError Bool)
      → needs_upgrade faults net cfg release d ≡ (r, d')
      → d'.files (at binary) ≡ d.files (at binary)
  unchanged release d d' r h = Leaves-run (at binary) _ r d d' (needs_upgrade-Leaves release) h

  enabled-IsSafe :
      (release : ReleaseInfo) (d d' : Disk) (b : Bool) (c : Checked)
      → fetch_latest faults net cfg net.latest ≡ ok release
      → IsWanted release d
      → d'.files (at binary) ≡ d.files (at binary)
      → cfg.is_enabled ≡ b
      → let s = apply_release faults net cfg release d' in
        IsSafe d
          (if◌then◌else◌ {A = Checked × Disk} b
            (applied_of faults net cfg release s.0, s.1)
            (c, d')).1
  unfolding IsSafe
  enabled-IsSafe release d d' true c f w u e = inr (
    release,
    f,
    e,
    w,
    IsRecoverable-before release d d' _ u (apply_release-IsRecoverable faults net cfg release d'),
  )
  enabled-IsSafe release d d' false c f w u e = inl u

  act-IsSafe :
      (release : ReleaseInfo) (d d' : Disk) (r : Result UpgradeError Bool)
      → fetch_latest faults net cfg net.latest ≡ ok release
      → needs_upgrade faults net cfg release d ≡ (r, d')
      → IsSafe d (act_on faults net cfg release r d').1
  unfolding act_on IsSafe
  act-IsSafe release d d' (err e) f h = inl (unchanged release d d' _ h)
  act-IsSafe release d d' (ok false) f h = inl (unchanged release d d' _ h)
  act-IsSafe release d d' (ok true) f h =
      enabled-IsSafe release d d' cfg.is_enabled _ f (needs_upgrade-IsWanted release d d' h)
        (unchanged release d d' _ h) refl

  IsSafe-after :
      (d : Disk) (r : Result UpgradeError ReleaseInfo)
      → fetch_latest faults net cfg net.latest ≡ r
      → IsSafe d (check_release faults net cfg r d).1
  unfolding check_release IsSafe
  IsSafe-after d (err e) f = inl refl
  IsSafe-after d (ok release) f = act-IsSafe release d _ _ f refl

  -- Whatever call fails, a check leaves the binary as it was, or upgrades are enabled, the endpoint offers a
  -- release that is wanted, and the binary as it was is in the backup while its place has nothing or a content
  -- of the release's checksum.
  pub check_and_upgrade-IsSafe : (d : Disk) → IsSafe d (check_and_upgrade faults net cfg d).1
  unfolding check_and_upgrade
  check_and_upgrade-IsSafe d = IsSafe-after d _ refl

  -- What `Applied: true` promises.
  unfoldable pub IsApplied : Disk → Disk → Type 0
  IsApplied d d' =
      (release : ReleaseInfo) × (fetch_latest faults net cfg net.latest ≡ ok release)
      × (cfg.is_enabled ≡ true)
      × IsWanted release d
      × IsInstalled release d d'

  apply_applied :
      (release : ReleaseInfo) (d : Disk) (s : Result UpgradeError (Unit {0}) × Disk)
      → apply_release faults net cfg release d ≡ s
      → (applied_of faults net cfg release s.0).result.is_applied ≡ true
      → IsInstalled release d s.1
  unfolding applied_of IsInstalled
  apply_applied release d (ok tt, d') h a =
      let (b, c, t, v) = apply_release_ok faults net cfg release d d' h in (b, c, t, v)
  apply_applied release d (err e, d') h a = ground arith

  IsInstalled-before :
      (release : ReleaseInfo) (d d' d'' : Disk)
      → d'.files (at binary) ≡ d.files (at binary)
      → IsInstalled release d' d''
      → IsInstalled release d d''
  unfolding IsInstalled
  IsInstalled-before release d d' d'' e (b, c, t, v) = (b ∙ e, c, t, v)

  enabled_applied :
      (release : ReleaseInfo) (d d' : Disk) (b : Bool) (c : Checked)
      → c.result.is_applied ≡ false
      → let s = apply_release faults net cfg release d' in
        let t =
          if◌then◌else◌ {A = Checked × Disk} b
            (applied_of faults net cfg release s.0, s.1)
            (c, d') in
        t.0.result.is_applied ≡ true → (b ≡ true) × IsInstalled release d' t.1
  enabled_applied release d d' true c e a = (refl, apply_applied release d' _ refl a)
  enabled_applied release d d' false c e a = ground arith

  act-IsApplied :
      (release : ReleaseInfo) (d d' : Disk) (r : Result UpgradeError Bool)
      → fetch_latest faults net cfg net.latest ≡ ok release
      → needs_upgrade faults net cfg release d ≡ (r, d')
      → (act_on faults net cfg release r d').0.result.is_applied ≡ true
      → IsApplied d (act_on faults net cfg release r d').1
  unfolding act_on IsApplied
  act-IsApplied release d d' (err e) f h a = ground arith
  act-IsApplied release d d' (ok false) f h a = ground arith
  act-IsApplied release d d' (ok true) f h a =
      let (e, i) = enabled_applied release d d' cfg.is_enabled _ refl a in
      (
        release,
        f,
        e,
        needs_upgrade-IsWanted release d d' h,
        IsInstalled-before release d d' _ (unchanged release d d' _ h) i,
      )

  IsApplied-after :
      (d : Disk) (r : Result UpgradeError ReleaseInfo)
      → fetch_latest faults net cfg net.latest ≡ r
      → (check_release faults net cfg r d).0.result.is_applied ≡ true
      → IsApplied d (check_release faults net cfg r d).1
  unfolding check_release IsApplied
  IsApplied-after d (err e) f a = ground arith
  IsApplied-after d (ok release) f a = act-IsApplied release d _ _ f refl a

  -- A check that reports an applied upgrade has, with upgrades enabled, put a wanted release of the endpoint in
  -- the binary's place, with the release's checksum, and the binary of before in the backup.
  pub check_and_upgrade-IsApplied :
      (d : Disk)
      → (check_and_upgrade faults net cfg d).0.result.is_applied ≡ true
      → IsApplied d (check_and_upgrade faults net cfg d).1
  unfolding check_and_upgrade
  check_and_upgrade-IsApplied d a = IsApplied-after d _ refl a
