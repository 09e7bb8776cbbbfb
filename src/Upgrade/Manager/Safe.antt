-- ===== src/Upgrade/Manager/Safe.antt =====
-- What an upgrade leaves on the disk, whatever call fails: `CheckAndUpgrade` of
-- internal/upgrade/manager.go.
use distil_proxy.Base.{◌≡◌, refl, ap, ◌∙◌, ◌⊎◌, inl, inr, true, none, some, arith}
use distil_proxy.Base.Text.{Text, Bytes, trim_space, equal_fold}
use distil_proxy.Disk.{
  Disk, Faults, FilePath, touch, at, tmp, binary, temp_binary, backup, Result, ok, err, same_path,
}
use distil_proxy.Disk.Exec.{◌>>=◌, continue, mapping, pure, raise}
use distil_proxy.Disk.Leaves.{Leaves, Leaves-mapping, Leaves-touch, Leaves-bind}
use distil_proxy.Disk.Success.{bind_ok, bind-files, Leaves-run, mapping_ok, read_file_ok}
use distil_proxy.Upgrade.Manager.{
  ManagerConfig, Release, ReleaseInfo, UpgradeError, io, file_sha256, replace_file, verify, prepare,
  install, apply_release,
}
use distil_proxy.Upgrade.Manager.Keeps.{
  replace_file-Leaves, prepare-Leaves, mark_upgrade-Leaves, save_download-Leaves,
  file_sha256-Leaves, verify-Leaves, copy_file-Leaves,
}
use distil_proxy.Upgrade.Manager.Replace.{replace_file-target, replaced, copy_file_ok}

module _ (faults : Faults) (net : Release) (cfg : ManagerConfig) (release : ReleaseInfo) where
  -- The content has the release's checksum.
  pub IsVerified : Bytes → Type 0
  IsVerified c = equal_fold (net.sha256 c) (trim_space release.checksum_sha256) ≡ true

  verified_lem :
      (text : Text) (d d' : Disk)
      → verify faults net cfg release text d ≡ (ok tt, d')
      → equal_fold text (trim_space release.checksum_sha256) ≡ true
  unfolding verify pure raise
  verified_lem text d d' h = ground arith

  pub sha256_ok :
      (p : FilePath) (text : Text) (d d' : Disk)
      → file_sha256 faults net cfg p d ≡ (ok text, d')
      → (c : Bytes) × (d.files p ≡ some c) × (net.sha256 c ≡ text)
  unfolding file_sha256 pure
  sha256_ok p text d d' h =
      let (c, d1, e1, h1) = bind_ok _ _ text d d' h in
      (c, read_file_ok faults d d1 p c e1, ground arith)

  -- A preparation that succeeds leaves a verified download and a copy of the binary.
  prepare_ok :
      (d d' : Disk)
      → prepare faults net cfg release d ≡ (ok tt, d')
      → (d'.files (at backup) ≡ d.files (at binary))
        × (c : Bytes) × (d'.files (at temp_binary) ≡ some c)
        × IsVerified c
  unfolding prepare same_path IsVerified
  prepare_ok d d' h =
      let (_, d1, e1, h1) = bind_ok _ _ tt d d' h in
      let (text, d2, e2, h2) = bind_ok _ _ tt d1 d' h1 in
      let (_, d3, e3, h3) = bind_ok _ _ tt d2 d' h2 in
      let (_, d4, e4, h4) = bind_ok _ _ tt d3 d' h3 in
      let e4' = mapping_ok io _ tt d3 d4 e4 in
      let (c, t, s) = sha256_ok (at temp_binary) text d1 d2 (mapping_ok io _ text d1 d2 e2) in
      (
        Leaves-run (at backup) _ _ d4 d'
              (mark_upgrade-Leaves faults net cfg (at backup) release refl refl) h4
            ∙ copy_file_ok faults (at binary) (tmp backup) (at backup) refl refl refl refl d3 d4 e4'
            ∙ Leaves-run (at binary) _ _ d2 d3
                (verify-Leaves faults net cfg (at binary) release text) e3
            ∙ Leaves-run (at binary) _ _ d1 d2
                (Leaves-mapping (at binary) io _
                  (file_sha256-Leaves faults net cfg (at binary) (at temp_binary)))
                e2
            ∙ Leaves-run (at binary) _ _ d d1
                (save_download-Leaves faults net cfg (at binary) _ refl refl) e1,
        c,
        Leaves-run (at temp_binary) _ _ d4 d'
              (mark_upgrade-Leaves faults net cfg (at temp_binary) release refl refl) h4
            ∙ Leaves-run (at temp_binary) _ _ d3 d4
                (copy_file-Leaves faults (at temp_binary) (at binary) (tmp backup) (at backup) refl
                  refl)
                e4'
            ∙ Leaves-run (at temp_binary) _ _ d2 d3
                (verify-Leaves faults net cfg (at temp_binary) release text) e3
            ∙ Leaves-run (at temp_binary) _ _ d1 d2
                (Leaves-mapping (at temp_binary) io _
                  (file_sha256-Leaves faults net cfg (at temp_binary) (at temp_binary)))
                e2
            ∙ t,
        ap (λ x. equal_fold x (trim_space release.checksum_sha256)) s
            ∙ (verified_lem text d2 d3 e3),
      )

  -- What a disk may be after an attempt to install the release: the binary is as it was; or the backup holds
  -- the binary as it was, and the binary is gone or has the release's checksum.
  unfoldable pub IsRecoverable : Disk → Disk → Type 0
  IsRecoverable d d' =
      (d'.files (at binary) ≡ d.files (at binary))
      ⊎ ((d'.files (at backup) ≡ d.files (at binary))
          × ((d'.files (at binary) ≡ none)
              ⊎ ((c : Bytes) × (d'.files (at binary) ≡ some c) × IsVerified c)))

  touch-Leaves : (p : FilePath) → Leaves {E = UpgradeError} p (mapping io (touch faults))
  touch-Leaves p = Leaves-mapping p io _ (Leaves-touch faults p)

  install-target :
      (d : Disk)
      → let d' = (install faults net cfg d).1 in
        (d'.files (at binary) ≡ d.files (at binary))
        ⊎ (d'.files (at binary) ≡ none)
        ⊎ (d'.files (at binary) ≡ d.files (at temp_binary))
  unfolding install same_path mapping
  install-target d =
      let e =
        bind-files (at binary) (mapping io (replace_file faults (at temp_binary) (at binary))) _
          (λ _. touch-Leaves (at binary)) d in
      elim (replace_file-target faults (at temp_binary) (at binary) refl refl refl d) [
        | inl h ↦ inl (e ∙ h)
        | inr (inl h) ↦ inr (inl (e ∙ h))
        | inr (inr h) ↦ inr (inr (e ∙ h))
      ]

  install-Leaves-backup : Leaves (at backup) (install faults net cfg)
  unfolding install same_path
  install-Leaves-backup =
      Leaves-bind (at backup) _ _
        (Leaves-mapping (at backup) io _
          (replace_file-Leaves faults (at backup) (at temp_binary) (at binary) refl refl))
        (λ _. touch-Leaves (at backup))

  apply_after :
      (d : Disk) (s : Result UpgradeError (Unit {0}) × Disk)
      → prepare faults net cfg release d ≡ s
      → IsRecoverable d (continue s.0 (λ _. install faults net cfg) s.1).1
  unfolding continue IsRecoverable same_path
  apply_after d (err x, d') e = inl (
      Leaves-run (at binary) _ _ d d'
        (prepare-Leaves faults net cfg (at binary) release refl refl refl refl refl refl) e)
  apply_after d (ok tt, d') e =
      let (b, c, t, v) = prepare_ok d d' e in
      let b' = install-Leaves-backup.kept d' ∙ b in
      elim (install-target d') [
        | inl h ↦ inl (
            h
            ∙ Leaves-run (at binary) _ _ d d'
                (prepare-Leaves faults net cfg (at binary) release refl refl refl refl refl refl) e)
        | inr (inl h) ↦ inr (b', inl h)
        | inr (inr h) ↦ inr (b', inr (c, h ∙ t, v))
      ]

  -- Whatever call fails, an attempt to install the release leaves a disk with the binary as it was, or with the
  -- binary as it was in the backup and in its place nothing or a content of the release's checksum.
  pub apply_release-IsRecoverable :
      (d : Disk) → IsRecoverable d (apply_release faults net cfg release d).1
  unfolding apply_release ◌>>=◌
  apply_release-IsRecoverable d = apply_after d _ refl

  -- An installation that succeeds has put a content of the release's checksum in the binary's place, and the
  -- binary that was there in the backup.
  pub apply_release_ok :
      (d d' : Disk)
      → apply_release faults net cfg release d ≡ (ok tt, d')
      → (d'.files (at backup) ≡ d.files (at binary))
        × (c : Bytes) × (d'.files (at binary) ≡ some c)
        × IsVerified c
  unfolding apply_release install same_path
  apply_release_ok d d' h =
      let (_, d1, e1, h1) = bind_ok (prepare faults net cfg release) _ tt d d' h in
      let (b, c, t, v) = prepare_ok d d1 e1 in
      let (_, d2, e2, h2) = bind_ok _ _ tt d1 d' h1 in
      (
        Leaves-run (at backup) _ _ d1 d' install-Leaves-backup h1 ∙ b,
        c,
        Leaves-run (at binary) _ _ d2 d' (touch-Leaves (at binary)) h2
            ∙ replaced faults d1 d2 (at temp_binary) (at binary) refl refl refl
                (mapping_ok io _ tt d1 d2 e2)
            ∙ t,
        v,
      )
