-- ===== src/Upgrade/Manager/Replace.antt =====
-- What `replaceFile` and `copyFile` do to their target.
use distil_proxy.Base.{◌≡◌, sym, ap, ◌∙◌, ◌⊎◌, true, false, none, arith}
use distil_proxy.Base.Text.{is_some}
use distil_proxy.Disk.{Disk, Faults, FilePath, ok, same_path, put, rename, remove}
use distil_proxy.Disk.Success.{bind_ok, read_file_ok, write_file_ok, touch-files}
use distil_proxy.Disk.Exec.{◌>>=◌, continue, attempt, pure, raise}
use distil_proxy.Upgrade.Manager.{replace_again, retry_replace, replace_file, copy_file}

module _ (faults : Faults) (src dst : FilePath) (apart : same_path src dst ≡ false)
    (apart' : same_path dst src ≡ false) (self : same_path dst dst ≡ true) where
  -- The target is untouched, gone, or what the source was.
  pub replace_file-target :
      (d : Disk)
      → let d' = (replace_file faults src dst d).1 in
        (d'.files dst ≡ d.files dst) ⊎ (d'.files dst ≡ none) ⊎ (d'.files dst ≡ d.files src)
  unfolding replace_file retry_replace replace_again rename remove put ◌>>=◌ continue attempt pure
      raise
  replace_file-target d = ground arith

  pub replace_file_ok :
      (d : Disk)
      → (replace_file faults src dst d).0 ≡ ok tt
      → (replace_file faults src dst d).1.files dst ≡ d.files src
  unfolding replace_file retry_replace replace_again rename remove put ◌>>=◌ continue attempt pure
      raise
  replace_file_ok d h = ground arith

  pub replace_file_some :
      (d : Disk) → (replace_file faults src dst d).0 ≡ ok tt → is_some (d.files src) ≡ true
  unfolding replace_file retry_replace replace_again rename remove put ◌>>=◌ continue attempt pure
      raise
  replace_file_some d h = ground arith

module _ (faults : Faults) (d d' : Disk) where
  pub replaced :
      (src dst : FilePath)
      → same_path src dst ≡ false
      → same_path dst src ≡ false
      → same_path dst dst ≡ true
      → replace_file faults src dst d ≡ (ok tt, d')
      → d'.files dst ≡ d.files src
  replaced src dst a1 a2 self h =
      sym (ap (λ r. r.1.files dst) h)
      ∙ replace_file_ok faults src dst a1 a2 self d (ap (λ r. r.0) h)

module _ (faults : Faults) (src tmp_dst dst : FilePath) (a1 : same_path tmp_dst dst ≡ false)
    (a2 : same_path dst tmp_dst ≡ false) (self : same_path dst dst ≡ true)
    (self' : same_path tmp_dst tmp_dst ≡ true) where
  -- A copy that succeeds holds what the source held.
  pub copy_file_ok :
      (d d' : Disk) → copy_file faults src tmp_dst dst d ≡ (ok tt, d') → d'.files dst ≡ d.files src
  unfolding copy_file
  copy_file_ok d d' h =
      let (c, d1, e1, h1) = bind_ok _ _ tt d d' h in
      let (_, d2, e2, h2) = bind_ok _ _ tt d1 d' h1 in
      let (u, d3, e3, h3) = bind_ok _ _ tt d2 d' h2 in
      replaced faults d3 d' tmp_dst dst a1 a2 self h3
      ∙ touch-files faults d2 d3 tmp_dst u e3
      ∙ write_file_ok faults d1 d2 tmp_dst c self' e2
      ∙ sym (read_file_ok faults d d1 src c e1)
