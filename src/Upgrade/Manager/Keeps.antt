-- ===== src/Upgrade/Manager/Keeps.antt =====
-- Which files the steps of an upgrade leave alone.
use distil_proxy.Base.{◌≡◌, false}
use distil_proxy.Base.Text.{Text, Bytes}
use distil_proxy.Disk.{
  Faults, FilePath, at, tmp, upgrade_state, temp_binary, backup, IoError, Result, ok, err,
  same_path,
}
use distil_proxy.Disk.Leaves.{
  Leaves, Leaves-pure, Leaves-raise, Leaves-lift, Leaves-if, Leaves-bind, Leaves-mapping,
  Leaves-ignore, Leaves-attempt, Leaves-state, Leaves-read_file, Leaves-touch, Leaves-write_file,
  Leaves-remove, Leaves-rename,
}
use distil_proxy.Upgrade.Manager.{
  ManagerConfig, Release, ReleaseInfo, UpgradeState, replace_again, retry_replace, replace_file,
  copy_file, save_state, file_sha256, save_download, store_download, verify, mark_upgrade, prepare,
  Answer, answered, unanswered,
}

ruleset leaves_rules = (
  Leaves-pure, Leaves-raise, Leaves-lift, Leaves-if, Leaves-bind, Leaves-mapping, Leaves-ignore,
  Leaves-attempt, Leaves-read_file, Leaves-touch, Leaves-write_file, Leaves-remove, Leaves-rename,
)

module _ (faults : Faults) (p : FilePath) where
  module _ (src dst : FilePath) (h : same_path src p ≡ false) (k : same_path dst p ≡ false) where
    replace_again-Leaves :
        (r : Result IoError (Unit {0})) → Leaves p (replace_again faults src dst r)
    unfolding replace_again
    replace_again-Leaves (ok _) = Leaves-rename faults p src dst h k
    replace_again-Leaves (err e) = search (leaves_rules)

    retry_replace-Leaves :
        (r : Result IoError (Unit {0})) → Leaves p (retry_replace faults src dst r)
    unfolding retry_replace
    retry_replace-Leaves (ok _) = Leaves-pure p tt
    retry_replace-Leaves (err e) = search (leaves_rules, replace_again-Leaves)

    pub replace_file-Leaves : Leaves p (replace_file faults src dst)
    unfolding replace_file
    replace_file-Leaves = search (leaves_rules, retry_replace-Leaves)

  pub copy_file-Leaves :
      (src tmp_dst dst : FilePath)
      → same_path tmp_dst p ≡ false
      → same_path dst p ≡ false
      → Leaves p (copy_file faults src tmp_dst dst)
  unfolding copy_file
  copy_file-Leaves src tmp_dst dst h k = search (leaves_rules, replace_file-Leaves)

module _ (faults : Faults) (net : Release) (cfg : ManagerConfig) where
  pub save_state-Leaves :
      (p : FilePath) (state : UpgradeState)
      → same_path (tmp upgrade_state) p ≡ false
      → same_path (at upgrade_state) p ≡ false
      → Leaves p (save_state faults net cfg state)
  unfolding save_state
  save_state-Leaves p state h k = search (leaves_rules, replace_file-Leaves)

  pub file_sha256-Leaves : (p q : FilePath) → Leaves p (file_sha256 faults net cfg q)
  unfolding file_sha256
  file_sha256-Leaves p q = search leaves_rules

  pub verify-Leaves :
      (p : FilePath) (r : ReleaseInfo) (c : Text) → Leaves p (verify faults net cfg r c)
  unfolding verify
  verify-Leaves p r c = search leaves_rules

  store_download-Leaves :
      (p : FilePath) (body : Bytes)
      → same_path (tmp temp_binary) p ≡ false
      → same_path (at temp_binary) p ≡ false
      → Leaves p (store_download faults net cfg body)
  unfolding store_download
  store_download-Leaves p body h k = search (leaves_rules, replace_file-Leaves)

  pub save_download-Leaves :
      (p : FilePath) (a : Answer Bytes)
      → same_path (tmp temp_binary) p ≡ false
      → same_path (at temp_binary) p ≡ false
      → Leaves p (save_download faults net cfg a)
  unfolding save_download
  save_download-Leaves p (unanswered e) h k = Leaves-raise p _
  save_download-Leaves p (answered status body) h k = search (leaves_rules, store_download-Leaves)

  pub mark_upgrade-Leaves :
      (p : FilePath) (r : ReleaseInfo)
      → same_path (tmp upgrade_state) p ≡ false
      → same_path (at upgrade_state) p ≡ false
      → Leaves p (mark_upgrade faults net cfg r)
  unfolding mark_upgrade
  mark_upgrade-Leaves p r h k = Leaves-state p _ λ d. save_state-Leaves p _ h k

  -- The preparation writes the download, the backup and the state.
  pub prepare-Leaves :
      (p : FilePath) (r : ReleaseInfo)
      → same_path (tmp temp_binary) p ≡ false
      → same_path (at temp_binary) p ≡ false
      → same_path (tmp backup) p ≡ false
      → same_path (at backup) p ≡ false
      → same_path (tmp upgrade_state) p ≡ false
      → same_path (at upgrade_state) p ≡ false
      → Leaves p (prepare faults net cfg r)
  unfolding prepare
  prepare-Leaves p r h1 h2 h3 h4 h5 h6 =
      search
        (
          leaves_rules, save_download-Leaves, file_sha256-Leaves, verify-Leaves, copy_file-Leaves,
          mark_upgrade-Leaves,
        )
        depth 10
