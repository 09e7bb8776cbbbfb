-- ===== src/Upgrade/Manager.antt =====
-- internal/upgrade/manager.go. The version endpoint, the download, SHA-256, the JSON codec and the
-- clock are the parameter `Release`; the files are those of `Disk`.
pub mod Keeps
pub mod Replace
pub mod Safe
pub mod Outcome
pub mod Startup
pub mod Calm
pub mod Pending
pub mod Crash
use distil_proxy.Base.{
  ℕ, Bool, true, false, ◌||◌, not, Option, none, some, [], ◌∷◌, ◌++◌, if◌then◌else◌,
}
use distil_proxy.Base.Int.{ℤ, pos, ◌-ℤ◌, eqb_ℤ, ltb_ℤ, leb_ℤ}
use distil_proxy.Base.Text.{Text, Bytes, codes, text_eq, trim_space, equal_fold, is_empty}
use distil_proxy.Disk.{
  Disk, Faults, FilePath, at, tmp, upgrade_state, binary, temp_binary, backup, IoError, not_exist,
  already_exists, not_empty, is_directory, not_directory, not_permitted, Result, ok, err, read_file,
  write_file, remove, rename, touch,
}
use distil_proxy.Disk.Exec.{Exec, pure, raise, lift, ◌>>=◌, ◌>>◌, mapping, ignore, attempt}
use distil_proxy.Upgrade.Version.{normalize_version, is_newer_version}

-- The settings that the manager's methods read. The paths are those of `Disk.Place`.
pub record ManagerConfig : Type 0 where
  pub is_enabled : Bool
  pub current_version : Text
  pub rollback_window : ℤ
  pub check_interval : ℤ

abbrev pub default_rollback_window : ℕ
default_rollback_window = 10_000_000_000

abbrev pub default_check_interval : ℕ
default_check_interval = 21_600_000_000_000

-- `NewManager`, of the settings above
unfoldable pub new_manager : ManagerConfig → ManagerConfig
new_manager cfg = record cfg {
  rollback_window =
      if leb_ℤ cfg.rollback_window (pos 0)
      then pos default_rollback_window
      else cfg.rollback_window;
  check_interval =
      if leb_ℤ cfg.check_interval (pos 0) then pos default_check_interval else cfg.check_interval;
}

pub record ReleaseInfo : Type 0 where
  pub version : Text
  pub download_url : Text
  pub checksum_sha256 : Text

-- Times are nanoseconds from a fixed day.
pub record UpgradeState : Type 0 where
  pub upgraded_at : ℤ
  pub from_version : Text
  pub to_version : Text
  pub started_once : Bool
  pub started_at : ℤ
  pub clean_shutdown : Bool

pub record CheckResult : Type 0 where
  pub available_version : Text
  pub is_applied : Bool

pub data UpgradeError : Type 0 where
  io : IoError → UpgradeError
  json_error : UpgradeError
  request_failed : Text → UpgradeError
  bad_status : ℤ → UpgradeError
  invalid_release : UpgradeError
  checksum_mismatch : UpgradeError
  installed_checksum : IoError → UpgradeError
  rollback_failed : IoError → UpgradeError

-- The result that `CheckAndUpgrade` returns, beside its error.
pub record Checked : Type 0 where
  pub result : CheckResult
  pub error : Option UpgradeError

pub data Answer (A : Type 0) : Type 0 where
  answered : ℤ → A → Answer A
  unanswered : Text → Answer A

pub record Release : Type 0 where
  -- the endpoint's status and its decoded body, if it is JSON
  pub latest : Answer (Option ReleaseInfo)
  -- the status of the download and what arrives of it
  pub download : Text → Answer Bytes
  pub sha256 : Bytes → Text
  pub encode_state : UpgradeState → Option Bytes
  pub decode_state : Bytes → Option UpgradeState
  pub now : ℕ → ℤ

-- `shouldRetryReplace`
unfoldable pub should_retry_replace : IoError → Bool
should_retry_replace not_exist = false
should_retry_replace already_exists = true
should_retry_replace not_empty = true
should_retry_replace is_directory = true
should_retry_replace not_directory = true
should_retry_replace not_permitted = true
should_retry_replace (IoError.other _) = false

abbrev pub is_not_exist : IoError → Bool
is_not_exist not_exist = true
is_not_exist _ = false

module _ (faults : Faults) where
  -- `os.Remove(dst)` and `os.Rename(src, dst)` once more
  unfoldable pub replace_again :
      FilePath → FilePath → Result IoError (Unit {0}) → Exec IoError (Unit {0})
  replace_again src dst (ok _) = rename faults src dst
  replace_again src dst (err e) = if is_not_exist e then rename faults src dst else raise e

  unfoldable pub retry_replace :
      FilePath → FilePath → Result IoError (Unit {0}) → Exec IoError (Unit {0})
  retry_replace src dst (ok _) = pure tt
  retry_replace src dst (err e) =
      if should_retry_replace e
      then (do r ← attempt (remove faults dst); replace_again src dst r)
      else raise e

  -- `replaceFile`
  unfoldable pub replace_file : FilePath → FilePath → Exec IoError (Unit {0})
  replace_file src dst = do r ← attempt (rename faults src dst); retry_replace src dst r

  -- `copyFile`: the target is written beside its place, closed, and moved.
  unfoldable pub copy_file : FilePath → FilePath → FilePath → Exec IoError (Unit {0})
  copy_file src tmp_dst dst = do
    content ← read_file faults src
    write_file faults tmp_dst content
    touch faults
    replace_file tmp_dst dst

module _ (faults : Faults) (net : Release) (cfg : ManagerConfig) where
  abbrev decoded : Option UpgradeState → Result UpgradeError UpgradeState
  decoded none = err json_error
  decoded (some state) = ok state

  unfoldable pub load_state : Exec UpgradeError UpgradeState
  load_state = do
    content ← mapping io (read_file faults (at upgrade_state))
    lift (decoded (net.decode_state content))

  abbrev encoded : Option Bytes → Result UpgradeError Bytes
  encoded none = err json_error
  encoded (some content) = ok (content ++ (10 ∷ []))

  unfoldable pub save_state : UpgradeState → Exec UpgradeError (Unit {0})
  save_state state = do
    content ← lift (encoded (net.encode_state state))
    mapping io (write_file faults (tmp upgrade_state) content)
    mapping io (replace_file faults (tmp upgrade_state) (at upgrade_state))

  -- The error of `clearState` is dropped by all its callers.
  unfoldable pub clear_state : Exec UpgradeError (Unit {0})
  clear_state = ignore (remove faults (at upgrade_state))

  abbrev pub is_current : Text → Bool
  is_current version = text_eq (normalize_version version) (normalize_version cfg.current_version)

  -- `_ = m.clearState()`, `_ = os.Remove(m.cfg.BackupPath)`
  unfoldable pub settle_upgrade : Exec UpgradeError Bool
  settle_upgrade = do clear_state; ignore (remove faults (at backup)); pure false

  unfoldable pub roll_back : Exec UpgradeError Bool
  roll_back = do
    mapping rollback_failed (replace_file faults (at backup) (at binary))
    clear_state
    pure true

  -- `HandleStartup` from the state on.
  unfoldable pub startup_of : UpgradeState → Exec UpgradeError Bool
  startup_of state d =
      if not (is_current state.to_version)
      then (do clear_state; pure false) d
      else if not state.started_once
      then (do
        save_state (record state {
          started_once = true;
          started_at = net.now d.calls;
          clean_shutdown = false;
        })
        pure false)
          d
      else if state.clean_shutdown
      then settle_upgrade d
      else if ltb_ℤ (net.now d.calls -ℤ state.started_at) cfg.rollback_window
      then roll_back d
      else settle_upgrade d

  unfoldable pub is_missing_state : UpgradeError → Bool
  is_missing_state (io e) = is_not_exist e
  is_missing_state _ = false

  -- Without a state there is nothing to do.
  unfoldable pub or_no_state :
      {A : Type 0}
      → A
      → Result UpgradeError UpgradeState
      → (UpgradeState → Exec UpgradeError A)
      → Exec UpgradeError A
  unfolding is_missing_state
  or_no_state a (ok state) f = f state
  or_no_state a (err e) f = if is_missing_state e then pure a else raise e

  unfoldable pub handle_startup : Exec UpgradeError Bool
  handle_startup = do r ← attempt load_state; or_no_state false r startup_of

  unfoldable pub shutdown_of : UpgradeState → Exec UpgradeError (Unit {0})
  shutdown_of state =
      if not state.started_once
      then pure tt
      else if not (is_current state.to_version)
      then pure tt
      else if state.clean_shutdown
      then pure tt
      else save_state (record state { clean_shutdown = true })

  unfoldable pub mark_clean_shutdown : Exec UpgradeError (Unit {0})
  mark_clean_shutdown = do r ← attempt load_state; or_no_state tt r shutdown_of

  unfoldable pub is_valid_release : ReleaseInfo → Bool
  is_valid_release info = not (
      is_empty (trim_space info.version)
      || is_empty (trim_space info.download_url)
      || is_empty (trim_space info.checksum_sha256))

  -- `fetchLatest` from the answer on.
  unfoldable pub released : Option ReleaseInfo → Result UpgradeError ReleaseInfo
  unfolding is_valid_release
  released none = err json_error
  released (some info) = if is_valid_release info then ok info else err invalid_release

  unfoldable pub fetch_latest : Answer (Option ReleaseInfo) → Result UpgradeError ReleaseInfo
  unfolding released
  fetch_latest (unanswered e) = err (request_failed e)
  fetch_latest (answered status info) =
      if eqb_ℤ status (pos 200) then released info else err (bad_status status)

  -- `fileSHA256`
  unfoldable pub file_sha256 : FilePath → Exec IoError Text
  file_sha256 p = do content ← read_file faults p; pure (net.sha256 content)

  abbrev matches : Text → ReleaseInfo → Bool
  matches checksum release = equal_fold checksum (trim_space release.checksum_sha256)

  unfoldable pub needs_upgrade : ReleaseInfo → Exec UpgradeError Bool
  needs_upgrade release =
      if is_newer_version cfg.current_version release.version
      then pure true
      else if not (is_current release.version)
      then pure false
      else do
        checksum ← mapping installed_checksum (file_sha256 (at binary))
        pure (not (matches checksum release))

  -- `downloadToFile`: the body is written beside its place, closed, and moved.
  unfoldable pub store_download : Bytes → Exec IoError (Unit {0})
  store_download body = do
    write_file faults (tmp temp_binary) body
    touch faults
    replace_file faults (tmp temp_binary) (at temp_binary)

  unfoldable pub save_download : Answer Bytes → Exec UpgradeError (Unit {0})
  save_download (unanswered e) = raise (request_failed e)
  save_download (answered status body) =
      if eqb_ℤ status (pos 200) then mapping io (store_download body) else raise (bad_status status)

  unfoldable pub verify : ReleaseInfo → Text → Exec UpgradeError (Unit {0})
  verify release checksum = if matches checksum release then pure tt else raise checksum_mismatch

  -- The state that `CheckAndUpgrade` saves.
  unfoldable pub mark_upgrade : ReleaseInfo → Exec UpgradeError (Unit {0})
  mark_upgrade release d =
      save_state
        (record {
          upgraded_at = net.now d.calls;
          from_version = cfg.current_version;
          to_version = release.version;
          started_once = false;
          started_at = pos 0;
          clean_shutdown = false;
        })
        d

  -- `CheckAndUpgrade` from the download to the saved state.
  unfoldable pub prepare : ReleaseInfo → Exec UpgradeError (Unit {0})
  prepare release = do
    save_download (net.download release.download_url)
    checksum ← mapping io (file_sha256 (at temp_binary))
    verify release checksum
    mapping io (copy_file faults (at binary) (tmp backup) (at backup))
    mark_upgrade release

  -- The last steps of `CheckAndUpgrade`.
  unfoldable pub install : Exec UpgradeError (Unit {0})
  install = do
    mapping io (replace_file faults (at temp_binary) (at binary))
    mapping io (touch faults)

  unfoldable pub apply_release : ReleaseInfo → Exec UpgradeError (Unit {0})
  apply_release release = do prepare release; install

  abbrev nothing : CheckResult
  nothing = record { available_version = []; is_applied = false }

  unfoldable pub applied_of : ReleaseInfo → Result UpgradeError (Unit {0}) → Checked
  applied_of release (ok _) = record {
    result = record { available_version = release.version; is_applied = true };
    error = none;
  }
  applied_of release (err e) = record {
    result = record { available_version = release.version; is_applied = false };
    error = some e;
  }

  -- `CheckAndUpgrade` once it is known whether the release is wanted.
  unfoldable pub act_on : ReleaseInfo → Result UpgradeError Bool → Disk → Checked × Disk
  act_on release (err e) d = (record { result = nothing; error = some e }, d)
  act_on release (ok false) d = (record { result = nothing; error = none }, d)
  act_on release (ok true) d =
      if cfg.is_enabled
      then (let (r, d') = apply_release release d in (applied_of release r, d'))
      else (
        record {
          result = record { available_version = release.version; is_applied = false };
          error = none;
        },
        d,
      )

  unfoldable pub check_release : Result UpgradeError ReleaseInfo → Disk → Checked × Disk
  check_release (err e) d = (record { result = nothing; error = some e }, d)
  check_release (ok release) d = let (r, d') = needs_upgrade release d in act_on release r d'

  unfoldable pub check_and_upgrade : Disk → Checked × Disk
  check_and_upgrade = check_release (fetch_latest net.latest)
