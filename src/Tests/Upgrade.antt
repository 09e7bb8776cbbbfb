-- ===== src/Tests/Upgrade.antt =====
-- Upgrades of internal/upgrade from version 1.0.0 to 1.1.0.
use distil_proxy.Base.{false, ◌==◌, ◌≡◌, refl, true, none, some, [], if◌then◌else◌}
use distil_proxy.Base.Int.{pos}
use distil_proxy.Base.Text.{codes, trim_space, equal_fold, text_eq}
use distil_proxy.Disk.{
  Disk, at, binary, Faults, IoError, same_path, read_file, write_file, rename, remove, touch, put,
}
use distil_proxy.Disk.Exec.{◌>>=◌, continue, mapping, wrap, attempt, pure, raise, lift}
use distil_proxy.Base.Text.Decimal.{atoi}
use distil_proxy.Upgrade.Version.{is_newer_version, parse_version, normalize_version}
use distil_proxy.Upgrade.Manager.{
  should_retry_replace, ManagerConfig, Release, ReleaseInfo, answered, check_and_upgrade,
  check_release, act_on, fetch_latest, needs_upgrade, apply_release, prepare, install,
  save_download, store_download, file_sha256, verify, copy_file, replace_file, retry_replace,
  replace_again, mark_upgrade, save_state, applied_of,
}
use distil_proxy.Upgrade.Manager.{
  handle_startup, load_state, or_no_state, startup_of, roll_back, clear_state,
}
use distil_proxy.Upgrade.Manager.Startup.{IsStart, handle_startup-IsStart}
use distil_proxy.Disk.{ok, upgrade_state, backup}
use distil_proxy.Disk.Exec.{ignore}
use distil_proxy.Upgrade.Manager.Outcome.{
  IsSafe, IsApplied, check_and_upgrade-IsSafe, check_and_upgrade-IsApplied,
}

abbrev pub config : ManagerConfig
config = record {
  is_enabled = true;
  current_version = codes "1.0.0";
  rollback_window = pos 10;
  check_interval = pos 20;
}

abbrev pub release : ReleaseInfo
release = record {
  version = codes "v1.1.0";
  download_url = codes "http://a/b";
  checksum_sha256 = codes "N";
}

-- The content `n` has the checksum `n`, the content `o` has `o`.
abbrev pub net : Release
net = record {
  latest = answered (pos 200) (some release);
  download = λ _. answered (pos 200) (codes "n");
  sha256 = λ content. content;
  encode_state = λ _. some [];
  decode_state = λ _. none;
  now = λ n. pos n;
}

abbrev pub installed : Disk
installed = record {
  files = λ p. if same_path p (at binary) then some (codes "o") else none;
  calls = 0;
}

-- The move of the new binary fails twice, the second time with the old one removed.
abbrev bad_moves : Faults
bad_moves n =
    if n == 10
    then some (record { error = IoError.not_permitted; left = none })
    else if n == 12
    then some (record { error = IoError.other 5; left = none })
    else none

check_and_upgrade-IsSafe_example :
    IsSafe bad_moves net config installed (check_and_upgrade bad_moves net config installed).1
check_and_upgrade-IsSafe_example = check_and_upgrade-IsSafe bad_moves net config installed

binary_lost : (check_and_upgrade bad_moves net config installed).1.files (at binary) ≡ none
unfolding check_and_upgrade check_release act_on fetch_latest needs_upgrade is_newer_version
    apply_release prepare install save_download store_download file_sha256 verify copy_file
    replace_file retry_replace replace_again mark_upgrade save_state applied_of ◌>>=◌ continue
    mapping wrap attempt pure raise lift read_file write_file rename remove touch put same_path
    trim_space equal_fold parse_version normalize_version atoi text_eq should_retry_replace
binary_lost = refl

abbrev no_faults : Faults
no_faults = λ _. none

applies : (check_and_upgrade no_faults net config installed).0.result.is_applied ≡ true
unfolding check_and_upgrade check_release act_on fetch_latest needs_upgrade is_newer_version
    apply_release prepare install save_download store_download file_sha256 verify copy_file
    replace_file retry_replace replace_again mark_upgrade save_state applied_of ◌>>=◌ continue
    mapping wrap attempt pure raise lift read_file write_file rename remove touch put same_path
    trim_space equal_fold parse_version normalize_version atoi text_eq should_retry_replace
applies = refl

check_and_upgrade-IsApplied_example :
    IsApplied no_faults net config installed (check_and_upgrade no_faults net config installed).1
check_and_upgrade-IsApplied_example =
    check_and_upgrade-IsApplied no_faults net config installed applies

-- The state of an upgrade to 1.0.0 that was started at 0.
abbrev started : Release
started = record net {
  decode_state = λ _. some (record {
    upgraded_at = pos 1;
    from_version = codes "0.9.0";
    to_version = codes "1.0.0";
    started_once = true;
    started_at = pos 0;
    clean_shutdown = false;
  });
}

abbrev crashed : Disk
crashed = record {
  files = λ p.
      if same_path p (at binary)
      then some (codes "n")
      else if same_path p (at backup)
      then some (codes "o")
      else if same_path p (at upgrade_state)
      then some []
      else none;
  calls = 0;
}

rolls_back :
    ((handle_startup no_faults started config crashed).0 ≡ ok true)
    × ((handle_startup no_faults started config crashed).1.files (at binary) ≡ some (codes "o"))
unfolding handle_startup load_state or_no_state startup_of roll_back clear_state replace_file
    retry_replace ◌>>=◌ continue mapping wrap attempt pure raise lift ignore read_file rename remove
    put same_path normalize_version text_eq trim_space
rolls_back = (refl, refl)

handle_startup-IsStart_example :
    let (r, d') = handle_startup no_faults started config crashed in
    IsStart no_faults started config crashed r d'
handle_startup-IsStart_example = handle_startup-IsStart no_faults started config crashed
