-- ===== src/Tests/Scenario.antt =====
-- An upgrade from 1.0.0 to 1.1.0 with what follows: internal/upgrade.
use mathlib.Core.Path.{subst}
use distil_proxy.Base.{
  ℕ, ◌+◌, false, ltb, ◌≡◌, refl, true, Option, some, [], ◌∷◌, ◌++◌, if◌then◌else◌, arith,
}
use distil_proxy.Base.Int.{pos, ◌-ℤ◌, ltb_ℤ}
use distil_proxy.Base.Text.{Bytes, codes, trim_space, equal_fold, text_eq}
use distil_proxy.Base.Text.Decimal.{atoi}
use distil_proxy.Disk.{
  ok, at, binary, Disk, read_file, write_file, rename, remove, touch, put, same_path,
}
use distil_proxy.Disk.Exec.{◌>>=◌, continue, mapping, wrap, attempt, pure, raise, lift}
use distil_proxy.Upgrade.Version.{is_newer_version, parse_version, normalize_version}
use distil_proxy.Upgrade.Manager.{
  ManagerConfig, Release, UpgradeState, check_and_upgrade, check_release, act_on, fetch_latest,
  needs_upgrade, apply_release, prepare, install, save_download, store_download, file_sha256,
  verify, copy_file, replace_file, retry_replace, mark_upgrade, save_state, applied_of,
  handle_startup, mark_clean_shutdown, released, is_current,
}
use distil_proxy.Upgrade.Manager.Calm.{calm}
use distil_proxy.Upgrade.Manager.Pending.{IsStateCodec, IsDated}
use distil_proxy.Upgrade.Manager.Crash.{SameUpgrade, IsEnd, crash_rolled_back, clean_exit_kept}
use distil_proxy.Tests.Codec.{
  put_text, put_ℤ, put_flag, get_text, get_ℤ, get_flag, get-put_text, get-put_ℤ, get-put_flag,
  some_injective,
}
use distil_proxy.Tests.Upgrade.{net, config, release, installed}

abbrev encode : UpgradeState → Bytes
encode s = put_ℤ s.upgraded_at (
    put_text s.from_version (
      put_text s.to_version
        (put_ℤ s.started_at ((if s.started_once then 1 else 0) ∷ put_flag s.clean_shutdown []))))

abbrev rest_of : Bytes → Bytes
rest_of [] = []
rest_of (_ ∷ s) = s

decode : Bytes → Option UpgradeState
decode s =
    let (a, s1) = get_ℤ s in
    let (b, s2) = get_text s1 in
    let (c, s3) = get_text s2 in
    let (d, s4) = get_ℤ s3 in
    some (record {
      upgraded_at = a;
      from_version = b;
      to_version = c;
      started_once = get_flag s4;
      started_at = d;
      clean_shutdown = get_flag (rest_of s4);
    })

decode-encode : (s : UpgradeState) → decode (encode s ++ (10 ∷ [])) ≡ some s
unfolding decode
decode-encode s =
    rw
      (
        get-put_ℤ s.upgraded_at _ _,
        get-put_text s.from_version _ _,
        get-put_text s.to_version _ _,
        get-put_ℤ s.started_at _ _,
        get-put_flag s.started_once _ _,
        get-put_flag s.clean_shutdown _ _,
      )
      refl

abbrev early : ℕ → ℕ
early n = if ltb n 1_000 then n else 1_000

abbrev release_net : Release
release_net = record net {
  encode_state = λ s. some (encode s);
  decode_state = decode;
  now = λ n. pos (early n);
}

early-IsDated : (n : ℕ) → IsDated (pos (early n))
early-IsDated n = ground arith

codec : IsStateCodec release_net
codec = record {
  encode = λ s. encode s;
  encodes = λ s u t. refl;
  decodes = λ s c e.
      subst (λ p. decode (p ++ (10 ∷ [])) ≡ some s) (some_injective _ _ e) (decode-encode s);
  dated = early-IsDated;
}

abbrev new_config : ManagerConfig
new_config = record config { current_version = codes "1.1.0" }

offered : fetch_latest calm release_net config release_net.latest ≡ ok release
unfolding fetch_latest released trim_space
offered = refl

taken : is_current calm release_net new_config release.version ≡ true
unfolding normalize_version text_eq trim_space
taken = refl

applied : (check_and_upgrade calm release_net config installed).0.result.is_applied ≡ true
unfolding check_and_upgrade check_release act_on fetch_latest needs_upgrade is_newer_version
    apply_release prepare install save_download store_download file_sha256 verify copy_file
    replace_file retry_replace mark_upgrade save_state applied_of ◌>>=◌ continue mapping wrap
    attempt pure raise lift read_file write_file rename remove touch put same_path trim_space
    equal_fold parse_version normalize_version atoi text_eq
applied = refl

installed_there : installed.files (at binary) ≡ some (codes "o")
unfolding same_path
installed_there = refl

unchanged : (d : Disk) → SameUpgrade d d
unchanged d = record { binary_kept = refl; backup_kept = refl; state_kept = refl }

abbrev upgraded : Disk
upgraded = (check_and_upgrade calm release_net config installed).1

abbrev first_started : Disk
first_started = (handle_startup calm release_net new_config upgraded).1

crash_rolled_back_example :
    let soon =
      ltb_ℤ
        (release_net.now (first_started.calls + 1) -ℤ release_net.now (upgraded.calls + 1))
        new_config.rollback_window in
    ((handle_startup calm release_net new_config upgraded).0 ≡ ok false)
    × IsEnd soon
        (if soon then some (codes "o") else upgraded.files (at binary))
        (handle_startup calm release_net new_config first_started)
crash_rolled_back_example =
    crash_rolled_back calm release_net codec config new_config release offered taken installed
      (codes "o") installed_there applied upgraded (unchanged upgraded) first_started
      (unchanged first_started)

abbrev ended : Disk
ended = (mark_clean_shutdown calm release_net new_config first_started).1

clean_exit_kept_example :
    ((mark_clean_shutdown calm release_net new_config first_started).0 ≡ ok tt)
    × IsEnd false (upgraded.files (at binary)) (handle_startup calm release_net new_config ended)
clean_exit_kept_example =
    clean_exit_kept calm release_net codec config new_config release offered taken installed
      (codes "o") installed_there applied upgraded (unchanged upgraded) first_started
      (unchanged first_started) ended (unchanged ended)
