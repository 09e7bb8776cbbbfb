-- ===== src/Tests/Storage.antt =====
-- The configuration file of internal/config, with a codec that writes the key and nothing else.
use distil_proxy.Base.{◌≡◌, refl, true, false, none, []}
use distil_proxy.Base.Int.{pos}
use distil_proxy.Base.Text.{codes, trim_space, to_lower, has_prefix, text_eq}
use distil_proxy.Disk.{Disk, put, Faults, ok, write_file, rename, touch}
use distil_proxy.Config.{
  Config, validate, validate_api_key, apply_defaults, is_supported_log_level, is_one_of, normalized,
  load, save, store_valid, store, write_config, ensure_state_dirs,
}
use distil_proxy.Tests.Codec.{json, json-IsCodec}
use distil_proxy.Disk.Exec.{◌>>=◌, continue, mapping, wrap, lift}
use distil_proxy.Config.Storage.{IsSaveOf, save_atomic}
use distil_proxy.Config.RoundTrip.{marked, load-save}

abbrev settings : Config
settings = record {
  api_key = codes "dk_1";
  email = [];
  legacy_proxy_key = [];
  server = [];
  timeout_ms = pos 0;
  log_level = [];
  auto_upgrade = false;
  upgrade_check_hours = pos 0;
  auto_upgrade_set = true;
}

abbrev empty_disk : Disk
empty_disk = record { files = λ _. none; calls = 0 }

abbrev no_faults : Faults
no_faults = λ _. none

save_atomic_example :
    let (r, d') = save no_faults json settings empty_disk in
    IsSaveOf no_faults json (normalized no_faults json settings) empty_disk r d'
save_atomic_example = save_atomic no_faults json settings empty_disk

settings_ok : validate (normalized no_faults json settings) ≡ none
unfolding validate validate_api_key apply_defaults is_supported_log_level is_one_of trim_space
    to_lower has_prefix text_eq
settings_ok = refl

saves : (save no_faults json settings empty_disk).0 ≡ ok tt
unfolding save store_valid store write_config ensure_state_dirs ◌>>=◌ continue mapping wrap lift
    write_file rename touch put
saves = rw (settings_ok, save) refl

load-save_example :
    (load no_faults json (save no_faults json settings empty_disk).1).0
    ≡ ok (marked (normalized no_faults json settings))
load-save_example = load-save json json-IsCodec no_faults settings empty_disk saves refl
