-- ===== src/Config/RoundTrip.antt =====
-- `Load` after `Save`, in internal/config/config.go.
use distil_proxy.Base.{◌≡◌, refl, inl, inr, true, false, none, some, [], ◌∷◌, ◌++◌}
use distil_proxy.Base.Text.{Bytes}
use distil_proxy.Disk.{Disk, Faults, ok, read_file}
use distil_proxy.Disk.Exec.{◌>>=◌, continue, attempt, lift}
use distil_proxy.Config.{
  Config, ConfigJson, end_of_file, parse_config, with_decoded, with_trailing, with_presence,
  valid_or_error, apply_defaults, loaded, load, normalized, save,
}
use distil_proxy.Config.Valid.{IsValid, validate_iff, level-not_blank, positive_inv}
use distil_proxy.Config.Storage.{IsSaved, IsSaveOf, save_atomic}

-- What `encoding/json` does with the settings: the decoder reads back what the encoder has written, up to
-- the field that is not in the file; the file is one object, and it has the key `auto_upgrade`.
pub record IsCodec (json : ConfigJson) : Type 0 where
  pub decode-encode :
      (c : Config) (payload : Bytes)
      → json.encode c ≡ some payload
      → json.decode (payload ++ (10 ∷ [])) ≡ some (record c { auto_upgrade_set = false })
  pub trailing-encode :
      (c : Config) (payload : Bytes)
      → json.encode c ≡ some payload
      → json.trailing (payload ++ (10 ∷ [])) ≡ end_of_file
  pub has_auto_upgrade-encode :
      (c : Config) (payload : Bytes)
      → json.encode c ≡ some payload
      → json.has_auto_upgrade (payload ++ (10 ∷ [])) ≡ some true

abbrev pub marked : Config → Config
marked c = record c { auto_upgrade_set = true }

settled : (c : Config) → IsValid c → apply_defaults (marked c) ≡ marked c
unfolding apply_defaults
settled c v =
    rw
      (
        v.server_ok,
        positive_inv c.timeout_ms v.timeout_ok,
        level-not_blank c.log_level v.log_level_ok,
        positive_inv c.upgrade_check_hours v.hours_ok,
      )
      refl

marked-IsValid : (c : Config) → IsValid c → IsValid (marked c)
marked-IsValid c v = record {
  api_key_ok = v.api_key_ok;
  server_ok = v.server_ok;
  timeout_ok = v.timeout_ok;
  log_level_ok = v.log_level_ok;
  hours_ok = v.hours_ok;
}

valid_or_error_ok : (c : Config) → IsValid c → valid_or_error c ≡ ok c
unfolding valid_or_error
valid_or_error_ok c v = rw ((validate_iff c).1 v, valid_or_error) refl

module _ (json : ConfigJson) (codec : IsCodec json) where
  parse-encode :
      (c : Config) (payload : Bytes)
      → IsValid c
      → json.encode c ≡ some payload
      → parse_config json (payload ++ (10 ∷ [])) ≡ ok (marked c)
  unfolding parse_config with_decoded with_trailing with_presence
  parse-encode c payload v e =
      rw
        (
          codec.decode-encode c payload e,
          codec.trailing-encode c payload e,
          codec.has_auto_upgrade-encode c payload e,
        )
        (rw (settled c v) (valid_or_error_ok (marked c) (marked-IsValid c v)))

  module _ (faults : Faults) where
    load-IsSaved :
        (c : Config) (d : Disk)
        → IsSaved faults json c d
        → faults d.calls ≡ none
        → (load faults json d).0 ≡ ok (marked c)
    unfolding load loaded read_file ◌>>=◌ continue attempt lift IsSaved
    load-IsSaved c d (v, payload, e, h) f =
        rw (f, read_file, h, read_file) (parse-encode c payload v e)

    -- If a save succeeds and the file can be read, then a load returns the saved settings with their defaults,
    -- `auto_upgrade` marked as set.
    pub load-save :
        (c : Config) (d : Disk)
        → let (r, d') = save faults json c d in
          r ≡ ok tt
          → faults d'.calls ≡ none
          → (load faults json d').0 ≡ ok (marked (normalized faults json c))
    unfolding IsSaveOf
    load-save c d h f = elim (save_atomic faults json c d) [
      | inl (_, k) ↦ absurd (k h)
      | inr s ↦ load-IsSaved _ _ s f
    ]
