-- ===== src/Config/Storage.antt =====
-- The configuration file: what `Load` and `Save` promise, whatever call fails.
use distil_proxy.Base.{◌≡◌, ◌≢◌, refl, ◌∙◌, ◌⊎◌, inl, inr, Option, none, some, [], ◌∷◌, ◌++◌, arith}
use distil_proxy.Base.Text.{Bytes}
use distil_proxy.Disk.{
  Disk, Faults, at, config_file, IoError, not_exist, Result, ok, err, same_path, put, write_file,
  rename, touch,
}
use distil_proxy.Disk.Exec.{◌>>=◌, continue, attempt, mapping, wrap, lift, raise}
use distil_proxy.Disk.Leaves.{Leaves, Leaves-touch, Leaves-bind, Leaves-mapping}
use distil_proxy.Config.{
  write_config, encoded, create_directory, Config, ConfigError, ValidationError, ConfigJson,
  validate, parse_config, loaded, load, normalized, ensure_state_dirs, store, store_valid, save,
}
use distil_proxy.Config.Valid.{IsValid, validate_iff, parse_config-IsValid}

module _ (faults : Faults) (json : ConfigJson) where
  loaded-IsValid :
      (r : Result IoError Bytes) (d : Disk) (c : Config)
      → (loaded faults json r d).0 ≡ ok c
      → (content : Bytes) × (r ≡ ok content) × (parse_config json content ≡ ok c)
  unfolding loaded lift raise
  loaded-IsValid (ok content) d c h = (content, refl, h)
  loaded-IsValid (err not_exist) d c h = ground arith
  loaded-IsValid (err e) d c h = ground arith

  -- What `Load` returns is valid.
  pub load-IsValid : (d : Disk) (c : Config) → (load faults json d).0 ≡ ok c → IsValid c
  unfolding load ◌>>=◌ continue attempt
  load-IsValid d c h =
      let (content, _, e) = loaded-IsValid _ _ c h in parse_config-IsValid json content c e

  -- The file holds the encoding of the settings, which are valid.
  unfoldable pub IsSaved : Config → Disk → Type 0
  IsSaved c d =
      IsValid c
      × (payload : Bytes) × (json.encode c ≡ some payload)
      × (d.files (at config_file) ≡ some (payload ++ (10 ∷ [])))

  -- What a save may come to: an error and the file as it was, or the file saved.
  unfoldable pub IsSaveOf : Config → Disk → Result ConfigError (Unit {0}) → Disk → Type 0
  IsSaveOf c d r d' =
      ((d'.files (at config_file) ≡ d.files (at config_file)) × (r ≢ ok tt)) ⊎ IsSaved c d'

  write_config_lem :
      (payload : Bytes) (d : Disk)
      → let (r, d') = write_config faults json payload d in
        ((d'.files (at config_file) ≡ d.files (at config_file)) × (r ≢ ok tt))
        ⊎ (d'.files (at config_file) ≡ some payload)
  unfolding write_config ◌>>=◌ continue mapping wrap same_path put write_file rename touch
  write_config_lem payload d = ground arith

  dirs-Leaves : Leaves (at config_file) (ensure_state_dirs faults)
  unfolding ensure_state_dirs
  dirs-Leaves = search (Leaves-touch, Leaves-bind)

  encoded_lem :
      (c : Config) (d : Disk) (o : Option Bytes)
      → IsValid c
      → json.encode c ≡ o
      → let (r, d') = (lift (encoded faults json o) >>= write_config faults json) d in
        IsSaveOf c d r d'
  unfolding IsSaveOf IsSaved ◌>>=◌ continue lift
  encoded_lem c d none v e = inl (refl, λ h. ground arith)
  encoded_lem c d (some payload) v e = elim (write_config_lem (payload ++ (10 ∷ [])) d) [
    | inl h ↦ inl h
    | inr h ↦ inr (v, payload, e, h)
  ]

  moved_on :
      (c : Config) (d d' d'' : Disk) (r : Result ConfigError (Unit {0}))
      → d'.files (at config_file) ≡ d.files (at config_file)
      → IsSaveOf c d' r d''
      → IsSaveOf c d r d''
  unfolding IsSaveOf
  moved_on c d d' d'' r e (inl (h, k)) = inl (h ∙ e, k)
  moved_on c d d' d'' r e (inr h) = inr h

  store_lem :
      (c : Config) (d : Disk) → IsValid c → let (r, d') = store faults json c d in IsSaveOf c d r d'
  unfolding store IsSaveOf ◌>>=◌ continue
  store_lem c d v =
      after _ ((Leaves-mapping (at config_file) create_directory _ dirs-Leaves).kept d)
    where
      after :
          (s : Result ConfigError (Unit {0}) × Disk)
          → s.1.files (at config_file) ≡ d.files (at config_file)
          → let (r, d') =
              continue s.0
                (λ _. lift (encoded faults json (json.encode c)) >>= write_config faults json)
                s.1 in
            IsSaveOf c d r d'
      after (ok tt, d') e = moved_on c d d' _ _ e (encoded_lem c d' _ v refl)
      after (err x, d') e = inl (e, λ h. ground arith)

  store_valid_lem :
      (c : Config) (d : Disk) (o : Option ValidationError)
      → validate c ≡ o
      → let (r, d') = store_valid faults json c o d in IsSaveOf c d r d'
  unfolding store_valid raise IsSaveOf
  store_valid_lem c d none e = store_lem c d ((validate_iff c).0 e)
  store_valid_lem c d (some x) e = inl (refl, λ h. ground arith)

  -- Whatever call fails, a save leaves the file with what it held and returns an error, or it leaves the
  -- encoding of the settings with their defaults, which are valid, also where only setting the mode fails;
  -- never a part of either.
  pub save_atomic :
      (c : Config) (d : Disk)
      → let (r, d') = save faults json c d in IsSaveOf (normalized faults json c) d r d'
  unfolding save
  save_atomic c d = store_valid_lem (normalized faults json c) d _ refl
