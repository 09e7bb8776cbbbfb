-- ===== src/Cli/Auth/Stored.antt =====
-- The settings behind the `auth` command, internal/cli/commands.go.
use mathlib.Core.Path.{subst}
use distil_proxy.Base.{◌≡◌, refl, ap, ◌∙◌, true, false, none, [], arith}
use distil_proxy.Base.Text.{Text, text_eq, trim_space, is_empty}
use distil_proxy.Disk.{Disk, Faults, ok}
use distil_proxy.Disk.Exec.{pure, ◌>>=◌, continue, attempt}
use distil_proxy.Disk.Success.{bind_ok}
use distil_proxy.Config.{Config, ConfigJson, apply_defaults, load, save, normalized}
use distil_proxy.Config.RoundTrip.{IsCodec, marked, load-save}
use distil_proxy.Cli.Auth.{config_or_blank, with_key, save_config, store_key}

-- The email that is kept or taken with a new key, beside the settings before.
unfoldable pub IsEmail : Text → Text → Config → Text → Type 0
IsEmail api_key given before email =
    (is_empty (trim_space given) ≡ false → email ≡ trim_space given)
    × (is_empty (trim_space given) ≡ true
        → text_eq (trim_space before.api_key) api_key ≡ true
        → email ≡ before.email)
    × (is_empty (trim_space given) ≡ true
        → is_empty (trim_space before.api_key) ≡ false
        → text_eq (trim_space before.api_key) api_key ≡ false
        → email ≡ [])

with_key-IsEmail :
    (api_key email : Text) (before : Config)
    → IsEmail api_key email before (with_key api_key email before).email
unfolding IsEmail with_key
with_key-IsEmail api_key email before =
    (λ h. ground arith, λ h k. ground arith, λ h k l. ground arith)

with_key-api_key :
    (api_key email : Text) (before : Config) → (with_key api_key email before).api_key ≡ api_key
unfolding with_key
with_key-api_key api_key email before = refl

with_key-server :
    (api_key email : Text) (before : Config)
    → (apply_defaults (with_key api_key email before)).server ≡ (apply_defaults before).server
unfolding with_key apply_defaults
with_key-server api_key email before = refl

module _ (json : ConfigJson) (codec : IsCodec json) (faults : Faults) where
  -- What is on the disk behind a key that was stored.
  unfoldable pub IsStored : Text → Text → Config → Disk → Type 0
  IsStored api_key email before d =
      (c : Config) × ((load faults json d).0 ≡ ok c)
      × (c.api_key ≡ api_key)
      × IsEmail api_key email before c.email
      × (c.server ≡ (apply_defaults before).server)

  loaded_back :
      (c : Config) (d d' : Disk)
      → (save faults json c d).0 ≡ ok tt
      → (save faults json c d).1 ≡ d'
      → faults d'.calls ≡ none
      → (load faults json d').0 ≡ ok (marked (normalized faults json c))
  loaded_back c d d' h e f =
      subst (λ x. (load faults json x).0 ≡ ok (marked (normalized faults json c))) e
        (load-save json codec faults c d h (ap (λ x. faults x.calls) e ∙ f))

  saved_lem :
      (api_key email : Text) (before c : Config) (d d' : Disk)
      → save_config faults json (with_key api_key email before) d ≡ (ok c, d')
      → faults d'.calls ≡ none
      → IsStored api_key email before d'
  unfolding save_config IsStored apply_defaults pure
  saved_lem api_key email before c d d' e f =
      let (_, d1, e1, e2) = bind_ok _ _ c d d' e in
      (
        marked (normalized faults json (with_key api_key email before)),
        loaded_back (with_key api_key email before) d d' (ap (λ r. r.0) e1)
            (ap (λ r. r.1) e1 ∙ ap (λ r. r.1) e2) f,
        with_key-api_key api_key email before,
        with_key-IsEmail api_key email before,
        with_key-server api_key email before,
      )

  -- If the `auth` command stores a key and the file can be read, then a load returns settings with that key and the
  -- server of the settings before. A given email is taken; without one, the email stays with the
  -- same key, and is dropped with another.
  pub store_key-IsStored :
      (api_key email : Text) (c : Config) (d d' : Disk)
      → store_key faults json api_key email d ≡ (ok c, d')
      → faults d'.calls ≡ none
      → IsStored api_key email (apply_defaults (config_or_blank (load faults json d).0)) d'
  unfolding store_key attempt ◌>>=◌ continue
  store_key-IsStored api_key email c d d' e f = saved_lem api_key email _ c _ d' e f
