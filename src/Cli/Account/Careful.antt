-- ===== src/Cli/Account/Careful.antt =====
-- What a look at the account does to the settings: internal/cli/commands.go.
use distil_proxy.Base.{◌≡◌, ◌≢◌, refl, ◌⊎◌, inl, inr, Bool, true, false, if◌then◌else◌, arith}
use distil_proxy.Base.Text.{Text, text_eq_iff, trim_space, is_empty}
use distil_proxy.Disk.{Disk, Faults, at, config_file, Result, ok, err}
use distil_proxy.Disk.Exec.{◌>>=◌, ◌>>◌, continue, lift, ignore, pure}
use distil_proxy.Config.{Config, ConfigJson, normalized, save}
use distil_proxy.Config.Storage.{IsSaved, IsSaveOf, save_atomic}
use distil_proxy.Cli.Interactive.{Account, InstallApi, InstallError}
use distil_proxy.Cli.Urls.{UrlCodec}
use distil_proxy.Cli.Account.{
  lookup_account_by_api_key, is_new_email, keep_email, lookup_account_for_config,
}

module _ (faults : Faults) (json : ConfigJson) (api : InstallApi) (url : UrlCodec)
    (environment : Text) where
  -- The file is as it was, or it holds the settings with the account's email, which is another than before and not
  -- blank; so do the settings in hand.
  pub record IsCareful (cfg : Config) (d : Disk) (s : Result InstallError (Account × Config) × Disk)
      : Type 0 where
    pub file :
        (s.1.files (at config_file) ≡ d.files (at config_file))
        ⊎ ((account : Account) × (cfg' : Config) × (s.0 ≡ ok (account, cfg'))
            × (is_empty (trim_space account.email) ≡ false)
            × (trim_space account.email ≢ trim_space cfg.email)
            × (cfg' ≡ record cfg { email = trim_space account.email })
            × IsSaved faults json (normalized faults json cfg') s.1)
    pub settings :
        ((e : InstallError) × (s.0 ≡ err e)
          × (lookup_account_by_api_key faults json api url environment cfg.server cfg.api_key
              ≡ err e))
        ⊎ ((account : Account) × (cfg' : Config) × (s.0 ≡ ok (account, cfg'))
            × (lookup_account_by_api_key faults json api url environment cfg.server cfg.api_key
                ≡ ok account)
            × ((cfg' ≡ cfg) ⊎ (cfg' ≡ record cfg { email = trim_space account.email })))

  new_email :
      (email old : Text)
      → is_new_email faults json api url environment email old ≡ true
      → (is_empty email ≡ false) × (email ≢ trim_space old)
  unfolding is_new_email
  new_email email old h =
      (ground arith, λ e. ground (arith, (text_eq_iff email (trim_space old)).1 e))

  -- The settings with the account's email
  abbrev with_email : Config → Account → Config
  with_email cfg account = record cfg { email = trim_space account.email }

  saved_or_not :
      (cfg : Config) (account : Account) (d : Disk)
      → is_new_email faults json api url environment (trim_space account.email) cfg.email ≡ true
      → lookup_account_by_api_key faults json api url environment cfg.server cfg.api_key
        ≡ ok account
      → IsCareful cfg d
          (ok (account, with_email cfg account), (save faults json (with_email cfg account) d).1)
  unfolding IsSaveOf
  saved_or_not cfg account d e h = record {
    file = elim (save_atomic faults json (with_email cfg account) d) [
      | inl (k, _) ↦ inl k
      | inr saved ↦
          let (n, m) = new_email (trim_space account.email) cfg.email e in
          inr (account, with_email cfg account, refl, n, m, refl, saved)
    ];
    settings = inr (account, with_email cfg account, refl, h, inr refl);
  }

  keep_lem :
      (cfg : Config) (account : Account) (d : Disk)
      → lookup_account_by_api_key faults json api url environment cfg.server cfg.api_key
        ≡ ok account
      → IsCareful cfg d (keep_email faults json api url environment cfg account d)
  unfolding keep_email ignore pure ◌>>=◌ continue
  keep_lem cfg account d h = decide _ refl
    where
      decide :
          (b : Bool)
          → is_new_email faults json api url environment (trim_space account.email) cfg.email ≡ b
          → IsCareful cfg d (
              (if b
                  then (do
                    ignore (save faults json (with_email cfg account))
                    pure (account, with_email cfg account))
                  else pure (account, cfg))
                d)
      decide false e = record { file = inl refl; settings = inr (account, cfg, refl, h, inl refl) }
      decide true e = saved_or_not cfg account d e h

  -- Whatever call fails, a look at the account leaves the settings' file as it was, or it leaves there valid
  -- settings that differ from those in hand only by the account's email, the defaults and the legacy key, which is dropped. Then that
  -- email is not blank and another than before. It fails exactly as the request for the account does, and
  -- then the file is as it was; otherwise it gives that account, and the settings as they were or with
  -- that email, also where the file could not be written.
  pub lookup_account-IsCareful :
      (cfg : Config) (d : Disk)
      → IsCareful cfg d (lookup_account_for_config faults json api url environment cfg d)
  unfolding lookup_account_for_config lift ◌>>=◌ continue
  lookup_account-IsCareful cfg d = after _ refl
    where
      after :
          (r : Result InstallError Account)
          → lookup_account_by_api_key faults json api url environment cfg.server cfg.api_key ≡ r
          → IsCareful cfg d (continue r (keep_email faults json api url environment cfg) d)
      after (ok account) e = keep_lem cfg account d e
      after (err x) e = record { file = inl refl; settings = inl (x, refl, e) }
