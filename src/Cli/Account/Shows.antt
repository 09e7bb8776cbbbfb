-- ===== src/Cli/Account/Shows.antt =====
-- What the whole `status` command shows: internal/cli/status.go.
use distil_proxy.Base.{◌≡◌, refl, ap, Bool, true, false, ◌&&◌, not, some, if◌then◌else◌, arith}
use distil_proxy.Base.Int.{ℤ}
use distil_proxy.Base.Text.{Text, trim_space, is_empty}
use distil_proxy.Disk.{Disk, Result, ok, err}
use distil_proxy.Disk.Exec.{◌>>=◌, continue, mapping, wrap, attempt, pure}
use distil_proxy.Config.{Config, ConfigError, ConfigJson, apply_defaults, load}
use distil_proxy.Daemon.Files.{RuntimeStatus, DaemonError}
use distil_proxy.Daemon.Process.{Host, System}
use distil_proxy.Daemon.Status.{status}
use distil_proxy.Daemon.Status.Truth.{Holds, IsTrue, status-IsTrue}
use distil_proxy.Cli.Interactive.{InstallApi}
use distil_proxy.Cli.Status.{Formats, StatusOutput, build_status_output}
use distil_proxy.Cli.Status.Shows.{IsShown, build-IsShown}
use distil_proxy.Cli.Urls.{UrlCodec}
use distil_proxy.Cli.Account.{
  AccountError, account_email, email_found, lookup_account_for_config, account_shown, output_of,
  reported, shown_of, show_status, status_failed,
}

module _ (sys : System) (json : ConfigJson) (api : InstallApi) (url : UrlCodec) (environment : Text)
    (formats : Formats) (version : Text) where
  -- The account and the settings give an email, whatever fails.
  account_email_ok :
      (r : Result ConfigError Config) (d : Disk)
      → (x : Text) × ((account_email sys.faults json api url environment r d).0 ≡ ok x)
  unfolding account_email attempt pure ◌>>=◌ continue
  account_email_ok (err e) d = (_, refl)
  account_email_ok (ok c) d = decide (
      is_empty (trim_space (apply_defaults c).email)
      && not (is_empty (trim_space (apply_defaults c).api_key)))
    where
      decide :
          (b : Bool)
          → (x : Text) × (◌≡◌ {A = Result AccountError Text}
              ((if b
                  then (do
                    r ← attempt (
                        lookup_account_for_config sys.faults json api url environment
                          (apply_defaults c))
                    pure (
                        email_found sys.faults json api url environment
                          (trim_space (apply_defaults c).email)
                          r))
                  else pure (trim_space (apply_defaults c).email))
                d).0
              (ok x))
      decide true = (_, refl)
      decide false = (_, refl)

  account_shown_ok :
      (d : Disk)
      → (x : Text × Text) × ((account_shown sys.faults json api url environment d).0 ≡ ok x)
  unfolding account_shown attempt pure ◌>>=◌ continue
  account_shown_ok d =
      let (r, d') = load sys.faults json d in
      let (x, e) = account_email_ok r d' in ((_, x), with_email _ e)
    where
      with_email :
          (t : Result AccountError Text × Disk) {server x : Text}
          → t.0 ≡ ok x
          → ◌≡◌ {A = Result AccountError (Text × Text)}
              (continue t.0 (λ email d. (ok (server, email), d)) t.1).0
              (ok (server, x))
      with_email (ok y, d) e = ground arith
      with_email (err z, d) e = ground arith

  -- What the command gives for the result of `Status`
  abbrev pub Shown :
      Disk → Result DaemonError RuntimeStatus → Result AccountError StatusOutput → Type 0
  Shown d (ok s) r = (out : StatusOutput) × (r ≡ ok out) × IsShown sys d out
  Shown d (err e) r = r ≡ err (status_failed e)

  -- With a home directory, the `status` command fails exactly as `Status` does, whatever becomes of the settings and of
  -- the request for the account. Otherwise it shows the state "stopped", or the number of a process from
  -- the PID file that was seen to run a command of this executable. Both places for the state show the same, the
  -- uptime is not below 0, and its text reads as the same number of seconds.
  pub show_status-IsShown :
      (home : Text) (now : ℤ) (h : Host)
      → Shown h.disk
          (status sys h).0
          (show_status sys json api url environment formats version (some home) now h).0
  unfolding show_status shown_of reported mapping wrap ◌>>=◌ continue
  show_status-IsShown home now h = after (status sys h) (status-IsTrue sys h)
    where
      after :
          (s : Result DaemonError RuntimeStatus × Host)
          → Holds (IsTrue sys h.disk) s.0
          → Shown h.disk s.0
              (continue
                (wrap status_failed s.0)
                (λ s. shown_of sys json api url environment formats version s now)
                s.1).0
      after (ok s, h') k =
          let (x, e) = account_shown_ok h'.disk in
          (
            build_status_output formats version x.0 x.1 s now,
            ap (output_of sys json api url environment formats version s now) e,
            build-IsShown sys formats version x.0 x.1 s now h.disk k,
          )
      after (err e, h') k = refl
