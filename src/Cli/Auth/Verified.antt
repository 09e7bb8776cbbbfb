-- ===== src/Cli/Auth/Verified.antt =====
-- What a success of the `auth` command, internal/cli/commands.go, and of the hook behind an upgrade,
-- internal/cli/commands_upgrade.go, means.
use mathlib.Core.Path.{subst}
use distil_proxy.Base.{
  ◌≡◌, refl, sym, ap, ◌∙◌, ℕ, ◌+◌, Bool, true, false, Option, none, some, ◌∷◌, arith, if◌then◌else◌,
}
use distil_proxy.Base.Int.{ℤ}
use distil_proxy.Base.Text.{Text, codes, trim_space, has_prefix}
use distil_proxy.Disk.{Result, ok, err}
use distil_proxy.Disk.Exec.{pure, raise, lift, ◌>>=◌, wrap}
use distil_proxy.Disk.Success.{bind_ok, mapping_ok}
use distil_proxy.Config.{Config, ConfigError, ConfigJson, apply_defaults, validate_api_key}
use distil_proxy.Daemon.Files.{DaemonError, not_running}
use distil_proxy.Daemon.Process.{Host, System}
use distil_proxy.Daemon.Process
use distil_proxy.Daemon.Start.{Launcher, restart}
use distil_proxy.Daemon.Start.Launch.{past, IsLaunch}
use distil_proxy.Daemon.Start.Again.{IsRestart, restart-IsRestart}
use distil_proxy.Cli.Wait.{WaitError, wait_for_daemon_connected}
use distil_proxy.Cli.Wait.Settles.{IsConnected, IsSettled, wait_for_daemon_connected-IsSettled}
use distil_proxy.Cli.Status.{or_text}
use distil_proxy.Cli.Urls.{UrlCodec}
use distil_proxy.Cli.Auth.{
  Exchange, FetchError, AuthError, bad_api_key, config_error, store_key, restart_error, wait_error,
  fetch_error, run_verification_fetch, wait_connected, restart_daemon, verify_fetch,
  post_auth_finalize, verify_credential, run_post_upgrade_hook, stored_key,
  save_auth_key_with_verification_key,
}

module _ (sys : System) (json : ConfigJson) (spawn : ℕ → Text → Option ℤ)
    (error_text : DaemonError → Text) (url : UrlCodec) (send : Text → Text → Exchange) where
  IsLaunch-child :
      (l l' : Launcher)
      → IsLaunch sys (past l) (ok tt) l'
      → (pid : ℤ) × (l'.spawned ≡ pid ∷ l.spawned)
  unfolding IsLaunch
  IsLaunch-child l l' (pid, e, _) = (pid, ap (λ p. p.spawned) e)

  IsRestart-child :
      (r : Result DaemonError (Unit {0})) (l l' : Launcher)
      → IsRestart sys spawn (past l) r (ok tt) l'
      → (pid : ℤ) × (l'.spawned ≡ pid ∷ l.spawned)
  unfolding IsRestart
  IsRestart-child (ok _) l l' k = IsLaunch-child l l' k
  IsRestart-child (err not_running) l l' k = IsLaunch-child l l' k
  IsRestart-child (err e) l l' k = ground arith

  restart_child :
      (l l' : Launcher)
      → restart sys spawn l ≡ (ok tt, l')
      → (pid : ℤ) × (l'.spawned ≡ pid ∷ l.spawned)
  restart_child l l' e =
      let h = (Process.stop sys l.host).1 in
      let k = (restart-IsRestart sys spawn l).1 in
      IsRestart-child (Process.stop sys l.host).0 (record l { host = h }) l'
        (subst
          (λ s.
            IsRestart sys spawn (past (record l { host = h })) (Process.stop sys l.host).0 s.0 s.1)
          e k)

  connected :
      (l l' : Launcher)
      → wait_connected sys json spawn error_text url send l ≡ (ok tt, l')
      → IsConnected sys l'.host × (l'.spawned ≡ l.spawned)
  unfolding wait_connected
  connected l l' e =
      split (wait_for_daemon_connected error_text sys 20_000 500 l.host)
        (wait_for_daemon_connected-IsSettled sys error_text 20_000 500 l.host (omega arith)) e
    where
      split :
          (s : Result WaitError (Unit {0}) × Host)
          → IsSettled sys (l.host.clock + 20_000) s.0 s.1
          → ◌≡◌ {A = Result AuthError (Unit {0}) × Launcher}
              (wrap wait_error s.0, record l { host = s.1 })
              (ok tt, l')
          → IsConnected sys l'.host × (l'.spawned ≡ l.spawned)
      split (ok _, h) k e = (
        subst (IsConnected sys) (ap (λ r. r.1.host) e) (unfold IsSettled in k),
        sym (ap (λ r. r.1.spawned) e),
      )
      split (err x, h) k e = unfold wrap in ground arith

  wrapped_ok :
      (r : Result FetchError Text) (source : Text) (l l' : Launcher)
      → lift (wrap fetch_error r) l ≡ (ok source, l')
      → (r ≡ ok source) × (l ≡ l')
  unfolding lift wrap
  wrapped_ok (ok s) source l l' e = (ground arith, ap (λ r. r.1) e)
  wrapped_ok (err x) source l l' e = ground arith

  -- A new daemon was started, the last look saw a connected one, and a page came with the key.
  unfoldable pub IsVerified : Text → Text → Text → Launcher → Launcher → Type 0
  IsVerified server key source l l' =
      ((pid : ℤ) × (l'.spawned ≡ pid ∷ l.spawned))
      × IsConnected sys l'.host
      × (run_verification_fetch url send server key ≡ ok source)

  finalized :
      (cfg : Config) (key source : Text) (l l' : Launcher)
      → post_auth_finalize sys json spawn error_text url send cfg key l ≡ (ok source, l')
      → IsVerified cfg.server key source l l'
  unfolding post_auth_finalize restart_daemon verify_fetch IsVerified
  finalized cfg key source l l' e =
      let (_, l1, e1, e2) = bind_ok _ _ source l l' e in
      let (_, l2, e3, e4) = bind_ok _ _ source l1 l' e2 in
      let (pid, p) = restart_child l l1 (mapping_ok restart_error (restart sys spawn) tt l l1 e1) in
      let (c, q) = connected l1 l2 e3 in
      let (f, r) = wrapped_ok _ source l2 l' e4 in
      ((pid, ap (λ n. n.spawned) (sym r) ∙ q ∙ p), subst (λ n. IsConnected sys n.host) r c, f)

  -- The page behind an upgrade: fetched and reported with its source if the key is an account's, else neither.
  unfoldable pub IsChecked : Config → Bool → Option Text → Type 0
  IsChecked cfg false source = source ≡ none
  IsChecked cfg true source =
      (s : Text) × (source ≡ some s)
      × (run_verification_fetch url send cfg.server cfg.api_key ≡ ok s)

  credential_ok :
      (cfg : Config) (b : Bool) (source : Option Text) (l l' : Launcher)
      → verify_credential sys json spawn error_text url send cfg b l ≡ (ok source, l')
      → IsChecked cfg b source × (l ≡ l')
  unfolding verify_credential verify_fetch pure IsChecked
  credential_ok cfg false source l l' e = (ground arith, ap (λ r. r.1) e)
  credential_ok cfg true source l l' e =
      let (s, l1, e1, e2) = bind_ok _ _ source l l' e in
      let (f, q) = wrapped_ok _ s l l1 e1 in ((s, sourced s l1 e2, f), q ∙ ap (λ r. r.1) e2)
    where
      sourced :
          (s : Text) (l1 : Launcher)
          → ◌≡◌ {A = Result AuthError (Option Text) × Launcher} (ok (some s), l1) (ok source, l')
          → source ≡ some s
      sourced s l1 e2 = ground arith

  -- A success of the hook: a new daemon, connected, that fetched a page if the key is an account's.
  unfoldable pub IsHooked : Config → Option Text → Launcher → Launcher → Type 0
  IsHooked cfg source l l' =
      ((pid : ℤ) × (l'.spawned ≡ pid ∷ l.spawned))
      × IsConnected sys l'.host
      × IsChecked cfg (has_prefix (trim_space cfg.api_key) (codes "dk_")) source

  pub hook-IsHooked :
      (cfg : Config) (source : Option Text) (l l' : Launcher)
      → run_post_upgrade_hook sys json spawn error_text url send cfg l ≡ (ok source, l')
      → IsHooked cfg source l l'
  unfolding run_post_upgrade_hook restart_daemon IsHooked
  hook-IsHooked cfg source l l' e =
      let (_, l1, e1, e2) = bind_ok _ _ source l l' e in
      let (_, l2, e3, e4) = bind_ok _ _ source l1 l' e2 in
      let (pid, p) = restart_child l l1 (mapping_ok restart_error (restart sys spawn) tt l l1 e1) in
      let (c, q) = connected l1 l2 e3 in
      let (f, r) = credential_ok cfg _ source l2 l' e4 in
      ((pid, ap (λ n. n.spawned) (sym r) ∙ q ∙ p), subst (λ n. IsConnected sys n.host) r c, f)

  stored_ok :
      (api_key email : Text) (cfg : Config) (l l' : Launcher)
      → stored_key sys json spawn error_text url send api_key email l ≡ (ok cfg, l')
      → ((store_key sys.faults json api_key email l.host.disk).0 ≡ ok cfg)
        × (l'.spawned ≡ l.spawned)
  unfolding stored_key wrap
  stored_ok api_key email cfg l l' e = (
    unwrapped (store_key sys.faults json api_key email l.host.disk).0 (ap (λ r. r.0) e),
    sym (ap (λ r. r.1.spawned) e),
  )
    where
      unwrapped : (r : Result ConfigError Config) → wrap config_error r ≡ ok cfg → r ≡ ok cfg
      unwrapped (ok c) q = ground arith
      unwrapped (err x) q = ground arith

  -- The settings that were stored with the key and the email, and a daemon verified against their server
  unfoldable pub IsSaved : Text → Text → Text → Text → Launcher → Launcher → Type 0
  IsSaved api_key email used source l l' =
      (cfg : Config) × ((store_key sys.faults json api_key email l.host.disk).0 ≡ ok cfg)
      × IsVerified (apply_defaults cfg).server used source l l'

  -- If the `auth` command succeeds with a key, then the key without its spaces has the form of one; it was stored
  -- with the email, at the start of the command; a new daemon was started; the last look was a `Status` that told
  -- of a daemon in the state "connected" that runs and is a process of ours from the PID file; and the proxy of
  -- the server in the settings that were stored had served a page with the verification key, or with the key
  -- itself where that is blank.
  pub save_auth_key-IsVerified :
      (key email verification_key source : Text) (l l' : Launcher)
      → save_auth_key_with_verification_key sys json spawn error_text url send key email
          verification_key l
        ≡ (ok source, l')
      → (validate_api_key (trim_space key) ≡ true)
        × IsSaved
            (trim_space key)
            email
            (or_text (trim_space verification_key) (trim_space key))
            source
            l
            l'
  unfolding save_auth_key_with_verification_key IsSaved
  save_auth_key-IsVerified key email verification_key source l l' =
      split (validate_api_key (trim_space key)) refl
    where
      used : Text
      used = or_text (trim_space verification_key) (trim_space key)

      moved :
          (server : Text) (l1 : Launcher)
          → l1.spawned ≡ l.spawned
          → IsVerified server used source l1 l'
          → IsVerified server used source l l'
      moved server l1 q k =
          unfold IsVerified in let ((pid, p), c, f) = k in ((pid, p ∙ ap (λ t. pid ∷ t) q), c, f)

      split :
          (b : Bool)
          → validate_api_key (trim_space key) ≡ b
          → (if b
                then (stored_key sys json spawn error_text url send (trim_space key) email
                    >>= λ cfg.
                        post_auth_finalize sys json spawn error_text url send
                          (apply_defaults cfg)
                          used)
                else raise bad_api_key)
              l
            ≡ (ok source, l')
          → (validate_api_key (trim_space key) ≡ true)
            × IsSaved (trim_space key) email used source l l'
      split true v e =
          let (cfg, l1, e1, e2) = bind_ok _ _ source l l' e in
          let (stored, q) = stored_ok (trim_space key) email cfg l l1 e1 in
          (
            v,
            (
              cfg,
              stored,
              moved (apply_defaults cfg).server l1 q
                  (finalized (apply_defaults cfg) used source l1 l' e2),
            ),
          )
      split false v e = unfold raise in ground arith
