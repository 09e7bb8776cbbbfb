-- ===== src/Daemon/Run/Accepts.antt =====
-- The settings that internal/config/config.go accepts, in `StartForeground` and `Run` of internal/daemon/service.go.
use distil_proxy.Base.{◌≡◌, refl, true, false, some, [], ◌∷◌}
use distil_proxy.Base.Text.{Text, is_empty, trim_space}
use distil_proxy.Config.{Config}
use distil_proxy.Config.Valid.{IsValid}
use distil_proxy.Observability.Logger.{Level, parse_level}
use distil_proxy.Observability.Logger.Levels.{level_ok}
use distil_proxy.Ws.Config.{client, new_client, with_defaults, validate_api_key}
use distil_proxy.Ws.Config.Valid.{validate_api_key_iff}
use distil_proxy.Daemon.Run.{client_config}

not_empty : (s : Text) → is_empty (trim_space s) ≡ false → is_empty s ≡ false
unfolding trim_space
not_empty [] h = h
not_empty (c ∷ s) h = refl

-- With settings that `Validate` accepts, the daemon gets a logger and a client: `ParseLevel` knows their level, and
-- `NewClient` takes what `Run` makes of them.
pub valid_config_accepted :
    (cfg : Config)
    → IsValid cfg
    → ((level : Level) × (parse_level cfg.log_level ≡ some level))
      × (new_client (client_config cfg) ≡ client (with_defaults (client_config cfg)))
valid_config_accepted cfg v = (level_ok cfg.log_level v.log_level_ok, accepted)
  where
    key : validate_api_key cfg.api_key ≡ true
    key = (validate_api_key_iff cfg.api_key).1 v.api_key_ok

    accepted : new_client (client_config cfg) ≡ client (with_defaults (client_config cfg))
    accepted = unfold client_config new_client in rw (not_empty cfg.server v.server_ok, key) refl
