-- ===== src/Ws/Config/Valid.antt =====
-- What `NewClient` accepts, and what it makes of the settings.
use mathlib.Core.Path.{subst}
use distil_proxy.Base.{◌∙◌, ap, ◌≡◌, refl, ◌↔◌, ◌≢◌, true, [], arith}
use distil_proxy.Base.Int.{pos, ◌<ℤ◌}
use distil_proxy.Base.Text.{Text, is_some}
use distil_proxy.ApiKey.{IsApiKey, key_test_iff, if_or}
use distil_proxy.Ws.Config.{ClientConfig, client, new_client, validate_api_key, with_defaults}

-- The key check accepts exactly the keys `dk_…` and `dpk_…` with at least one character behind the
-- prefix.
pub validate_api_key_iff : (key : Text) → (validate_api_key key ≡ true) ↔ IsApiKey key
validate_api_key_iff key = unfold validate_api_key in rw (if_or _ _) (key_test_iff key)

accepted :
    (cfg : ClientConfig) {c : ClientConfig}
    → new_client cfg ≡ client c
    → (cfg.server_url ≢ []) × (validate_api_key cfg.api_key ≡ true) × (with_defaults cfg ≡ c)
unfolding new_client
accepted cfg {c} h = ground arith

-- Settings that a client can run with.
pub record IsUsable (c : ClientConfig) : Type 0 where
  pub timeout_pos : pos 0 <ℤ c.default_timeout_ms
  pub heartbeat_pos : pos 0 <ℤ c.heartbeat_interval
  pub first_delay_pos : pos 0 <ℤ c.initial_reconnect
  pub last_delay_pos : pos 0 <ℤ c.max_reconnect_wait
  pub has_version : c.protocol_version ≢ []
  pub has_fetcher : is_some c.fetcher ≡ true
  pub has_registry : is_some c.job_registry ≡ true

with_defaults-IsUsable : (cfg : ClientConfig) → IsUsable (with_defaults cfg)
unfolding with_defaults
with_defaults-IsUsable cfg = ground arith

with_defaults_idem : (cfg : ClientConfig) → with_defaults (with_defaults cfg) ≡ with_defaults cfg
unfolding with_defaults
with_defaults_idem cfg = ground arith

with_defaults_kept :
    (cfg : ClientConfig)
    → ((with_defaults cfg).server_url ≡ cfg.server_url)
      × ((with_defaults cfg).api_key ≡ cfg.api_key)
unfolding with_defaults
with_defaults_kept cfg = (refl, refl)

new_client_of_good :
    (cfg : ClientConfig)
    → cfg.server_url ≢ []
    → validate_api_key cfg.api_key ≡ true
    → new_client cfg ≡ client (with_defaults cfg)
unfolding new_client
new_client_of_good cfg server key = ground arith

new_client-with_defaults :
    (cfg : ClientConfig)
    → cfg.server_url ≢ []
    → validate_api_key cfg.api_key ≡ true
    → new_client (with_defaults cfg) ≡ client (with_defaults cfg)
new_client-with_defaults cfg server key =
    let (same_server, same_key) = with_defaults_kept cfg in
    new_client_of_good (with_defaults cfg) (rw same_server server) (rw same_key key)
    ∙ ap client (with_defaults_idem cfg)

-- `NewClient` accepts only settings with a server and a key `dk_…` or `dpk_…`. The client's
-- timeout, heartbeat and delays are then above 0, it has a protocol version, an executor and a
-- registry, the server and the key are those given, and to normalise it again changes nothing.
pub new_client_valid :
    (cfg : ClientConfig) {c : ClientConfig}
    → new_client cfg ≡ client c
    → (cfg.server_url ≢ [])
      × IsApiKey cfg.api_key
      × IsUsable c
      × (c.server_url ≡ cfg.server_url)
      × (c.api_key ≡ cfg.api_key)
      × (new_client c ≡ client c)
new_client_valid cfg {c} h =
    let (server, key, made) = accepted cfg {c = c} h in
    let (same_server, same_key) = with_defaults_kept cfg in
    (
      server,
      (validate_api_key_iff cfg.api_key).0 key,
      subst IsUsable made (with_defaults-IsUsable cfg),
      subst (λ d. d.server_url ≡ cfg.server_url) made same_server,
      subst (λ d. d.api_key ≡ cfg.api_key) made same_key,
      subst (λ d. new_client d ≡ client d) made (new_client-with_defaults cfg server key),
    )
