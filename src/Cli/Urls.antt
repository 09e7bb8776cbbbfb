-- ===== src/Cli/Urls.antt =====
-- The addresses that the commands use: `resolveAuthBaseURL`, `proxyHTTPBaseURL` and `buildDashboardURL` of
-- internal/cli/commands.go. net/url is the parameter `UrlCodec`.
use distil_proxy.Base.{◌&&◌, ◌||◌, Option, none, some, List, [], ◌∷◌, ◌++◌, if◌then◌else◌}
use distil_proxy.Base.Text.{
  Text, codes, text_eq, trim_space, trim_slashes, to_lower, is_empty, has_prefix, trim_prefix,
}

-- The fields of `url.URL` that are read or set, with what `Hostname` and `Port` give.
pub record Url : Type 0 where
  pub scheme : Text
  pub host : Text
  pub hostname : Text
  pub port : Text
  pub path : Text
  pub raw_path : Text
  pub raw_query : Text
  pub fragment : Text

pub record UrlCodec : Type 0 where
  pub parse : Text → Option Url
  pub print : Url → Text
  -- `Values.Encode`
  pub encode_query : List (Text × Text) → Text

abbrev default_site : Text
default_site = codes "https://distil.net"

-- `resolveAuthBaseURL` with a parsed address
unfoldable pub site_of : Url → Text
site_of u =
    let host = to_lower (trim_space u.hostname) in
    let scheme =
      if text_eq u.scheme (codes "ws") || text_eq u.scheme (codes "http")
      then codes "http"
      else codes "https" in
    if is_empty u.hostname
    then default_site
    else if (text_eq host (codes "localhost") || text_eq host (codes "127.0.0.1"))
        && text_eq u.port (codes "3120")
    then scheme ++ (codes "://" ++ (host ++ codes ":3000"))
    else if text_eq host (codes "proxy.distil.net")
    then default_site
    else if has_prefix host (codes "proxy.")
    then codes "https://" ++ trim_prefix host (codes "proxy.")
    else default_site

-- The scheme of `proxyHTTPBaseURL`
unfoldable pub http_scheme : Text → Text → Text
http_scheme lowered old =
    if text_eq lowered (codes "ws")
    then codes "http"
    else if text_eq lowered (codes "wss")
    then codes "https"
    else if text_eq lowered (codes "http") || text_eq lowered (codes "https")
    then old
    else codes "https"

module _ (url : UrlCodec) where
  -- `resolveAuthBaseURL`, with the environment's `DISTIL_AUTH_BASE_URL`
  unfoldable pub resolve_auth_base_url : Text → Text → Text
  resolve_auth_base_url environment server =
      let override = trim_space environment in
      if is_empty override
      then elim (url.parse (trim_space server)) [ none ↦ default_site | some u ↦ site_of u ]
      else trim_slashes override

  unfoldable pub http_base_of : Url → Text
  http_base_of u =
      if is_empty (trim_space u.host)
      then codes "https://proxy.distil.net"
      else trim_slashes (
          url.print (record u {
            scheme = http_scheme (to_lower (trim_space u.scheme)) u.scheme;
            path = [];
            raw_path = [];
            raw_query = [];
            fragment = [];
          }))

  -- `proxyHTTPBaseURL`
  unfoldable pub proxy_http_base_url : Text → Text
  proxy_http_base_url server_url = elim (url.parse (trim_space server_url)) [
    | none ↦ codes "https://proxy.distil.net"
    | some u ↦ http_base_of u
  ]

  -- `buildDashboardURL`
  unfoldable pub build_dashboard_url : Text → Text → Text
  build_dashboard_url base_url magic_link_token =
      let trimmed = trim_slashes (trim_space base_url) in
      let base = if is_empty trimmed then default_site else trimmed in
      if is_empty (trim_space magic_link_token)
      then base ++ codes "/account"
      else base
        ++ (codes "/login/verify?"
            ++ url.encode_query
                ((codes "token", magic_link_token) ∷ (codes "next", codes "/account") ∷ []))
