-- ===== src/Upgrade/Query.antt =====
-- The request for a release, in `fetchLatest` of internal/upgrade/manager.go.
use distil_proxy.Base.{List, [], ◌∷◌, ◌≡◌, refl, if◌then◌else◌}
use distil_proxy.Base.Text.{Text, codes, text_eq, trim_space, to_lower, is_empty}

-- The fields of `ManagerConfig` that the request shows
pub record Client : Type 0 where
  -- without its query, and the pairs of its query, as net/url reads them
  pub endpoint_url : Text
  pub endpoint_query : List (Text × Text)
  pub os : Text
  pub arch : Text
  pub api_key : Text

pub record Query : Type 0 where
  pub url : Text
  pub query : List (Text × Text)
  pub headers : List (Text × Text)

-- `normalizeOS`
unfoldable pub normalize_os : Text → Text
normalize_os value = to_lower (trim_space value)

-- `normalizeArch`
unfoldable pub normalize_arch : Text → Text
normalize_arch value =
    let arch = to_lower (trim_space value) in
    if text_eq arch (codes "x86_64")
    then codes "amd64"
    else if text_eq arch (codes "aarch64")
    then codes "arm64"
    else arch

-- `Values.Set`: the pairs are in no order, which `Encode` makes.
unfoldable pub set_value : Text → Text → List (Text × Text) → List (Text × Text)
set_value key value [] = (key, value) ∷ []
set_value key value ((k, v) ∷ query) =
    let rest = set_value key value query in if text_eq k key then rest else (k, v) ∷ rest

-- The request
unfoldable pub release_query : Client → Query
release_query c = record {
  url = c.endpoint_url;
  query =
      set_value (codes "arch") (normalize_arch c.arch)
        (set_value (codes "os") (normalize_os c.os) c.endpoint_query);
  headers = if is_empty (trim_space c.api_key) then [] else (codes "X-Distil-Key", c.api_key) ∷ [];
}

names_amd64 : normalize_arch (codes " X86_64") ≡ codes "amd64"
unfolding normalize_arch trim_space to_lower text_eq
names_amd64 = refl

overrides :
    set_value (codes "os") (codes "linux") ((codes "os", []) ∷ [])
    ≡ (codes "os", codes "linux") ∷ []
unfolding set_value text_eq
overrides = refl
