-- ===== src/Config/Valid.antt =====
-- Which settings `Validate` accepts, and what `ApplyDefaults` makes of the others.
use mathlib.Core.Path.{subst}
use distil_proxy.Base.{
  Option-cases, ◌≡◌, refl, ◌↔◌, inl, inr, Bool, true, false, Option, none, some, [], ◌∷◌, arith,
}
use distil_proxy.Base.Int.{ℤ, pos, leb_ℤ, ◌<ℤ◌}
use distil_proxy.Base.Text.{Text, Bytes, to_lower, text_eq, is_empty, is_space, trim_space}
use distil_proxy.Base.Text.Trim.{trim_space-black_head}
use distil_proxy.Disk.{ok}
use distil_proxy.ApiKey.{IsApiKey, key_test_iff, if_or}
use distil_proxy.Config.{
  Config, ConfigJson, validate, validate_api_key, is_supported_log_level, is_one_of, log_levels,
  Trailing, parse_config, valid_or_error, with_presence, with_trailing, with_decoded, end_of_file,
  another_value, malformed,
}

-- The settings that the daemon may run with.
pub record IsValid (c : Config) : Type 0 where
  pub api_key_ok : IsApiKey c.api_key
  pub server_ok : is_empty (trim_space c.server) ≡ false
  pub timeout_ok : pos 0 <ℤ c.timeout_ms
  pub log_level_ok : is_supported_log_level c.log_level ≡ true
  pub hours_ok : pos 0 <ℤ c.upgrade_check_hours

validate_api_key_iff : (key : Text) → (validate_api_key key ≡ true) ↔ IsApiKey key
unfolding validate_api_key
validate_api_key_iff key = rw (if_or _ _) (key_test_iff key)

key-not_blank : (key : Text) → IsApiKey key → is_empty (trim_space key) ≡ false
unfolding is_space
key-not_blank key (inl (r, _, e)) = rw e (trim_space-black_head 100 (107 ∷ 95 ∷ r) refl)
key-not_blank key (inr (r, _, e)) = rw e (trim_space-black_head 100 (112 ∷ 107 ∷ 95 ∷ r) refl)

one_of-not_empty : (s : Text) → is_one_of log_levels (to_lower s) ≡ true → is_empty s ≡ false
unfolding is_one_of text_eq to_lower
one_of-not_empty [] h = ground arith
one_of-not_empty (c ∷ s) h = refl

pub level-not_blank :
    (level : Text) → is_supported_log_level level ≡ true → is_empty (trim_space level) ≡ false
unfolding is_supported_log_level
level-not_blank level h = one_of-not_empty (trim_space level) h

positive_lem : (x : ℤ) → leb_ℤ x (pos 0) ≡ false → pos 0 <ℤ x
positive_lem x h = ground arith

pub positive_inv : (x : ℤ) → pos 0 <ℤ x → leb_ℤ x (pos 0) ≡ false
positive_inv x h = ground arith

-- `Validate` finds no error exactly in the settings that are valid.
pub validate_iff : (c : Config) → (validate c ≡ none) ↔ IsValid c
unfolding validate
validate_iff c = (
  λ h. record {
    api_key_ok = (validate_api_key_iff c.api_key).0 (ground arith);
    server_ok = ground arith;
    timeout_ok = positive_lem c.timeout_ms (ground arith);
    log_level_ok = ground arith;
    hours_ok = positive_lem c.upgrade_check_hours (ground arith);
  },
  λ v.
      let k = key-not_blank c.api_key v.api_key_ok in
      let k' = (validate_api_key_iff c.api_key).1 v.api_key_ok in
      let l = level-not_blank c.log_level v.log_level_ok in
      let t = positive_inv c.timeout_ms v.timeout_ok in
      let u = positive_inv c.upgrade_check_hours v.hours_ok in
      rw (k, k', v.server_ok, t, l, u, v.log_level_ok) refl,
)

valid_or_error-IsValid : (c c' : Config) → valid_or_error c ≡ ok c' → IsValid c'
unfolding valid_or_error
valid_or_error-IsValid c c' h = elim (Option-cases (validate c)) [
  | inl e ↦ subst IsValid (the_same e) ((validate_iff c).0 e)
  | inr (x, e) ↦ ground arith
]
  where
    the_same : validate c ≡ none → c ≡ c'
    the_same e = ground arith

with_presence-IsValid : (c c' : Config) (b : Option Bool) → with_presence c b ≡ ok c' → IsValid c'
unfolding with_presence
with_presence-IsValid c c' none h = ground arith
with_presence-IsValid c c' (some b) h = valid_or_error-IsValid _ c' h

with_trailing-IsValid :
    (c c' : Config) (t : Trailing) (b : Option Bool) → with_trailing c t b ≡ ok c' → IsValid c'
unfolding with_trailing
with_trailing-IsValid c c' end_of_file b h = with_presence-IsValid c c' b h
with_trailing-IsValid c c' another_value b h = ground arith
with_trailing-IsValid c c' malformed b h = ground arith

with_decoded-IsValid :
    (c : Config) (o : Option Config) (t : Trailing) (b : Option Bool)
    → with_decoded o t b ≡ ok c
    → IsValid c
unfolding with_decoded
with_decoded-IsValid c none t b h = ground arith
with_decoded-IsValid c (some x) t b h = with_trailing-IsValid x c t b h

pub parse_config-IsValid :
    (json : ConfigJson) (content : Bytes) (c : Config)
    → parse_config json content ≡ ok c
    → IsValid c
unfolding parse_config
parse_config-IsValid json content c h = with_decoded-IsValid c (json.decode content) _ _ h
