-- ===== src/Tests/Codec.antt =====
-- A codec for the settings of internal/config, in the place of encoding/json.
use mathlib.Core.Path.{subst}
use distil_proxy.Base.{
  zero, suc, ◌==◌, ◌≡◌, refl, ap, append_assoc, length, take, drop, Bool, true, false, Option, some,
  [], ◌∷◌, ◌++◌, if◌then◌else◌, arith,
}
use distil_proxy.Base.Int.{ℤ, pos, negsuc}
use distil_proxy.Base.Text.{Text, Bytes}
use distil_proxy.Config.{Config, ConfigJson, end_of_file}
use distil_proxy.Config.RoundTrip.{IsCodec}

-- A codec: each text behind its length, each number behind its sign.
abbrev pub put_text : Text → Bytes → Bytes
put_text t rest = length t ∷ t ++ rest

pub get_text : Bytes → Text × Bytes
get_text [] = ([], [])
get_text (n ∷ s) = (take n s, drop n s)

abbrev pub put_ℤ : ℤ → Bytes → Bytes
put_ℤ (pos n) rest = 0 ∷ n ∷ rest
put_ℤ (negsuc n) rest = 1 ∷ n ∷ rest

pub get_ℤ : Bytes → ℤ × Bytes
get_ℤ (zero ∷ n ∷ rest) = (pos n, rest)
get_ℤ (suc _ ∷ n ∷ rest) = (negsuc n, rest)
get_ℤ _ = (pos 0, [])

abbrev pub put_flag : Bool → Bytes → Bytes
put_flag b rest = (if b then 1 else 0) ∷ rest

pub get_flag : Bytes → Bool
get_flag [] = false
get_flag (n ∷ _) = n == 1

take-append : (t rest : Text) → take (length t) (t ++ rest) ≡ t
take-append [] rest = refl
take-append (c ∷ t) rest = ap (λ s. c ∷ s) (take-append t rest)

drop-append : (t rest : Text) → drop (length t) (t ++ rest) ≡ rest
drop-append [] rest = refl
drop-append (c ∷ t) rest = drop-append t rest

pub get-put_text : (t rest end : Text) → get_text (put_text t rest ++ end) ≡ (t, rest ++ end)
unfolding get_text
get-put_text t rest end =
    rw (append_assoc t rest end, take-append t (rest ++ end), drop-append t (rest ++ end)) refl

pub get-put_ℤ : (x : ℤ) (rest end : Text) → get_ℤ (put_ℤ x rest ++ end) ≡ (x, rest ++ end)
unfolding get_ℤ
get-put_ℤ (pos n) rest end = refl
get-put_ℤ (negsuc n) rest end = refl

pub get-put_flag : (b : Bool) (rest end : Text) → get_flag (put_flag b rest ++ end) ≡ b
unfolding get_flag
get-put_flag true rest end = refl
get-put_flag false rest end = refl

abbrev payload_of : Config → Bytes
payload_of c = put_text c.api_key (
    put_text c.email (
      put_text c.legacy_proxy_key (
        put_text c.server (
          put_ℤ c.timeout_ms
            (put_text c.log_level (put_ℤ c.upgrade_check_hours (put_flag c.auto_upgrade [])))))))

pub decode_config : Bytes → Option Config
decode_config s =
    let (a, s1) = get_text s in
    let (b, s2) = get_text s1 in
    let (c, s3) = get_text s2 in
    let (d, s4) = get_text s3 in
    let (e, s5) = get_ℤ s4 in
    let (f, s6) = get_text s5 in
    let (g, s7) = get_ℤ s6 in
    some (record {
      api_key = a;
      email = b;
      legacy_proxy_key = c;
      server = d;
      timeout_ms = e;
      log_level = f;
      auto_upgrade = get_flag s7;
      upgrade_check_hours = g;
      auto_upgrade_set = false;
    })

abbrev pub json : ConfigJson
json = record {
  decode = decode_config;
  trailing = λ _. end_of_file;
  has_auto_upgrade = λ _. some true;
  encode = λ c. some (payload_of c);
}

decode-payload :
    (c : Config)
    → decode_config (payload_of c ++ (10 ∷ [])) ≡ some (record c { auto_upgrade_set = false })
unfolding decode_config
decode-payload c =
    rw
      (
        get-put_text c.api_key _ _,
        get-put_text c.email _ _,
        get-put_text c.legacy_proxy_key _ _,
        get-put_text c.server _ _,
        get-put_ℤ c.timeout_ms _ _,
        get-put_text c.log_level _ _,
        get-put_ℤ c.upgrade_check_hours _ _,
        get-put_flag c.auto_upgrade _ _,
      )
      refl

pub some_injective : (a b : Bytes) → Option.some a ≡ some b → a ≡ b
some_injective a b h = ground arith

pub json-IsCodec : IsCodec json
json-IsCodec = record {
  decode-encode = λ c payload e.
      subst (λ p. decode_config (p ++ (10 ∷ [])) ≡ some (record c { auto_upgrade_set = false }))
        (some_injective _ _ e) (decode-payload c);
  trailing-encode = λ c payload e. refl;
  has_auto_upgrade-encode = λ c payload e. refl;
}
