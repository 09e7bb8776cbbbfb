-- ===== src/Observability/Logger/Levels.antt =====
-- The levels that `ParseLevel` of internal/observability/logger.go and `isSupportedLogLevel` of
-- internal/config/config.go know.
use distil_proxy.Base.{◌≡◌, refl, true, ◌||◌, Option, none, some, [], ◌∷◌, arith}
use distil_proxy.Base.Text.{Text, text_eq, to_lower, trim_space, is_empty, is_some}
use distil_proxy.Config.{is_supported_log_level, is_one_of, log_levels}
use distil_proxy.Observability.Logger.{Level, level_of, parse_level}

level_of_lem :
    (name : Text) → is_some (level_of name) ≡ (is_one_of log_levels name || text_eq name [])
unfolding level_of is_one_of
level_of_lem name = ground arith

empty_lower : (s : Text) → text_eq (to_lower s) [] ≡ is_empty s
unfolding to_lower text_eq
empty_lower [] = refl
empty_lower (c ∷ s) = refl

-- A logger can be built exactly for the levels that the configuration supports, and for a blank one.
pub parse_level_lem :
    (level : Text)
    → is_some (parse_level level) ≡ (is_supported_log_level level || is_empty (trim_space level))
unfolding parse_level is_supported_log_level
parse_level_lem level =
    rw (level_of_lem (to_lower (trim_space level)), empty_lower (trim_space level)) refl

pub level_ok :
    (level : Text)
    → is_supported_log_level level ≡ true
    → (l : Level) × (parse_level level ≡ some l)
level_ok level h = split (parse_level level) refl (rw (parse_level_lem level, h) refl)
  where
    split :
        (o : Option Level)
        → parse_level level ≡ o
        → is_some (parse_level level) ≡ true
        → (l : Level) × (parse_level level ≡ some l)
    split (some l) e k = (l, e)
    split none e k = absurd (ground (arith, e))
