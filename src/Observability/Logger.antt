-- ===== src/Observability/Logger.antt =====
-- internal/observability/logger.go: the level of a logger and the attributes of an event.
pub mod Levels
use distil_proxy.Base.{
  Bool, true, false, Option, none, some, List, [], ◌∷◌, ◌++◌, ◌||◌, if◌then◌else◌,
}
use distil_proxy.Base.Int.{ℤ, pos, leb_ℤ}
use distil_proxy.Base.Text.{Text, codes, text_eq, to_lower, trim_space, is_empty}

-- The levels of log/slog that are used.
pub data Level : Type 0 where
  level_debug level_info level_warn level_error : Level

-- The `switch` of `ParseLevel`
unfoldable pub level_of : Text → Option Level
level_of name =
    if text_eq name (codes "debug")
    then some level_debug
    else if text_eq name [] || text_eq name (codes "info")
    then some level_info
    else if text_eq name (codes "warn") || text_eq name (codes "warning")
    then some level_warn
    else if text_eq name (codes "error")
    then some level_error
    else none

-- `ParseLevel`
unfoldable pub parse_level : Text → Option Level
parse_level level = level_of (to_lower (trim_space level))

pub record EventFields : Type 0 where
  pub job_id : Text
  pub event : Text
  pub duration_ms : ℤ

pub data Attr : Type 0 where
  attr_text : Text → Text → Attr
  attr_int : Text → ℤ → Attr

abbrev text_attr : Text → Text → List Attr
text_attr key value = if is_empty (trim_space value) then [] else attr_text key value ∷ []

-- `Attrs`
unfoldable pub attrs : EventFields → List Attr
attrs f =
    text_attr (codes "job_id") f.job_id
    ++ (text_attr (codes "event") f.event
        ++ (if leb_ℤ (pos 0) f.duration_ms
            then attr_int (codes "duration_ms") f.duration_ms ∷ []
            else []))
