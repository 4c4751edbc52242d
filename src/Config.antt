-- ===== src/Config.antt =====
-- internal/config/log.go. `strings.ToLower` is a parameter.
use subscription_reconciler.Base.{String, ◌==◌, if◌then◌else◌}

-- The levels of log/slog.
pub data Level : Type 0 where
  level_debug : Level
  level_info : Level
  level_warn : Level
  level_error : Level

abbrev pub level_of : String → Level
level_of s =
    if s == "debug"
    then level_debug
    else if s == "info"
    then level_info
    else if s == "warn"
    then level_warn
    else if s == "error"
    then level_error
    else level_info

unfoldable pub parse_level_from_string : (String → String) → String → Level
parse_level_from_string to_lower level = level_of (to_lower level)
