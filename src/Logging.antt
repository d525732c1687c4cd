-- ===== src/Logging.antt =====
-- internal/logging/logging.go. A logger keeps the lines that it has written, to
-- whichever writer; the time stamp and the
-- formatted message are arguments, and so is `normal`, strings.ToLower after strings.TrimSpace.
pub mod Filter
mod Tests
use xbslink_ng.Base.{
  ℕ, Bool, true, false, Option, none, some, List, [], ◌∷◌, ◌++◌, ltb, if◌then◌else◌, codes, equal,
  ◌||◌,
}

pub data Level : Type 0 where
  level_error level_warn level_info level_debug level_trace : Level

-- The number of a level.
abbrev pub rank : Level → ℕ
rank level_error = 0
rank level_warn = 1
rank level_info = 2
rank level_debug = 3
rank level_trace = 4

-- `Level.String`.
unfoldable pub level_string : Level → List ℕ
level_string level_error = codes "ERROR"
level_string level_warn = codes "WARN"
level_string level_info = codes "INFO"
level_string level_debug = codes "DEBUG"
level_string level_trace = codes "TRACE"

-- The escape sequences ESC [ code m.
abbrev escape : List ℕ → List ℕ
escape code = 27 ∷ b'[' ∷ code ++ (b'm' ∷ [])

abbrev color_reset : List ℕ
color_reset = escape (codes "0")

abbrev color_bold : List ℕ
color_bold = escape (codes "1")

unfoldable pub color_code : Level → List ℕ
color_code level_error = escape (codes "31")
color_code level_warn = escape (codes "33")
color_code level_info = escape (codes "32")
color_code level_debug = escape (codes "36")
color_code level_trace = escape (codes "90")

pub record Logger : Type 0 where
  pub level : Level
  pub use_color : Bool
  pub lines : List (List ℕ)

-- `NewLogger`, on an output that is a terminal or not.
unfoldable pub new_logger : Level → Bool → Logger
new_logger level tty = record { level = level; use_color = tty; lines = [] }

unfoldable pub set_level : Logger → Level → Logger
set_level l level = record l { level = level }

-- `SetOutput`: a file that is a terminal or not, or another writer, which has no colours.
unfoldable pub set_output : Logger → Option Bool → Logger
set_output l none = record l { use_color = false }
set_output l (some tty) = record l { use_color = tty }

unfoldable pub set_color_enabled : Logger → Bool → Logger
set_color_enabled l enabled = record l { use_color = enabled }

-- The line of a message.
unfoldable pub log_line : Bool → Level → List ℕ → List ℕ → List ℕ
unfolding color_code level_string
log_line use_color level time message =
    if use_color
    then time
      ++ codes " ["
      ++ color_code level
      ++ level_string level
      ++ color_reset
      ++ codes "]  "
      ++ message
      ++ codes "\n"
    else time ++ codes " [" ++ level_string level ++ codes "]  " ++ message ++ codes "\n"

-- `log`, and so `Error`, `Warn`, `Info`, `Debug` and `Trace` at their levels.
unfoldable pub log : Logger → Level → List ℕ → List ℕ → Logger
log l level time message =
    if ltb (rank l.level) (rank level)
    then l
    else record l { lines = l.lines ++ (log_line l.use_color level time message ∷ []) }

unfoldable pub stats_entry : Bool → List ℕ → List ℕ → List ℕ
stats_entry use_color time message =
    if use_color
    then time
      ++ codes " ["
      ++ color_bold
      ++ codes "STATS"
      ++ color_reset
      ++ codes "] "
      ++ message
      ++ codes "\n"
    else time ++ codes " [STATS] " ++ message ++ codes "\n"

-- `Logger.Stats`, at every level.
unfoldable pub log_stats : Logger → List ℕ → List ℕ → Logger
log_stats l time message = record l {
  lines = l.lines ++ (stats_entry l.use_color time message ∷ []);
}

-- `ParseLevel` on the text in normal form.
unfoldable pub level_of : List ℕ → Option Level
level_of s =
    if equal s (codes "error")
    then some level_error
    else if equal s (codes "warn") || equal s (codes "warning")
    then some level_warn
    else if equal s (codes "info")
    then some level_info
    else if equal s (codes "debug")
    then some level_debug
    else if equal s (codes "trace")
    then some level_trace
    else none

unfoldable pub parse_level : (List ℕ → List ℕ) → List ℕ → Option Level
unfolding level_of
parse_level normal s = level_of (normal s)
