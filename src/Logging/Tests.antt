-- ===== src/Logging/Tests.antt =====
-- internal/logging/logging.go: the model on concrete calls.
use mathlib.Core.List.{map}
use xbslink_ng.Base.{
  ℕ, ◌+◌, false, ◌≡◌, refl, ap₂, some, none, List, [], ◌∷◌, ◌++◌, arith, All, leb, ◌&&◌,
  if◌then◌else◌, codes,
}
use xbslink_ng.Logging.{
  level_warn, level_info, level_debug, new_logger, level_string, level_of, parse_level, log,
  log_line, color_code, stats_entry, log_stats,
}
use xbslink_ng.Logging.Filter.{Call, message, stats, write_all, due, write_all-due, IsUpper}

-- strings.ToLower on ASCII.
lower : List ℕ → List ℕ
lower [] = []
lower (c ∷ s) = let rest = lower s in (if leb b'A' c && leb c b'Z' then c + 32 else c) ∷ rest

lower_upper : (s : List ℕ) → All IsUpper s → lower s ≡ map (λ (c : ℕ). c + 32) s
unfolding lower
lower_upper [] h = refl
lower_upper (c ∷ s) h = ap₂ (◌∷◌) (ground arith) (lower_upper s h.1)

parse_warning : parse_level lower (codes "Warning") ≡ some level_warn
unfolding parse_level level_of lower
parse_warning = refl

parse_fatal : parse_level lower (codes "fatal") ≡ none
unfolding parse_level level_of lower
parse_fatal = refl

abbrev calls : List Call
calls =
    message level_info (codes "12:00:00.000") (codes "Listening")
    ∷ message level_debug (codes "12:00:00.001") (codes "Received HELLO")
    ∷ stats (codes "12:00:30.000") (codes "TX: 0 pkts")
    ∷ []

-- Without colours a line is the time, the level and the message.
lines_at_info :
    (write_all (new_logger level_info false) calls).lines
    ≡ codes "12:00:00.000 [INFO]  Listening\n" ∷ codes "12:00:30.000 [STATS] TX: 0 pkts\n" ∷ []
unfolding log log_line log_stats stats_entry level_string color_code new_logger
lines_at_info = refl

write_all-due_example :
    (write_all (new_logger level_warn false) calls).lines ≡ [] ++ due level_warn false calls
unfolding new_logger
write_all-due_example = write_all-due (new_logger level_warn false) calls
