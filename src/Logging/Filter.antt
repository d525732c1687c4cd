-- ===== src/Logging/Filter.antt =====
-- internal/logging/logging.go: what a logger writes for a sequence of calls, and the names of levels.
use mathlib.Core.List.{map}
use xbslink_ng.Base.{
  append_assoc, append-nil, ℕ, ◌+◌, ◌≤◌, Bool, true, false, not, ◌≡◌, refl, sym, ap, ◌∙◌, some,
  List, [], ◌∷◌, ◌++◌, arith, All, ltb, if◌then◌else◌, codes,
}
use xbslink_ng.Logging.{
  Level, level_error, level_warn, level_info, level_debug, level_trace, rank, Logger, log,
  log_stats, log_line, stats_entry, level_of, parse_level, level_string,
}

-- A call of `Error`, `Warn`, `Info`, `Debug` or `Trace`, or of `Stats`.
pub data Call : Type 0 where
  message : Level → List ℕ → List ℕ → Call
  stats : List ℕ → List ℕ → Call

abbrev pub write : Logger → Call → Logger
write l (message level time text) = log l level time text
write l (stats time text) = log_stats l time text

abbrev pub write_all : Logger → List Call → Logger
write_all l [] = l
write_all l (c ∷ cs) = write_all (write l c) cs

-- Which messages a level shows: its own and the more urgent ones, of ERROR, WARN, INFO, DEBUG, TRACE.
abbrev pub shows : Level → Level → Bool
shows level_error level_error = true
shows level_error _ = false
shows level_warn level_error = true
shows level_warn level_warn = true
shows level_warn _ = false
shows level_info level_debug = false
shows level_info level_trace = false
shows level_info _ = true
shows level_debug level_trace = false
shows level_debug _ = true
shows level_trace _ = true

-- The lines that are due for a call at a level, and for a sequence of calls.
abbrev pub due_one : Level → Bool → Call → List (List ℕ)
due_one level use_color (message at time text) =
    if shows level at then log_line use_color at time text ∷ [] else []
due_one level use_color (stats time text) = stats_entry use_color time text ∷ []

abbrev pub due : Level → Bool → List Call → List (List ℕ)
due level use_color [] = []
due level use_color (c ∷ cs) = due_one level use_color c ++ due level use_color cs

-- A logger behind further lines.
abbrev written : Logger → List (List ℕ) → Logger
written l lines = record l { lines = l.lines ++ lines }

-- The comparison in `log` is the table.
ltb-rank : (m n : Level) → ltb (rank m) (rank n) ≡ not (shows m n)
ltb-rank level_error level_error = refl
ltb-rank level_error level_warn = refl
ltb-rank level_error level_info = refl
ltb-rank level_error level_debug = refl
ltb-rank level_error level_trace = refl
ltb-rank level_warn level_error = refl
ltb-rank level_warn level_warn = refl
ltb-rank level_warn level_info = refl
ltb-rank level_warn level_debug = refl
ltb-rank level_warn level_trace = refl
ltb-rank level_info level_error = refl
ltb-rank level_info level_warn = refl
ltb-rank level_info level_info = refl
ltb-rank level_info level_debug = refl
ltb-rank level_info level_trace = refl
ltb-rank level_debug level_error = refl
ltb-rank level_debug level_warn = refl
ltb-rank level_debug level_info = refl
ltb-rank level_debug level_debug = refl
ltb-rank level_debug level_trace = refl
ltb-rank level_trace level_error = refl
ltb-rank level_trace level_warn = refl
ltb-rank level_trace level_info = refl
ltb-rank level_trace level_debug = refl
ltb-rank level_trace level_trace = refl

written_if :
    (l : Logger) (shown : Bool) (line : List ℕ)
    → (if not shown then l else written l (line ∷ [])) ≡ written l (if shown then line ∷ [] else [])
written_if l true line = refl
written_if l false line =
    ap (λ (x : List (List ℕ)). record l { lines = x }) (sym (append-nil l.lines))

write-due_one : (l : Logger) (c : Call) → write l c ≡ written l (due_one l.level l.use_color c)
unfolding log log_stats
write-due_one l (message at time text) =
    let line = log_line l.use_color at time text in
    ap (λ (b : Bool). if b then l else written l (line ∷ [])) (ltb-rank l.level at)
    ∙ written_if l (shows l.level at) line
write-due_one l (stats time text) = refl

-- For any calls a logger adds, in their order, one line for each call of `Stats`, and one for each
-- message that its level shows by the table, and no others.
pub write_all-due :
    (l : Logger) (cs : List Call) → (write_all l cs).lines ≡ l.lines ++ due l.level l.use_color cs
write_all-due l [] = sym (append-nil l.lines)
write_all-due l (c ∷ cs) =
    ap (λ (x : Logger). (write_all x cs).lines) (write-due_one l c)
    ∙ write_all-due (written l (due_one l.level l.use_color c)) cs
    ∙ append_assoc l.lines (due_one l.level l.use_color c) (due l.level l.use_color cs)

abbrev pub IsUpper : ℕ → Type 0
IsUpper c = (b'A' ≤ c) × (c ≤ b'Z')

-- The name of a level, printed by `Level.String`, is parsed by `ParseLevel` as that level, where
-- strings.ToLower and strings.TrimSpace make lower-case letters of upper-case ones.
pub parse_level-level_string :
    (normal : List ℕ → List ℕ)
    → ((s : List ℕ) → All IsUpper s → normal s ≡ map (λ (c : ℕ). c + 32) s)
    → (l : Level) → parse_level normal (level_string l) ≡ some l
unfolding parse_level level_of level_string
parse_level-level_string normal h level_error = ap level_of (h (codes "ERROR") (omega arith))
parse_level-level_string normal h level_warn = ap level_of (h (codes "WARN") (omega arith))
parse_level-level_string normal h level_info = ap level_of (h (codes "INFO") (omega arith))
parse_level-level_string normal h level_debug = ap level_of (h (codes "DEBUG") (omega arith))
parse_level-level_string normal h level_trace = ap level_of (h (codes "TRACE") (omega arith))
