-- ===== src/Bridge/Console.antt =====
-- internal/bridge/bridge.go: `stdinLoop` and `statsLoop`, which print the statistics. Both channels
-- between the keyboard and `statsLoop` have no buffer, and a send that nobody waits for is dropped.
use xbslink_ng.Base.{
  ℕ, ◌+◌, ◌≤◌, ◌≡◌, refl, ap, ◌∙◌, Bool, false, ◌&&◌, ◌||◌, ◌==◌, List, [], ◌∷◌, arith,
  if◌then◌else◌,
}

-- `statsLoop` runs only where the interval is positive; `printed` counts the calls of `printStats`.
pub record Console : Type 0 where
  pub has_interval : Bool
  pub printed : ℕ

-- A tick of `statsLoop`, and a byte read from the keyboard, with whether `stdinLoop` and `statsLoop`
-- wait in their `select` when they are sent to.
pub data Input : Type 0 where
  tick : Input
  key : (byte : ℕ) (stdin_waits stats_waits : Bool) → Input

unfoldable pub is_enter : ℕ → Bool
is_enter byte = byte == b'\n' || byte == b'\r'

-- The turn of `statsLoop` that prints.
unfoldable pub print_once : Console → Console
print_once c = if c.has_interval then record c { printed = c.printed + 1 } else c

unfoldable pub on_input : Console → Input → Console
unfolding is_enter print_once
on_input c tick = print_once c
on_input c (key byte stdin_waits stats_waits) =
    if is_enter byte && stdin_waits then (if stats_waits then print_once c else c) else c

unfoldable pub on_inputs : Console → List Input → Console
unfolding on_input
on_inputs c [] = c
on_inputs c (i ∷ later) = on_inputs (on_input c i) later

abbrev pub enters : List Input → ℕ
enters [] = 0
enters (tick ∷ later) = enters later
enters (key byte a b ∷ later) = if is_enter byte then enters later + 1 else enters later

abbrev pub ticks : List Input → ℕ
ticks [] = 0
ticks (tick ∷ later) = ticks later + 1
ticks (key byte a b ∷ later) = ticks later

-- Without an interval the key Enter prints nothing, as often as it is pressed.
pub nothing_printed :
    (c : Console) (inputs : List Input) → c.has_interval ≡ false → on_inputs c inputs ≡ c
unfolding on_inputs on_input print_once
nothing_printed c [] h = refl
nothing_printed c (i ∷ later) h =
    ap (λ (x : Console). on_inputs x later) (same i) ∙ nothing_printed c later h
  where
    same : (i : Input) → on_input c i ≡ c
    same tick = ground arith
    same (key byte a b) = ground arith

-- The statistics are printed at most once for each tick and each Enter.
pub printed-le :
    (c : Console) (inputs : List Input)
    → (on_inputs c inputs).printed ≤ c.printed + ticks inputs + enters inputs
unfolding on_inputs on_input print_once is_enter
printed-le c [] = omega arith
printed-le c (tick ∷ later) = ground (arith, printed-le (on_input c tick) later)
printed-le c (key byte a b ∷ later) = ground (arith, printed-le (on_input c (key byte a b)) later)
