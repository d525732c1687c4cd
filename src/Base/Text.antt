-- ===== src/Base/Text.antt =====
-- Text as a list of code points, and the verbs %d, %0wd, %0wx and %0wX of the package fmt.
use Prim.Native.Nat.{ℕ, zero, suc, ◌+◌, ◌-◌, ◌*◌, ◌/◌, ◌%◌, ◌^◌, ◌≤◌, ◌<◌}
use Prim.Native.Char.{code}
use Prim.Native.String.{String}
use mathlib.Core.Path.{◌≡◌, refl}
use mathlib.Core.List.{List, [], ◌∷◌, ◌++◌}
use native.Mathlib.Omega.{arith}
use xbslink_ng.Base.Tests.{ltb, if◌then◌else◌}
use xbslink_ng.Base.Lists.{All, All-append}

-- The code points of a literal.
abbrev pub codes : String → List ℕ
codes String.[] = []
codes (String.◌∷◌ c s) = code c ∷ codes s

-- `%0wd` of a number below 10^w.
unfoldable pub padded : ℕ → ℕ → List ℕ
padded zero n = []
padded (suc w) n = padded w (n / 10) ++ ((b'0' + n % 10) ∷ [])

-- The digits of a number that has at most so many.
unfoldable pub digits : ℕ → ℕ → List ℕ
digits zero n = []
digits (suc w) n =
    let rest = digits w (n / 10) in
    if ltb n 10 then (b'0' + n) ∷ [] else rest ++ ((b'0' + n % 10) ∷ [])

-- `%d` of a uint64, which has at most 20 digits.
unfoldable pub decimal : ℕ → List ℕ
unfolding digits
decimal n = digits 20 n

-- A digit of base 16, in lower and in upper case.
abbrev pub hex_digit : ℕ → ℕ
hex_digit d = if ltb d 10 then b'0' + d else b'a' + (d - 10)

abbrev pub upper_hex_digit : ℕ → ℕ
upper_hex_digit d = if ltb d 10 then b'0' + d else b'A' + (d - 10)

-- `%0wx` or `%0wX` of a number below 16^w.
unfoldable pub hex_padded : (ℕ → ℕ) → ℕ → ℕ → List ℕ
hex_padded digit zero n = []
hex_padded digit (suc w) n = hex_padded digit w (n / 16) ++ (digit (n % 16) ∷ [])

-- The number that digits spell behind `n`.
unfoldable pub spelled : ℕ → List ℕ → ℕ
spelled n [] = n
spelled n (c ∷ s) = spelled (n * 10 + (c - b'0')) s

pub spelled-append : (n : ℕ) (s t : List ℕ) → spelled n (s ++ t) ≡ spelled (spelled n s) t
unfolding spelled
spelled-append n [] t = refl
spelled-append n (c ∷ s) t = spelled-append (n * 10 + (c - b'0')) s t

-- 10^w
abbrev power : ℕ → ℕ
power zero = 1
power (suc w) = 10 * power w

spelled-digits : (w n : ℕ) → n < power w → spelled 0 (digits w n) ≡ n
unfolding digits spelled
spelled-digits zero n h = omega arith
spelled-digits (suc w) n h =
    ground (
      arith,
      spelled-append 0 (digits w (n / 10)) ((b'0' + n % 10) ∷ []),
      spelled-digits w (n / 10),
    )

-- The 20 digits are enough for a uint64.
pub spelled-decimal : (n : ℕ) → n < 2 ^ 64 → spelled 0 (decimal n) ≡ n
unfolding decimal
spelled-decimal n h = spelled-digits 20 n (omega arith)

pub spelled-padded : (m n : ℕ) → n < 1_000 → spelled m (padded 3 n) ≡ m * 1_000 + n
unfolding spelled padded
spelled-padded m n h = omega arith

abbrev pub IsDigit : ℕ → Type 0
IsDigit c = (b'0' ≤ c) × (c ≤ b'9')

pub digits-IsDigit : (w n : ℕ) → All IsDigit (digits w n)
unfolding digits
digits-IsDigit zero n = tt
digits-IsDigit (suc w) n = ground (
  arith,
  All-append IsDigit (digits w (n / 10)) ((b'0' + n % 10) ∷ []),
  digits-IsDigit w (n / 10),
)

pub padded-IsDigit : (w n : ℕ) → All IsDigit (padded w n)
unfolding padded
padded-IsDigit zero n = tt
padded-IsDigit (suc w) n =
    All-append IsDigit (padded w (n / 10)) ((b'0' + n % 10) ∷ []) (padded-IsDigit w (n / 10))
      (omega arith, tt)
