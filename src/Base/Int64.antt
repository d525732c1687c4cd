-- ===== src/Base/Int64.antt =====
-- int64 and uint64 arithmetic on 64-bit patterns: numbers below 2^64, from 2^63 on negative.
use Prim.Native.Nat.{ℕ, ◌+◌, ◌-◌, ◌/◌, ◌%◌, ◌^◌, ◌<◌}
use mathlib.Core.Path.{◌≡◌}
use mathlib.Core.Bool.{Bool}
use native.Mathlib.Omega.{arith}
use xbslink_ng.Base.Tests.{ltb, if◌then◌else◌}

unfoldable pub add64 : ℕ → ℕ → ℕ
add64 a b = (a + b) % 2 ^ 64

unfoldable pub sub64 : ℕ → ℕ → ℕ
sub64 a b = (a + 2 ^ 64 - b) % 2 ^ 64

-- The sign of an int64.
abbrev pub negative : ℕ → Bool
negative a = ltb (2 ^ 63 - 1) a

-- `a / n` on int64, which rounds towards zero, by a positive n.
unfoldable pub div64 : ℕ → ℕ → ℕ
div64 a n = if negative a then (2 ^ 64 - (2 ^ 64 - a) / n) % 2 ^ 64 else a / n

-- `a > b` on int64.
unfoldable pub gt64 : ℕ → ℕ → Bool
gt64 a b = ltb ((b + 2 ^ 63) % 2 ^ 64) ((a + 2 ^ 63) % 2 ^ 64)

pub add64-lt : (a b : ℕ) → add64 a b < 2 ^ 64
unfolding add64
add64-lt a b = omega arith

pub sub64-add64 : (a b : ℕ) → a < 2 ^ 64 → b < 2 ^ 64 → sub64 (add64 a b) b ≡ a
unfolding add64 sub64
sub64-add64 a b ha hb = omega arith

pub gt64_small : (a b : ℕ) → a < 2 ^ 63 → b < 2 ^ 63 → gt64 a b ≡ ltb b a
unfolding gt64
gt64_small a b ha hb = ground arith
