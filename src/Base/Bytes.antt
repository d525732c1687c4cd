-- ===== src/Base/Bytes.antt =====
-- `encoding/binary`: big-endian words of two and eight bytes.
use Prim.Native.Nat.{ℕ, ◌+◌, ◌*◌, ◌/◌, ◌%◌, ◌^◌, ◌<◌}
use mathlib.Core.Path.{◌≡◌, refl}
use mathlib.Core.List.{List, [], ◌∷◌}
use native.Mathlib.Omega.{arith}
use xbslink_ng.Base.Lists.{length, All}

abbrev pub IsByte : ℕ → Type 0
IsByte b = b < 256

abbrev pub IsU64 : ℕ → Type 0
IsU64 v = v < 2 ^ 64

-- `PutUint16` and `PutUint64`: the bytes written, the highest first.
unfoldable pub put_uint16 : ℕ → List ℕ
put_uint16 v = v / 2 ^ 8 % 256 ∷ v % 256 ∷ []

unfoldable pub put_uint64 : ℕ → List ℕ
put_uint64 v =
    v / 2 ^ 56 % 256
    ∷ v / 2 ^ 48 % 256
    ∷ v / 2 ^ 40 % 256
    ∷ v / 2 ^ 32 % 256
    ∷ v / 2 ^ 24 % 256
    ∷ v / 2 ^ 16 % 256
    ∷ v / 2 ^ 8 % 256
    ∷ v % 256
    ∷ []

-- `Uint16` and `Uint64` of the bytes of a slice that has the right length.
abbrev pub uint_be : ℕ → List ℕ → ℕ
uint_be acc [] = acc
uint_be acc (b ∷ bs) = uint_be (acc * 256 + b) bs

pub length-put_uint16 : (v : ℕ) → length (put_uint16 v) ≡ 2
unfolding put_uint16
length-put_uint16 v = refl

pub length-put_uint64 : (v : ℕ) → length (put_uint64 v) ≡ 8
unfolding put_uint64
length-put_uint64 v = refl

pub uint_be-put_uint16 : (v : ℕ) → v < 2 ^ 16 → uint_be 0 (put_uint16 v) ≡ v
unfolding put_uint16
uint_be-put_uint16 v h = omega arith

pub uint_be-put_uint64 : (v : ℕ) → IsU64 v → uint_be 0 (put_uint64 v) ≡ v
unfolding put_uint64
uint_be-put_uint64 v h = omega arith

-- Only the low 64 bits are written.
pub put_uint64_wraps : (v : ℕ) → put_uint64 v ≡ put_uint64 (v % 2 ^ 64)
unfolding put_uint64
put_uint64_wraps v = ground arith

pub put_uint64-IsByte : (v : ℕ) → All IsByte (put_uint64 v)
unfolding put_uint64
put_uint64-IsByte v = omega arith

-- Eight bytes are the word that they spell.
pub put_uint64-uint_be : (l : List ℕ) → length l ≡ 8 → All IsByte l → put_uint64 (uint_be 0 l) ≡ l
unfolding put_uint64
put_uint64-uint_be (a ∷ b ∷ c ∷ d ∷ e ∷ f ∷ g ∷ h ∷ []) n s = word
  where
    word :
        put_uint64 (uint_be 0 (a ∷ b ∷ c ∷ d ∷ e ∷ f ∷ g ∷ h ∷ []))
        ≡ a ∷ b ∷ c ∷ d ∷ e ∷ f ∷ g ∷ h ∷ []
    word = ground arith
put_uint64-uint_be _ n s = absurd (omega arith)

pub uint_be-IsU64 : (l : List ℕ) → length l ≡ 8 → All IsByte l → IsU64 (uint_be 0 l)
uint_be-IsU64 (a ∷ b ∷ c ∷ d ∷ e ∷ f ∷ g ∷ h ∷ []) n s = omega arith
uint_be-IsU64 _ n s = absurd (omega arith)
