-- ===== src/Base/Copy.antt =====
-- Byte slices: `make([]byte, n)`, `copy(dst[off:], src)` and `s[lo:hi]`.
use Prim.Native.Nat.{◌+◌, ◌≤◌, ℕ, zero, suc}
use mathlib.Core.Path.{◌≡◌, refl, ap}
use mathlib.Core.List.{List, [], ◌∷◌, ◌++◌}
use native.Mathlib.Omega.{arith}
use native.Mathlib.Nat.{zero-add, suc-add}
use xbslink_ng.Base.Lists.{get_or, length, take, drop, replicate}

abbrev pub make : ℕ → List ℕ
make n = replicate n 0

-- `copy(dst, src)`: as many bytes as fit are overwritten, and `dst` keeps its length.
unfoldable pub overwrite : List ℕ → List ℕ → List ℕ
overwrite [] src = []
overwrite (d ∷ ds) [] = d ∷ ds
overwrite (d ∷ ds) (s ∷ ss) = s ∷ overwrite ds ss

-- `copy(dst[off:], src)`.
unfoldable pub copy_at : List ℕ → ℕ → List ℕ → List ℕ
unfolding overwrite
copy_at dst zero src = overwrite dst src
copy_at [] (suc n) src = []
copy_at (d ∷ ds) (suc n) src = d ∷ copy_at ds n src

abbrev pub slice : ℕ → ℕ → List ℕ → List ℕ
slice lo hi xs = drop lo (take hi xs)

pub length-overwrite : (dst src : List ℕ) → length (overwrite dst src) ≡ length dst
unfolding overwrite
length-overwrite [] src = refl
length-overwrite (d ∷ ds) [] = refl
length-overwrite (d ∷ ds) (s ∷ ss) = ap suc (length-overwrite ds ss)

pub length-copy_at :
    (dst : List ℕ) (off : ℕ) (src : List ℕ) → length (copy_at dst off src) ≡ length dst
unfolding copy_at
length-copy_at dst zero src = length-overwrite dst src
length-copy_at [] (suc n) src = refl
length-copy_at (d ∷ ds) (suc n) src = ap suc (length-copy_at ds n src)

-- A source that fills the front of the buffer exactly.
pub overwrite-append :
    (old rest src : List ℕ) → length old ≡ length src → overwrite (old ++ rest) src ≡ src ++ rest
unfolding overwrite
overwrite-append [] [] [] e = refl
overwrite-append [] (r ∷ rs) [] e = refl
overwrite-append [] rest (s ∷ ss) e = absurd (omega arith)
overwrite-append (o ∷ os) rest [] e = absurd (omega arith)
overwrite-append (o ∷ os) rest (s ∷ ss) e = ap (◌∷◌ s) (overwrite-append os rest ss (omega arith))

-- A copy behind a front of `off` bytes leaves the front and what follows the source.
pub copy_at-append :
    (front old rest src : List ℕ) (off : ℕ)
    → length front ≡ off
    → length old ≡ length src
    → copy_at (front ++ (old ++ rest)) off src ≡ front ++ (src ++ rest)
unfolding copy_at
copy_at-append [] old rest src zero e h = overwrite-append old rest src h
copy_at-append [] old rest src (suc n) e h = absurd (omega arith)
copy_at-append (f ∷ fs) old rest src zero e h = absurd (omega arith)
copy_at-append (f ∷ fs) old rest src (suc n) e h =
    ap (◌∷◌ f) (copy_at-append fs old rest src n (omega arith) h)

pub overwrite-nil : (dst : List ℕ) → overwrite dst [] ≡ dst
unfolding overwrite
overwrite-nil [] = refl
overwrite-nil (d ∷ ds) = refl

pub take-prefix : (n : ℕ) (p rest : List ℕ) → n ≤ length p → take n (p ++ rest) ≡ take n p
take-prefix zero p rest h = refl
take-prefix (suc n) [] rest h = absurd (omega arith)
take-prefix (suc n) (x ∷ p) rest h = ap (◌∷◌ x) (take-prefix n p rest (omega arith))

-- A slice between two other parts.
pub slice-middle :
    (front p rest : List ℕ) (lo n : ℕ)
    → length front ≡ lo
    → n ≤ length p
    → slice lo (lo + n) (front ++ (p ++ rest)) ≡ take n p
slice-middle [] p rest zero n e h = rw zero-add (take-prefix n p rest h)
slice-middle [] p rest (suc lo) n e h = absurd (omega arith)
slice-middle (x ∷ front) p rest zero n e h = absurd (omega arith)
slice-middle (x ∷ front) p rest (suc lo) n e h =
    rw suc-add (slice-middle front p rest lo n (omega arith) h)

-- An index behind a front of `n` bytes.
pub get_or-append :
    (front xs : List ℕ) (n i d : ℕ)
    → length front ≡ n
    → get_or (front ++ xs) (n + i) d ≡ get_or xs i d
get_or-append [] xs zero i d e = rw zero-add
get_or-append [] xs (suc n) i d e = absurd (omega arith)
get_or-append (x ∷ front) xs zero i d e = absurd (omega arith)
get_or-append (x ∷ front) xs (suc n) i d e = rw suc-add (get_or-append front xs n i d (omega arith))
