-- ===== src/Base/Lists.antt =====
-- Lists measured and indexed by native numbers, under the library's names.
use Prim.Native.Nat.{◌<◌, ℕ, zero, suc, ◌+◌, ◌-◌, ◌≤◌}
use mathlib.Core.Path.{◌≡◌, refl, ap}
use mathlib.Core.Bool.{Bool, true, false, ◌&&◌}
use mathlib.Core.Logic.{◌⊎◌}
use mathlib.Core.List.{List, [], ◌∷◌, ◌++◌}
use native.Mathlib.Omega.{arith}
use native.Mathlib.Nat.{zero-add, suc-add}
use xbslink_ng.Base.Tests.{ltb, if◌then◌else◌, ◌==◌}

module _ {ℓ} {A : Type ℓ} where
  abbrev pub length : List A → ℕ
  length [] = 0
  length (x ∷ xs) = suc (length xs)

  abbrev pub get_or : List A → ℕ → A → A
  get_or [] i d = d
  get_or (x ∷ xs) zero d = x
  get_or (x ∷ xs) (suc i) d = get_or xs i d

  abbrev pub take : ℕ → List A → List A
  take zero xs = []
  take (suc n) [] = []
  take (suc n) (x ∷ xs) = x ∷ take n xs

  abbrev pub drop : ℕ → List A → List A
  drop zero xs = xs
  drop (suc n) [] = []
  drop (suc n) (x ∷ xs) = drop n xs

  abbrev pub replicate : ℕ → A → List A
  replicate zero a = []
  replicate (suc n) a = a ∷ replicate n a

  abbrev pub All {κ} : (A → Type κ) → List A → Type κ
  All P [] = Unit {κ}
  All P (x ∷ xs) = P x × All P xs

  pub length-append : (xs ys : List A) → length (xs ++ ys) ≡ length xs + length ys
  length-append [] ys = omega arith
  length-append (x ∷ xs) ys = omega (arith, length-append xs ys)

  pub length-replicate : (n : ℕ) (a : A) → length (replicate n a) ≡ n
  length-replicate zero a = refl
  length-replicate (suc n) a = ap suc (length-replicate n a)

  pub replicate-add : (m n : ℕ) (a : A) → replicate (m + n) a ≡ replicate m a ++ replicate n a
  replicate-add zero n a = rw zero-add
  replicate-add (suc m) n a = rw suc-add (ap (◌∷◌ a) (replicate-add m n a))

  pub length-take : (n : ℕ) (xs : List A) → n ≤ length xs → length (take n xs) ≡ n
  length-take zero xs h = refl
  length-take (suc n) [] h = absurd (omega arith)
  length-take (suc n) (x ∷ xs) h = omega (arith, length-take n xs (omega arith))

  pub length-drop : (n : ℕ) (xs : List A) → length (drop n xs) ≡ length xs - n
  length-drop zero xs = omega arith
  length-drop (suc n) [] = omega arith
  length-drop (suc n) (x ∷ xs) = omega (arith, length-drop n xs)

  pub take-append-drop : (n : ℕ) (xs : List A) → take n xs ++ drop n xs ≡ xs
  take-append-drop zero xs = refl
  take-append-drop (suc n) [] = refl
  take-append-drop (suc n) (x ∷ xs) = ap (◌∷◌ x) (take-append-drop n xs)

  -- Slicing at the seam of two lists.
  pub take-append : (n : ℕ) (xs ys : List A) → length xs ≡ n → take n (xs ++ ys) ≡ xs
  take-append zero [] ys e = refl
  take-append zero (x ∷ xs) ys e = absurd (omega arith)
  take-append (suc n) [] ys e = absurd (omega arith)
  take-append (suc n) (x ∷ xs) ys e = ap (◌∷◌ x) (take-append n xs ys (omega arith))

  pub drop-append : (n : ℕ) (xs ys : List A) → length xs ≡ n → drop n (xs ++ ys) ≡ ys
  drop-append zero [] ys e = refl
  drop-append zero (x ∷ xs) ys e = absurd (omega arith)
  drop-append (suc n) [] ys e = absurd (omega arith)
  drop-append (suc n) (x ∷ xs) ys e = drop-append n xs ys (omega arith)

  pub drop_all : (xs : List A) → drop (length xs) xs ≡ []
  drop_all [] = refl
  drop_all (x ∷ xs) = drop_all xs

  pub take_all : (n : ℕ) (xs : List A) → length xs ≡ n → take n xs ≡ xs
  take_all zero [] e = refl
  take_all zero (x ∷ xs) e = absurd (omega arith)
  take_all (suc n) [] e = refl
  take_all (suc n) (x ∷ xs) e = ap (◌∷◌ x) (take_all n xs (omega arith))

  pub eq_nil : (xs : List A) → length xs ≡ 0 → xs ≡ []
  eq_nil [] e = refl
  eq_nil (x ∷ xs) e = absurd (omega arith)

  pub get_or-append_left :
      (xs ys : List A) (i : ℕ) (d : A) → i < length xs → get_or (xs ++ ys) i d ≡ get_or xs i d
  get_or-append_left [] ys i d h = absurd (omega arith)
  get_or-append_left (x ∷ xs) ys zero d h = refl
  get_or-append_left (x ∷ xs) ys (suc i) d h = get_or-append_left xs ys i d (omega arith)

  pub get_or-append_right :
      (xs : List A) (y : A) (ys : List A) (d : A) → get_or (xs ++ (y ∷ ys)) (length xs) d ≡ y
  get_or-append_right [] y ys d = refl
  get_or-append_right (x ∷ xs) y ys d = get_or-append_right xs y ys d

  -- A list that is not empty is its head and the rest.
  pub take-drop-head : (xs : List A) (d : A) → 1 ≤ length xs → get_or xs 0 d ∷ drop 1 xs ≡ xs
  take-drop-head [] d h = absurd (omega arith)
  take-drop-head (x ∷ xs) d h = refl

  pub drop-drop : (m n : ℕ) (xs : List A) → drop m (drop n xs) ≡ drop (n + m) xs
  drop-drop m zero xs = rw zero-add
  drop-drop zero (suc n) [] = rw suc-add
  drop-drop (suc m) (suc n) [] = rw suc-add
  drop-drop m (suc n) (x ∷ xs) = rw suc-add (drop-drop m n xs)

-- `bytes.Equal`, and `hmac.Equal`, which differs only in the time it takes.
abbrev pub equal : List ℕ → List ℕ → Bool
equal [] [] = true
equal [] (y ∷ ys) = false
equal (x ∷ xs) [] = false
equal (x ∷ xs) (y ∷ ys) = x == y && equal xs ys

pub equal_refl : (xs : List ℕ) → equal xs xs ≡ true
equal_refl [] = refl
equal_refl (x ∷ xs) = rw (equal_refl xs) (ground arith)

pub equal→eq : (xs ys : List ℕ) → equal xs ys ≡ true → xs ≡ ys
equal→eq [] [] h = refl
equal→eq [] (y ∷ ys) h = cc
equal→eq (x ∷ xs) [] h = cc
equal→eq (x ∷ xs) (y ∷ ys) h = ground (arith, equal→eq xs ys)

module _ {ℓ} {A : Type ℓ} where
  pub take-take : (m n : ℕ) (xs : List A) → m ≤ n → take m (take n xs) ≡ take m xs
  take-take zero n xs h = refl
  take-take (suc m) zero xs h = absurd (omega arith)
  take-take (suc m) (suc n) [] h = refl
  take-take (suc m) (suc n) (x ∷ xs) h = ap (◌∷◌ x) (take-take m n xs (omega arith))

  pub All-take {κ} : (P : A → Type κ) (n : ℕ) (xs : List A) → All P xs → All P (take n xs)
  All-take P zero xs h = tt
  All-take P (suc n) [] h = tt
  All-take P (suc n) (x ∷ xs) h = (h.0, All-take P n xs h.1)

  pub All-drop {κ} : (P : A → Type κ) (n : ℕ) (xs : List A) → All P xs → All P (drop n xs)
  All-drop P zero xs h = h
  All-drop P (suc n) [] h = tt
  All-drop P (suc n) (x ∷ xs) h = All-drop P n xs h.1

  pub All-append {κ} : (P : A → Type κ) (xs ys : List A) → All P xs → All P ys → All P (xs ++ ys)
  All-append P [] ys hx hy = hy
  All-append P (x ∷ xs) ys hx hy = (hx.0, All-append P xs ys hx.1 hy)

  abbrev pub Any : (A → Type 0) → List A → Type 0
  Any P [] = ⊥
  Any P (x ∷ xs) = P x ⊎ Any P xs

pub All-map {ℓ κ μ} :
    {A : Type ℓ} {P : A → Type κ} {Q : A → Type μ}
    → ((x : A) → P x → Q x)
    → (xs : List A) → All P xs
    → All Q xs
All-map f [] h = tt
All-map f (x ∷ xs) h = (f x h.0, All-map f xs h.1)

-- A send to a channel that drops the value where the buffer is full.
abbrev pub offer {ℓ} : {A : Type ℓ} → ℕ → List A → A → List A
offer cap queue x = if ltb (length queue) cap then queue ++ (x ∷ []) else queue

-- A part of a list, in its order.
pub data IsPart {ℓ} {A : Type ℓ} : List A → List A → Type ℓ where
  nothing : IsPart [] []
  keep : (a : A) {xs ys : List A} → IsPart xs ys → IsPart (a ∷ xs) (a ∷ ys)
  skip : (a : A) {xs ys : List A} → IsPart xs ys → IsPart xs (a ∷ ys)

pub nil-IsPart {ℓ} : {A : Type ℓ} (ys : List A) → IsPart [] ys
nil-IsPart [] = nothing
nil-IsPart (y ∷ ys) = skip y (nil-IsPart ys)

pub refl-IsPart {ℓ} : {A : Type ℓ} (xs : List A) → IsPart xs xs
refl-IsPart [] = nothing
refl-IsPart (x ∷ xs) = keep x (refl-IsPart xs)

pub drop-IsPart {ℓ} :
    {A : Type ℓ} {xs : List A} (n : ℕ) (ys : List A) → IsPart xs (drop n ys) → IsPart xs ys
drop-IsPart zero ys h = h
drop-IsPart (suc n) [] h = h
drop-IsPart (suc n) (y ∷ ys) h = skip y (drop-IsPart n ys h)

pub append-IsPart {ℓ} :
    {A : Type ℓ} {xs ys us vs : List A} → IsPart xs ys → IsPart us vs → IsPart (xs ++ us) (ys ++ vs)
append-IsPart nothing q = q
append-IsPart (keep a p) q = keep a (append-IsPart p q)
append-IsPart (skip a p) q = skip a (append-IsPart p q)

pub trans-IsPart {ℓ} : {A : Type ℓ} {xs ys zs : List A} → IsPart xs ys → IsPart ys zs → IsPart xs zs
trans-IsPart p nothing = p
trans-IsPart (keep a p) (keep _ q) = keep a (trans-IsPart p q)
trans-IsPart (skip a p) (keep _ q) = skip a (trans-IsPart p q)
trans-IsPart p (skip a q) = skip a (trans-IsPart p q)

pub prefix-IsPart {ℓ} : {A : Type ℓ} (xs ys : List A) → IsPart xs (xs ++ ys)
prefix-IsPart [] ys = nil-IsPart ys
prefix-IsPart (x ∷ xs) ys = keep x (prefix-IsPart xs ys)

-- The element at an index stands before those behind it.
pub keep_at {ℓ} :
    {A : Type ℓ} {xs : List A} (ys : List A) (k i : ℕ) (d : A)
    → k ≤ i
    → i < length ys
    → IsPart xs (drop (suc i) ys)
    → IsPart (get_or ys i d ∷ xs) (drop k ys)
keep_at [] k i d h lt p = absurd (omega arith)
keep_at (y ∷ ys) zero zero d h lt p = keep y p
keep_at (y ∷ ys) (suc k) zero d h lt p = absurd (omega arith)
keep_at (y ∷ ys) zero (suc i) d h lt p = skip y (keep_at ys zero i d (omega arith) (omega arith) p)
keep_at (y ∷ ys) (suc k) (suc i) d h lt p = keep_at ys k i d (omega arith) (omega arith) p
