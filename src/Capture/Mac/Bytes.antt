-- ===== src/Capture/Mac/Bytes.antt =====
-- internal/capture/capture.go: what the text of a MAC address is read as.
use xbslink_ng.Base.{
  ℕ, zero, suc, ◌+◌, ◌*◌, ◌/◌, ◌%◌, ◌<◌, ◌≡◌, sym, subst, Option, none, some, List, [], ◌∷◌, length,
  get_or, drop, All, IsByte, ◌||◌, Bool-cases, ==_iff, inl, inr, Bool, true, false, arith, ltb,
  ◌==◌, if◌then◌else◌, if_true, if_false,
}
use xbslink_ng.Capture.Mac.{
  hex_value, pair, xtoi2, xtoi2_head, dotted, behind, groups, of_size, net_parse_mac, colons,
  six_bytes, parse_mac,
}

-- What a result holds, if there is one.
Holds : {A : Type 0} → (A → Type 0) → Option A → Type 0
Holds P none = Unit
Holds P (some x) = P x

IsNibble : ℕ → Type 0
IsNibble d = d < 16

hex_value-IsNibble : (c : ℕ) → Holds IsNibble (hex_value c)
unfolding Holds IsNibble
hex_value-IsNibble c = ground arith

Holds-if :
    {A : Type 0} (P : A → Type 0) (x y : Option A) (b : Bool)
    → Holds P x
    → Holds P y
    → Holds P (if b then x else y)
Holds-if P x y true p q = p
Holds-if P x y false p q = q

pair-IsByte : (h l : Option ℕ) → Holds IsNibble h → Holds IsNibble l → Holds IsByte (pair h l)
unfolding Holds IsNibble
pair-IsByte none l p q = tt
pair-IsByte (some h) none p q = tt
pair-IsByte (some h) (some l) p q = omega arith

digits-IsByte : (c d : ℕ) → Holds IsByte (pair (hex_value c) (hex_value d))
digits-IsByte c d =
    pair-IsByte (hex_value c) (hex_value d) (hex_value-IsNibble c) (hex_value-IsNibble d)

xtoi2-IsByte : (sep : ℕ) (s : List ℕ) → Holds IsByte (xtoi2 sep s)
unfolding Holds
xtoi2-IsByte sep [] = tt
xtoi2-IsByte sep (c ∷ []) = tt
xtoi2-IsByte sep (c ∷ d ∷ []) = digits-IsByte c d
xtoi2-IsByte sep (c ∷ d ∷ e ∷ s) =
    Holds-if IsByte (pair (hex_value c) (hex_value d)) none (e == sep) (digits-IsByte c d) tt

xtoi2_head-IsByte : (s : List ℕ) → Holds IsByte (xtoi2_head s)
unfolding Holds
xtoi2_head-IsByte [] = tt
xtoi2_head-IsByte (c ∷ []) = tt
xtoi2_head-IsByte (c ∷ d ∷ s) = digits-IsByte c d

Bytes : Option (List ℕ) → Type 0
unfolding Holds
Bytes mac = Holds (All IsByte) mac

behind-Bytes :
    (b : Option ℕ) (mac : Option (List ℕ)) → Holds IsByte b → Bytes mac → Bytes (behind b mac)
unfolding Holds Bytes
behind-Bytes none mac p q = tt
behind-Bytes (some b) none p q = tt
behind-Bytes (some b) (some mac) p q = (p, q)

groups-Bytes : (n sep : ℕ) (s : List ℕ) → Bytes (groups n sep s)
unfolding Holds Bytes groups
groups-Bytes zero sep s = tt
groups-Bytes (suc n) sep s =
    behind-Bytes (xtoi2 sep s) (groups n sep (drop 3 s)) (xtoi2-IsByte sep s)
      (groups-Bytes n sep (drop 3 s))

dotted-Bytes : (n : ℕ) (s : List ℕ) → Bytes (dotted n s)
unfolding Holds Bytes dotted
dotted-Bytes zero s = tt
dotted-Bytes (suc n) s =
    behind-Bytes (xtoi2_head s) (behind (xtoi2 b'.' (drop 2 s)) (dotted n (drop 5 s)))
      (xtoi2_head-IsByte s)
      (behind-Bytes (xtoi2 b'.' (drop 2 s)) (dotted n (drop 5 s)) (xtoi2-IsByte b'.' (drop 2 s))
        (dotted-Bytes n (drop 5 s)))

of_size-Bytes : (n : ℕ) (mac : Option (List ℕ)) → Bytes mac → Bytes (of_size n mac)
unfolding Bytes
of_size-Bytes n mac p = Holds-if (All IsByte) mac none (n == 6 || n == 8 || n == 20) p tt

net_parse_mac-Bytes : (s : List ℕ) → Bytes (net_parse_mac s)
unfolding net_parse_mac Bytes
net_parse_mac-Bytes s =
    let of_groups =
      of_size-Bytes ((length s + 1) / 3) _ (groups-Bytes ((length s + 1) / 3) (get_or s 2 0) s) in
    let of_dotted =
      of_size-Bytes (2 * (length s + 1) / 5) _ (dotted-Bytes ((length s + 1) / 5) s) in
    Holds-if (All IsByte) _ _ (ltb (length s) 14) tt (
      Holds-if (All IsByte) _ _ (get_or s 2 0 == b':' || get_or s 2 0 == b'-')
        (Holds-if (All IsByte) _ _ ((length s + 1) % 3 == 0) of_groups tt)
        (Holds-if (All IsByte) _ _ (get_or s 4 0 == b'.')
          (Holds-if (All IsByte) _ _ ((length s + 1) % 5 == 0) of_dotted tt) tt))

abbrev pub IsMac : List ℕ → Type 0
IsMac mac = (length mac ≡ 6) × All IsByte mac

six_bytes-IsMac : (mac : Option (List ℕ)) → Bytes mac → Holds IsMac (six_bytes mac)
unfolding Bytes Holds
six_bytes-IsMac none p = tt
six_bytes-IsMac (some mac) p = elim (Bool-cases (length mac == 6)) [
  | inl e ↦
      subst (Holds IsMac) (sym (if_true {b = length mac == 6} _ _ e))
        ((==_iff (length mac) 6).0 e, p)
  | inr e ↦ subst (Holds IsMac) (sym (if_false {b = length mac == 6} _ _ e)) tt
]

-- Whatever the text, an address that `ParseMAC` returns has six elements, each below 256.
pub parse_mac-IsMac : (s mac : List ℕ) → parse_mac s ≡ some mac → IsMac mac
unfolding parse_mac Holds
parse_mac-IsMac s mac e =
    subst (Holds IsMac) e
      (six_bytes-IsMac (net_parse_mac (colons s)) (net_parse_mac-Bytes (colons s)))
