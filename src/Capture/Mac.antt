-- ===== src/Capture/Mac.antt =====
-- internal/capture/capture.go: the text of a MAC address. The methods net.HardwareAddr.String and
-- net.ParseMAC of Go's library stand here too.
pub mod RoundTrip
pub mod Bytes
mod Tests
use xbslink_ng.Base.{
  ℕ, zero, suc, ◌+◌, ◌-◌, ◌*◌, ◌/◌, ◌%◌, Bool, true, false, not, ◌&&◌, ◌||◌, Option, none, some,
  List, [], ◌∷◌, ◌++◌, length, get_or, drop, ltb, leb, ◌==◌, if◌then◌else◌, hex_digit,
}

-- The value of a digit of base 16, of either case.
abbrev pub hex_value : ℕ → Option ℕ
hex_value c =
    if leb b'0' c && leb c b'9'
    then some (c - b'0')
    else if leb b'a' c && leb c b'f'
    then some (c - b'a' + 10)
    else if leb b'A' c && leb c b'F'
    then some (c - b'A' + 10)
    else none

-- `net.HardwareAddr.String`, and its text with another separator.
unfoldable pub joined : ℕ → List ℕ → List ℕ
joined sep [] = []
joined sep (b ∷ []) = hex_digit (b / 16) ∷ hex_digit (b % 16) ∷ []
joined sep (b ∷ c ∷ mac) = hex_digit (b / 16) ∷ hex_digit (b % 16) ∷ sep ∷ joined sep (c ∷ mac)

unfoldable pub mac_string : List ℕ → List ℕ
unfolding joined
mac_string mac = joined b':' mac

-- A byte from its two digits.
abbrev pub pair : Option ℕ → Option ℕ → Option ℕ
pair (some h) (some l) = some (h * 16 + l)
pair (some h) none = none
pair none l = none

-- `xtoi2`: two digits, with the separator behind them unless the text ends.
abbrev pub xtoi2 : ℕ → List ℕ → Option ℕ
xtoi2 sep [] = none
xtoi2 sep (c ∷ []) = none
xtoi2 sep (c ∷ d ∷ []) = pair (hex_value c) (hex_value d)
xtoi2 sep (c ∷ d ∷ e ∷ s) = if e == sep then pair (hex_value c) (hex_value d) else none

abbrev pub behind : Option ℕ → Option (List ℕ) → Option (List ℕ)
behind (some b) (some mac) = some (b ∷ mac)
behind (some b) none = none
behind none mac = none

-- The loop over groups of one byte.
unfoldable pub groups : ℕ → ℕ → List ℕ → Option (List ℕ)
groups zero sep s = some []
groups (suc n) sep s = behind (xtoi2 sep s) (groups n sep (drop 3 s))

-- The first two digits alone.
abbrev pub xtoi2_head : List ℕ → Option ℕ
xtoi2_head [] = none
xtoi2_head (c ∷ []) = none
xtoi2_head (c ∷ d ∷ s) = pair (hex_value c) (hex_value d)

-- The loop over groups of two bytes.
unfoldable pub dotted : ℕ → List ℕ → Option (List ℕ)
dotted zero s = some []
dotted (suc n) s = behind (xtoi2_head s) (behind (xtoi2 b'.' (drop 2 s)) (dotted n (drop 5 s)))

abbrev pub of_size : ℕ → Option (List ℕ) → Option (List ℕ)
of_size n mac = if n == 6 || n == 8 || n == 20 then mac else none

-- `net.ParseMAC`.
unfoldable pub net_parse_mac : List ℕ → Option (List ℕ)
unfolding groups dotted
net_parse_mac s =
    if ltb (length s) 14
    then none
    else if get_or s 2 0 == b':' || get_or s 2 0 == b'-'
    then (if (length s + 1) % 3 == 0
        then of_size ((length s + 1) / 3) (groups ((length s + 1) / 3) (get_or s 2 0) s)
        else none)
    else if get_or s 4 0 == b'.'
    then (if (length s + 1) % 5 == 0
        then of_size (2 * (length s + 1) / 5) (dotted ((length s + 1) / 5) s)
        else none)
    else none

abbrev pub colon : ℕ → ℕ
colon c = if c == b'-' then b':' else c

-- `strings.ReplaceAll` of a dash by a colon.
unfoldable pub colons : List ℕ → List ℕ
colons [] = []
colons (c ∷ s) = colon c ∷ colons s

abbrev pub six_bytes : Option (List ℕ) → Option (List ℕ)
six_bytes none = none
six_bytes (some mac) = if length mac == 6 then some mac else none

-- `ParseMAC`; none stands for ErrInvalidMAC.
unfoldable pub parse_mac : List ℕ → Option (List ℕ)
unfolding net_parse_mac colons
parse_mac s = six_bytes (net_parse_mac (colons s))
