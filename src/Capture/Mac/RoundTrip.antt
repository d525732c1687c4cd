-- ===== src/Capture/Mac/RoundTrip.antt =====
-- internal/capture/capture.go: reading a MAC address back.
use xbslink_ng.Base.{
  hex_digit, ℕ, ◌+◌, ◌*◌, ◌/◌, ◌%◌, ◌<◌, ◌≡◌, refl, ap, ap₂, ◌∙◌, some, List, [], ◌∷◌, length, All,
  IsByte, ◌⊎◌, arith, ◌==◌, if_true,
}
use xbslink_ng.Capture.Mac.{
  hex_value, joined, mac_string, pair, behind, groups, net_parse_mac, colon, colons, six_bytes,
  parse_mac,
}

hex_value-hex_digit : (d : ℕ) → d < 16 → hex_value (hex_digit d) ≡ some d
hex_value-hex_digit d h = ground arith

pair_lem :
    (b : ℕ)
    → b < 256
    → pair (hex_value (hex_digit (b / 16))) (hex_value (hex_digit (b % 16))) ≡ some b
pair_lem b h =
    ap₂ pair (hex_value-hex_digit (b / 16) (omega arith))
      (hex_value-hex_digit (b % 16) (omega arith))
    ∙ ap some (omega arith)

groups-joined :
    (sep : ℕ) (mac : List ℕ) → All IsByte mac → groups (length mac) sep (joined sep mac) ≡ some mac
unfolding groups joined
groups-joined sep [] h = refl
groups-joined sep (b ∷ []) h = ap₂ behind (pair_lem b h.0) refl
groups-joined sep (b ∷ c ∷ mac) h =
    ap₂ behind (if_true {b = sep == sep} _ _ (ground arith) ∙ pair_lem b h.0)
      (groups-joined sep (c ∷ mac) h.1)

length-joined : (sep b : ℕ) (mac : List ℕ) → length (joined sep (b ∷ mac)) ≡ 3 * length mac + 2
unfolding joined
length-joined sep b [] = refl
length-joined sep b (c ∷ mac) = omega (arith, length-joined sep c mac)

colon-hex_digit : (d : ℕ) → colon (hex_digit d) ≡ hex_digit d
colon-hex_digit d = ground arith

-- Nothing but the separator of an address is a dash.
colons-joined :
    (sep : ℕ) (mac : List ℕ) → colon sep ≡ b':' → colons (joined sep mac) ≡ joined b':' mac
unfolding colons joined
colons-joined sep [] e = refl
colons-joined sep (b ∷ []) e =
    ap₂ (λ (x y : ℕ). x ∷ y ∷ []) (colon-hex_digit (b / 16)) (colon-hex_digit (b % 16))
colons-joined sep (b ∷ c ∷ mac) e =
    ap₂ (λ (x y : ℕ). x ∷ y ∷ colon sep ∷ colons (joined sep (c ∷ mac))) (colon-hex_digit (b / 16))
      (colon-hex_digit (b % 16))
    ∙ ap₂ (λ (x : ℕ) (s : List ℕ). hex_digit (b / 16) ∷ hex_digit (b % 16) ∷ x ∷ s) e
        (colons-joined sep (c ∷ mac) e)

pub net_parse_mac-mac_string :
    (mac : List ℕ) → length mac ≡ 6 → All IsByte mac → net_parse_mac (mac_string mac) ≡ some mac
unfolding net_parse_mac mac_string joined
net_parse_mac-mac_string [] n h = absurd (omega arith)
net_parse_mac-mac_string (a ∷ []) n h = absurd (omega arith)
net_parse_mac-mac_string (a ∷ b ∷ []) n h = absurd (omega arith)
net_parse_mac-mac_string (a ∷ b ∷ c ∷ []) n h = absurd (omega arith)
net_parse_mac-mac_string (a ∷ b ∷ c ∷ d ∷ []) n h = absurd (omega arith)
net_parse_mac-mac_string (a ∷ b ∷ c ∷ d ∷ e ∷ []) n h = absurd (omega arith)
net_parse_mac-mac_string (a ∷ b ∷ c ∷ d ∷ e ∷ f ∷ []) n h =
    groups-joined b':' (a ∷ b ∷ c ∷ d ∷ e ∷ f ∷ []) h
net_parse_mac-mac_string (a ∷ b ∷ c ∷ d ∷ e ∷ f ∷ g ∷ mac) n h = absurd (omega arith)

-- `ParseMAC` reads back the six bytes of an address that is written in base 16, with a colon or a
-- dash between the bytes.
pub parse_mac-joined :
    (sep : ℕ) (mac : List ℕ)
    → (sep ≡ b':') ⊎ (sep ≡ b'-')
    → length mac ≡ 6
    → All IsByte mac
    → parse_mac (joined sep mac) ≡ some mac
unfolding parse_mac mac_string
parse_mac-joined sep mac e n h =
    ap (λ (s : List ℕ). six_bytes (net_parse_mac s)) (colons-joined sep mac (ground arith))
    ∙ ap six_bytes (net_parse_mac-mac_string mac n h)
    ∙ if_true {b = length mac == 6} _ _ (ground arith)
