-- ===== src/Capture/Mac/Tests.antt =====
-- internal/capture/capture.go: MAC addresses.
use xbslink_ng.Base.{ℕ, ◌≡◌, refl, inr, none, some, List, [], ◌∷◌, arith, codes}
use xbslink_ng.Capture.Mac.{joined, mac_string, parse_mac, net_parse_mac, groups, dotted, colons}
use xbslink_ng.Capture.Mac.RoundTrip.{parse_mac-joined}
use xbslink_ng.Capture.Mac.Bytes.{IsMac, parse_mac-IsMac}

abbrev console : List ℕ
console = 0 ∷ 80 ∷ 242 ∷ 18 ∷ 52 ∷ 86 ∷ []

printed : mac_string console ≡ codes "00:50:f2:12:34:56"
unfolding mac_string joined
printed = refl

-- The dotted form is read too.
with_dots : parse_mac (codes "0050.f212.3456") ≡ some console
unfolding parse_mac net_parse_mac groups dotted colons
with_dots = refl

-- Dashes and colons can be mixed.
mixed : parse_mac (codes "00-50:F2-12:34-56") ≡ some console
unfolding parse_mac net_parse_mac groups dotted colons
mixed = refl

-- An address of eight bytes is refused.
eight_bytes : parse_mac (codes "00:50:f2:12:34:56:78:9a") ≡ none
unfolding parse_mac net_parse_mac groups dotted colons
eight_bytes = refl

parse_mac-joined_example : parse_mac (joined b'-' console) ≡ some console
parse_mac-joined_example = parse_mac-joined b'-' console (inr refl) refl (omega arith)

parse_mac-IsMac_example : IsMac console
unfolding parse_mac net_parse_mac groups dotted colons
parse_mac-IsMac_example = parse_mac-IsMac (codes "0050.f212.3456") console refl
