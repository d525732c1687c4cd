-- ===== src/Capture/Tests.antt =====
-- An ARP frame to all stations.
use xbslink_ng.Base.{ℕ, List, [], ◌∷◌}

abbrev console : List ℕ
console = 0 ∷ 0x50 ∷ 0xf2 ∷ 1 ∷ 2 ∷ 3 ∷ []
