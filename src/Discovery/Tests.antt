-- ===== src/Discovery/Tests.antt =====
-- A short packet, a packet from a group address, and one of a device.
use xbslink_ng.Base.{
  ℕ, ◌≡◌, refl, false, Option, none, some, List, [], ◌∷◌, ◌++◌, replicate, copy_at, overwrite,
}
use xbslink_ng.Discovery.{
  Turn, found, on_read, on_packet, discover, Device, find_device, find_interface, name_of,
}
use xbslink_ng.Discovery.Xbox.{IsFirst, discover-IsFirst}
use xbslink_ng.Discovery.Interface.{IsAnswer, search-IsAnswer}

abbrev turn : Option (List ℕ) → Turn
turn p = record { cancelled = false; packet = p }

abbrev to_all : List ℕ
to_all = replicate 6 0xff

abbrev xbox : List ℕ
xbox = 0 ∷ 0x50 ∷ 0xf2 ∷ 1 ∷ 2 ∷ 3 ∷ []

abbrev turns : List Turn
turns =
    turn none
    ∷ turn (some (1 ∷ 2 ∷ []))
    ∷ turn (some (to_all ++ (1 ∷ xbox ++ (0 ∷ 8 ∷ 0 ∷ []))))
    ∷ turn (some (to_all ++ (xbox ++ (8 ∷ 0 ∷ []))))
    ∷ []

discover_test : discover turns ≡ found xbox
unfolding discover on_read on_packet copy_at overwrite
discover_test = refl

discover-IsFirst_example : IsFirst turns xbox
discover-IsFirst_example = discover-IsFirst turns xbox discover_test

abbrev devices : List Device
devices =
    record { name = 3 ∷ 4 ∷ []; description = 7 ∷ 8 ∷ 9 ∷ [] }
    ∷ record { name = 5 ∷ []; description = [] }
    ∷ []

search-IsAnswer_example :
    (d : Option Device) × IsAnswer (λ s. s) (8 ∷ 9 ∷ []) devices d
    × (find_device (λ s. s) (8 ∷ 9 ∷ []) devices ≡ d)
    × (find_interface (λ s. s) (8 ∷ 9 ∷ []) devices ≡ name_of (λ s. s) (8 ∷ 9 ∷ []) d)
search-IsAnswer_example = search-IsAnswer (λ s. s) (8 ∷ 9 ∷ []) devices
