-- ===== src/Bridge/Carry/Tests.antt =====
-- Three frames, of which the second is lost.
use xbslink_ng.Base.{
  refl, make, sizes, ℕ, ◌≡◌, true, false, List, [], ◌∷◌, Bool, arith, replicate, add64,
}
use xbslink_ng.Transport.{new_connect}
use xbslink_ng.Bridge.Rtt.{no_stats}
use xbslink_ng.Bridge.Buffer.Reuse.{empty_inbox}
use xbslink_ng.Bridge.Carry.{carry, carries_all, arriving}
use xbslink_ng.Samples.{
  toy_mac, keyed-Paired, whole_numbers, here, there, there_v6, same_there, up_bridge,
  up_bridge-IsUp,
}

abbrev three : List (List ℕ × Bool)
three = (replicate 14 1, true) ∷ (replicate 60 2, false) ∷ (replicate 1_514 3, true) ∷ []

abbrev buffer : List ℕ
buffer = make 1_600

carries_all_example :
    let (a, b, s, done) =
      carry toy_mac whole_numbers 5 there there_v6
        (up_bridge there)
        (up_bridge here)
        (empty_inbox (up_bridge here).transport.codec buffer)
        three in
    (done ≡ arriving three)
    × (s.queue ≡ [])
    × (b.frames_to_inject ≡ [])
    × (a.stats.tx_packets ≡ add64 0 3)
    × (b.stats.rx_packets ≡ add64 0 2)
unfolding new_connect no_stats
carries_all_example =
    carries_all toy_mac whole_numbers 5 there there_v6 (up_bridge there) (up_bridge here) buffer
      three (up_bridge-IsUp there) (up_bridge-IsUp here) keyed-Paired (omega arith) same_there
      ((omega arith, omega arith), ((omega arith, omega arith), ((omega arith, omega arith), tt)))
      refl (grind sizes) (omega arith) (omega arith)
