-- ===== src/Bridge/Buffer/Tests.antt =====
-- Two frames that meet in the read buffer.
use xbslink_ng.Base.{sizes, ℕ, ◌≤◌, ◌≡◌, List, some, arith, length, replicate, make}
use xbslink_ng.Protocol.RoundTrip.{after_sending}
use xbslink_ng.Bridge.Buffer.{receive, inject}
use xbslink_ng.Bridge.Buffer.Reuse.{empty_inbox, wire, frame_overwritten}
use xbslink_ng.Samples.{toy_mac, keyed, keyed-Paired}

abbrev first_frame : List ℕ
first_frame = replicate 14 5

abbrev second_frame : List ℕ
second_frame = replicate 14 6

abbrev buffer : List ℕ
buffer = make 1_600

big : 1_555 ≤ length buffer
big = grind sizes

frame_overwritten_example :
    let s =
      receive toy_mac
        (receive toy_mac (empty_inbox keyed buffer) (wire toy_mac keyed first_frame))
        (wire toy_mac (after_sending keyed) second_frame) in
    ((inject s).0 ≡ some second_frame) × ((inject (inject s).1).0 ≡ some second_frame)
frame_overwritten_example =
    frame_overwritten toy_mac keyed keyed buffer first_frame second_frame keyed-Paired (omega arith)
      (omega arith, omega arith) (omega arith, omega arith) (omega arith) big
