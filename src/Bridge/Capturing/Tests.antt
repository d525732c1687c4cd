-- ===== src/Bridge/Capturing/Tests.antt =====
-- internal/bridge/bridge.go: a capture that is set while the loops wait.
use xbslink_ng.Base.{◌≡◌, refl, true, none, [], ◌∷◌, arith, codes, copy_at}
use xbslink_ng.Capture.Handle.{Capture, timeout, data_of, read_packet}
use xbslink_ng.Bridge.Capturing.{
  Capturing, forwarding, in_nil_handle, new_capturing, has_capture, set_capture, capture_turn,
  clean_up_capture, Reach, here, next, setting, capture_wakes,
}
use xbslink_ng.Bridge.Capturing.Invariant.{IsSound, reach-IsSound, closed_under_loop}

abbrev console : Capture
console = record {
  handle_open = true;
  filter = codes "f";
  xbox_mac = codes "m";
  if_name = codes "eth0";
}

abbrev other : Capture
other = record {
  handle_open = true;
  filter = codes "g";
  xbox_mac = codes "n";
  if_name = codes "eth0";
}

abbrev waits : Capturing
waits = new_capturing none

abbrev active : Capturing
active = record (set_capture waits console).0 { capture_stage = forwarding }

abbrev activated : Reach waits active
unfolding set_capture has_capture new_capturing
activated = next (next here (setting console)) (capture_wakes refl (omega arith))

frame_read : (capture_turn active (data_of (codes "frame"))).frames_to_send ≡ codes "frame" ∷ []
unfolding capture_turn read_packet set_capture has_capture new_capturing copy_at
frame_read = refl

reach-IsSound_example : IsSound active
reach-IsSound_example = reach-IsSound none active activated

closed_under_loop_example :
    (capture_turn (clean_up_capture active) timeout).capture_stage ≡ in_nil_handle
closed_under_loop_example = closed_under_loop none active timeout activated refl
