-- ===== src/Bridge/Capturing/Invariant.antt =====
-- internal/bridge/bridge.go: the capture is set once, and a loop that forwards has one.
use xbslink_ng.Base.{◌≡◌, ◌≢◌, ◌⊎◌, refl, false, Option, none, some, arith}
use xbslink_ng.Capture.Handle.{Capture, Packet, read_packet, close_capture}
use xbslink_ng.Bridge.Capturing.{
  forwarding, found_nil, in_nil_handle, Capturing, new_capturing, has_capture, set_capture,
  capture_turn, inject_turn, clean_up_capture, Step, cancelling, setting, capture_wakes,
  capture_ends, capturing, inject_wakes, inject_ends, injecting, cleaning_up, Reach, here, next,
}

-- `captureReady` is closed, once, exactly when there is a capture; a loop that forwards has one; and no
-- loop has found the field nil.
abbrev pub IsSound : Capturing → Type 0
IsSound s =
    (((s.capture ≡ none) × (s.ready_closes ≡ 0))
      ⊎ ((c : Capture) × (s.capture ≡ some c) × (s.ready_closes ≡ 1)))
    × (s.capture_stage ≡ forwarding → s.ready_closes ≡ 1)
    × (s.inject_stage ≡ forwarding → s.ready_closes ≡ 1)
    × (s.capture_stage ≢ found_nil)
    × (s.nil_drops ≡ 0)

new_capturing-IsSound : (c : Option Capture) → IsSound (new_capturing c)
unfolding new_capturing
new_capturing-IsSound none = ground arith
new_capturing-IsSound (some c) = ground arith

step-IsSound : {s t : Capturing} → IsSound s → Step s t → IsSound t
unfolding set_capture has_capture capture_turn inject_turn clean_up_capture
step-IsSound h cancelling = h
step-IsSound h (setting c) = ground (arith, h)
step-IsSound h (capture_wakes e r) = ground (arith, h)
step-IsSound h (capture_ends e r) = ground (arith, h)
step-IsSound h (capturing p e) = ground (arith, h)
step-IsSound h (inject_wakes e r) = ground (arith, h)
step-IsSound h (inject_ends e r) = ground (arith, h)
step-IsSound h (injecting w b e) = ground (arith, h)
step-IsSound h cleaning_up = ground (arith, h)

-- However `SetCapture`, the context, the clean-up and the turns of the loops follow each other on a new
-- bridge: `captureReady` is closed at most once, and exactly when a capture is set; a loop forwards only
-- then; and neither loop ever finds the field of the capture nil.
pub reach-IsSound :
    (initial : Option Capture) (s : Capturing) → Reach (new_capturing initial) s → IsSound s
reach-IsSound initial _ here = new_capturing-IsSound initial
reach-IsSound initial _ (next {t = t} r st) = step-IsSound (reach-IsSound initial t r) st

-- The capture of a state has the address and the filter of one that was set.
abbrev pub Keeps : Capture → Capturing → Type 0
Keeps c s = (d : Capture) × (s.capture ≡ some d) × (d.xbox_mac ≡ c.xbox_mac) × (d.filter ≡ c.filter)

step-Keeps : {s t : Capturing} (c : Capture) → Keeps c s → Step s t → Keeps c t
unfolding set_capture has_capture capture_turn inject_turn clean_up_capture close_capture
step-Keeps c h cancelling = h
step-Keeps c h (setting d) = (h.0, ground (arith, h), h.2, h.3)
step-Keeps c h (capture_wakes e r) = h
step-Keeps c h (capture_ends e r) = h
step-Keeps c h (capturing p e) = (h.0, ground (arith, h), h.2, h.3)
step-Keeps c h (inject_wakes e r) = h
step-Keeps c h (inject_ends e r) = h
step-Keeps c h (injecting w b e) = (h.0, ground (arith, h), h.2, h.3)
step-Keeps c h cleaning_up =
    ((close_capture h.0).1, ground (arith, h), ground (arith, h), ground (arith, h))

reach-Keeps : {s t : Capturing} (c : Capture) → Keeps c s → Reach s t → Keeps c t
reach-Keeps c h here = h
reach-Keeps c h (next r st) = step-Keeps c (reach-Keeps c h r) st

-- The first capture that `SetCapture` sets stays, whatever follows, and a later call of it is refused
-- and changes nothing.
pub set_capture-Keeps :
    (s t : Capturing) (c d : Capture)
    → s.capture ≡ none
    → Reach (set_capture s c).0 t
    → Keeps c t × (set_capture t d ≡ (t, false))
unfolding set_capture has_capture
set_capture-Keeps s t c d e r =
    let kept = reach-Keeps c (c, ground (arith, e), refl, refl) r in (kept, ground (arith, kept))

-- When `Run` closes the capture while the loops still forward, as it does when the peer is lost, the
-- next turn of the capture loop calls a method of a nil handle.
pub closed_under_loop :
    (initial : Option Capture) (s : Capturing) (p : Packet)
    → Reach (new_capturing initial) s
    → s.capture_stage ≡ forwarding
    → (capture_turn (clean_up_capture s) p).capture_stage ≡ in_nil_handle
unfolding capture_turn clean_up_capture close_capture read_packet
closed_under_loop initial s p r e = ground (arith, reach-IsSound initial s r)
