-- ===== src/Bridge/Capturing.antt =====
-- internal/bridge/bridge.go: the capture of a bridge, which may be set while `Run` is running, and the
-- two loops that wait for it, as a step relation. `SetCapture` holds the lock of the field from its
-- test to its write, so that it is one step.
pub mod Invariant
mod Tests
use xbslink_ng.Base.{
  ℕ, ◌+◌, ◌<◌, ◌≡◌, ◌⊎◌, Bool, true, false, Option, none, some, List, [], ◌∷◌, ◌++◌, offer,
  if◌then◌else◌,
}
use xbslink_ng.Bridge.{channel_buffer_size}
use xbslink_ng.Capture.Handle.{
  Capture, Packet, ReadResult, no_packet, read_failed, on_nil_handle, frame, read_packet,
  WriteResult, write_packet, close_capture,
}

-- Where a loop is: it waits for `captureReady` or the context; it forwards; it has returned because of
-- the context, or because the field is nil; it has called a method of a nil handle.
pub data Stage : Type 0 where
  awaiting forwarding ended found_nil in_nil_handle : Stage

-- `ready_closes` counts how often `captureReady` has been closed; a second close is a panic.
-- `nil_drops` counts the frames that `injectLoop` drops because the field is nil.
pub record Capturing : Type 0 where
  pub capture : Option Capture
  pub ready_closes : ℕ
  pub cancelled : Bool
  pub capture_stage : Stage
  pub inject_stage : Stage
  pub frames_to_send : List (List ℕ)
  pub results : List WriteResult
  pub nil_drops : ℕ

abbrev pub given_closes : Option Capture → ℕ
given_closes none = 0
given_closes (some c) = 1

-- `New` with a capture or without, and the loops started.
unfoldable pub new_capturing : Option Capture → Capturing
new_capturing c = record {
  capture = c;
  ready_closes = given_closes c;
  cancelled = false;
  capture_stage = awaiting;
  inject_stage = awaiting;
  frames_to_send = [];
  results = [];
  nil_drops = 0;
}

unfoldable pub has_capture : Capturing → Bool
has_capture s = elim (s.capture) [ none ↦ false | some c ↦ true ]

-- `SetCapture` on a capture, as its callers call it, never on nil; false stands for its error.
unfoldable pub set_capture : Capturing → Capture → Capturing × Bool
unfolding has_capture
set_capture s c =
    if has_capture s
    then (s, false)
    else (record s { capture = some c; ready_closes = s.ready_closes + 1 }, true)

abbrev pub after_read : Capturing → ReadResult → Capturing
after_read s no_packet = s
after_read s read_failed = s
after_read s on_nil_handle = record s { capture_stage = in_nil_handle }
after_read s (frame bytes) = record s {
  frames_to_send = offer channel_buffer_size s.frames_to_send bytes;
}

abbrev pub read_turn : Capturing → Packet → Option Capture → Capturing
read_turn s p none = record s { capture_stage = found_nil }
read_turn s p (some c) = after_read s (read_packet c p)

-- One turn of `captureLoop` that the context does not stop.
unfoldable pub capture_turn : Capturing → Packet → Capturing
capture_turn s p = read_turn s p s.capture

abbrev pub write_turn : Capturing → Bool → List ℕ → Option Capture → Capturing
write_turn s write_ok bytes none = record s { nil_drops = s.nil_drops + 1 }
write_turn s write_ok bytes (some c) = record s {
  results = s.results ++ (write_packet c write_ok bytes ∷ []);
}

-- One turn of `injectLoop` on the next frame.
unfoldable pub inject_turn : Capturing → Bool → List ℕ → Capturing
inject_turn s write_ok bytes = write_turn s write_ok bytes s.capture

abbrev pub closed_capture : Option Capture → Option Capture
closed_capture none = none
closed_capture (some c) = some (close_capture c).1

-- What `Run` does with the capture when it cleans up.
unfoldable pub clean_up_capture : Capturing → Capturing
clean_up_capture s = record s { capture = closed_capture s.capture }

pub data Step (s : Capturing) : Capturing → Type 0 where
  cancelling : Step s (record s { cancelled = true })
  setting : (c : Capture) → Step s (set_capture s c).0
  capture_wakes :
      s.capture_stage ≡ awaiting
      → 0 < s.ready_closes
      → Step s (record s { capture_stage = forwarding })
  capture_ends :
      s.cancelled ≡ true
      → (s.capture_stage ≡ awaiting) ⊎ (s.capture_stage ≡ forwarding)
      → Step s (record s { capture_stage = ended })
  capturing : (p : Packet) → s.capture_stage ≡ forwarding → Step s (capture_turn s p)
  inject_wakes :
      s.inject_stage ≡ awaiting
      → 0 < s.ready_closes
      → Step s (record s { inject_stage = forwarding })
  inject_ends :
      s.cancelled ≡ true
      → (s.inject_stage ≡ awaiting) ⊎ (s.inject_stage ≡ forwarding)
      → Step s (record s { inject_stage = ended })
  injecting :
      (write_ok : Bool) (bytes : List ℕ)
      → s.inject_stage ≡ forwarding
      → Step s (inject_turn s write_ok bytes)
  cleaning_up : Step s (clean_up_capture s)

pub data Reach (s : Capturing) : Capturing → Type 0 where
  here : Reach s s
  next : {t u : Capturing} → Reach s t → Step t u → Reach s u
