-- ===== src/Capture.antt =====
-- internal/capture/capture.go: the header of an Ethernet frame, and the frames that the simulator
-- builds (test/e2e/xbox-sim/main.go).
pub mod Mac
pub mod Handle
pub mod Listing
pub mod Frame
mod Tests
use xbslink_ng.Base.{
  ℕ, ◌+◌, ◌*◌, ◌^◌, Option, none, some, List, ltb, if◌then◌else◌, length, get_or, slice, make,
  copy_at, put_uint16,
}

-- The source address, the destination address and the type; the addresses of a frame that is too
-- short are nil.
unfoldable pub decode_ethernet_frame : List ℕ → Option (List ℕ) × Option (List ℕ) × ℕ
decode_ethernet_frame frame = if ltb (length frame) 14 then (none, none, 0) else (
  some (slice 6 12 frame),
  some (slice 0 6 frame),
  get_or frame 12 0 * 2 ^ 8 + get_or frame 13 0,
)

unfoldable pub build_ethernet_frame : List ℕ → List ℕ → ℕ → List ℕ → List ℕ
build_ethernet_frame src dst ether_type payload =
    copy_at
      (copy_at (copy_at (copy_at (make (14 + length payload)) 0 dst) 6 src) 12
        (put_uint16 ether_type))
      14 payload
