-- ===== src/Bridge/Buffer.antt =====
-- internal/bridge/bridge.go: the one read buffer of `recvLoop`, into which the frames that it queues
-- for injection point: `Decode` returns slices of its argument, and a channel of slices holds no bytes.
pub mod Reuse
mod Tests
use xbslink_ng.Base.{
  offer, ℕ, ◌+◌, Option, none, some, List, [], ◌∷◌, ◌==◌, length, slice, overwrite, if◌then◌else◌,
}
use xbslink_ng.Protocol.{Mac, Codec, Message, Result, ok, err, msg_frame, decode_message}
use xbslink_ng.Bridge.{channel_buffer_size}

-- A slice of the buffer.
pub record Span : Type 0 where
  pub start : ℕ
  pub len : ℕ

-- `framesToInject` with the array that its slices share, and the codec.
pub record Inbox : Type 0 where
  pub codec : Codec
  pub bytes : List ℕ
  pub queue : List Span

-- Where the payload begins in a datagram.
abbrev pub header_size : Codec → ℕ
header_size c = if c.secure_mode then 9 else 1

unfoldable pub enqueue : Inbox → Codec → Result Message → Inbox
enqueue s c (err e) = record s { codec = c }
enqueue s c (ok msg) =
    if msg.msg_type == msg_frame
    then record s {
      codec = c;
      queue =
          offer channel_buffer_size s.queue
            (record { start = header_size s.codec; len = length msg.frame });
    }
    else record s { codec = c }

-- A datagram of the peer, read into the buffer, decoded there and queued.
unfoldable pub receive : Mac → Inbox → List ℕ → Inbox
unfolding enqueue
receive mac s m =
    let (c, r) = decode_message mac s.codec m in
    enqueue (record s { bytes = overwrite s.bytes m }) c r

-- The bytes that `injectLoop` hands to `WritePacket` next, and what stays queued.
unfoldable pub inject : Inbox → Option (List ℕ) × Inbox
inject s = next_of s s.queue
  where
    next_of : Inbox → List Span → Option (List ℕ) × Inbox
    next_of s [] = (none, s)
    next_of s (p ∷ rest) =
        (some (slice p.start (p.start + p.len) s.bytes), record s { queue = rest })
