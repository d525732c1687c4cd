-- ===== src/Bridge.antt =====
-- internal/bridge/bridge.go: the state that the goroutines of a bridge share, and the handlers that
-- change it. A handler returns the new state, the datagrams written and the events emitted; log lines
-- are left out. The clock and the outcome of a write are arguments.
mod Core
pub mod Rtt
pub mod Ping
pub mod Forward
pub mod Begin
pub mod Run
pub mod Buffer
pub mod Capturing
pub mod Report
pub mod Diagnostics
pub mod Console
pub mod Carry
mod Tests
use xbslink_ng.Base.{
  ℕ, ◌+◌, ◌%◌, ◌^◌, Bool, true, false, ◌&&◌, not, Option, none, some, List, [], ◌∷◌, ◌++◌, ltb, leb,
  ◌==◌, if◌then◌else◌, length, offer, add64, sub64, gt64,
}
use xbslink_ng.Protocol.{
  Mac, Codec, Message, Result, ok, err, encode_pong, encode_ping, encode_frame, decode_message,
  msg_frame, msg_ping, msg_pong, msg_bye,
}
use xbslink_ng.Net.{UdpAddr, addr_equal}
use xbslink_ng.Transport.{Transport, Write, Read, timed_out, failed, got, SendError, send}
use xbslink_ng.Bridge.Rtt.{Stats, Float64, no_stats, add_rtt_sample, set_last_rtt, check_rtt_spike}
unfoldable pub use Core.*

unfoldable pub handle_bye : Bridge → Effect
unfolding set_state close_done_once
handle_bye b = let (b', events) = set_state b disconnected in (close_done_once b', [], events)

-- The frame is queued as the bytes that it has now. In the program it is a slice of the read buffer of
-- `recvLoop`: Bridge/Buffer has the bytes that are there when it is injected.
unfoldable pub handle_frame : Bridge → List ℕ → Effect
handle_frame b frame = (
  record b {
    stats = record (b.stats) {
      rx_packets = add64 b.stats.rx_packets 1;
      rx_bytes = add64 b.stats.rx_bytes (length frame);
    };
    frames_to_inject = offer channel_buffer_size b.frames_to_inject frame;
  },
  [],
  [],
)

-- `handlePong` on the echo of the pending ping; `now` is `time.Now().UnixNano()`.
unfoldable pub take_pong : Float64 → ℕ → Bridge → ℕ → Effect
take_pong f now b timestamp =
    let rtt = sub64 now timestamp in
    let stats = add_rtt_sample (set_last_rtt b.stats b.stats.rtt_current) rtt in
    (
      record b { pending_ping = 0; missed_pongs = 0; stats = stats },
      [],
      latency rtt (check_rtt_spike f stats).0 (gt64 rtt rtt_alert_threshold) ∷ [],
    )

unfoldable pub handle_pong : Float64 → ℕ → Bridge → ℕ → Effect
handle_pong f now b timestamp =
    if b.pending_ping == 0
    then (b, [], [])
    else if not (timestamp == b.pending_ping)
    then (b, [], [])
    else take_pong f now b timestamp

abbrev is_some {ℓ} : {A : Type ℓ} → Option A → Bool
is_some none = false
is_some (some a) = true

-- `captureLoop` on a captured frame: into the channel, or dropped where that is full.
unfoldable pub capture_frame : Bridge → List ℕ → Bridge
capture_frame b frame = record b {
  frames_to_send = offer channel_buffer_size b.frames_to_send frame;
}

-- `sendLoop` after the statistics of a frame that was sent.
abbrev count_sent : Bridge → List ℕ → Bridge
count_sent b frame = record b {
  stats = record (b.stats) {
    tx_packets = add64 b.stats.tx_packets 1;
    tx_bytes = add64 b.stats.tx_bytes (length frame);
  };
}

abbrev sent_or : {A : Type 0} → Option SendError → A → A → A
sent_or none x y = x
sent_or (some e) x y = y

-- `sendLoop` after `EncodeFrame`.
unfoldable pub on_encoded : Bool → Bridge → List ℕ → Codec × Result (List ℕ) → Effect
on_encoded write_ok b frame (c, err e) =
    (record b { transport = record (b.transport) { codec = c } }, [], [])
on_encoded write_ok b frame (c, ok m) =
    let b' = record b { transport = record (b.transport) { codec = c } } in
    let (out, e) = send b.transport m write_ok in (sent_or e (count_sent b' frame) b', out, [])

module _ (mac : Mac) where
  unfoldable pub handle_ping : Bool → Bridge → ℕ → Effect
  handle_ping write_ok b timestamp =
      let t = b.transport in
      let (c, pong) = encode_pong mac t.codec timestamp in
      (record b { transport = record t { codec = c } }, (send t pong write_ok).0, [])

  -- The part of `sendPing` that a ping still pending reaches with the third miss.
  unfoldable pub give_up : Bridge → ℕ → Effect
  unfolding set_state close_done_once
  give_up b missed =
      let (b', events) = set_state b disconnected in
      (close_done_once b', [], peer_lost missed ∷ events)

  unfoldable pub start_ping : ℕ → Bool → Bridge → Effect
  start_ping now write_ok b =
      let t = b.transport in
      let (c, ping) = encode_ping mac t.codec now in
      (
        record b { pending_ping = now; transport = record t { codec = c } },
        (send t ping write_ok).0,
        [],
      )

  unfoldable pub send_ping : ℕ → Bool → Bridge → Effect
  unfolding give_up start_ping
  send_ping now write_ok b =
      let missed = (b.missed_pongs + 1) % 2 ^ 32 in
      let b' = record b { missed_pongs = missed } in
      if b.pending_ping == 0
      then start_ping now write_ok b
      else if leb max_missed_pongs missed && ltb missed (2 ^ 31)
      then give_up b' missed
      else start_ping now write_ok b'

  -- The `switch` of `recvLoop`.
  unfoldable pub dispatch : Float64 → ℕ → Bool → Bridge → Message → Effect
  dispatch f now write_ok b msg =
      if msg.msg_type == msg_frame
      then handle_frame b msg.frame
      else if msg.msg_type == msg_ping
      then handle_ping write_ok b msg.timestamp
      else if msg.msg_type == msg_pong
      then handle_pong f now b msg.timestamp
      else if msg.msg_type == msg_bye
      then handle_bye b
      else (b, [], [])

  unfoldable pub on_decoded : Float64 → ℕ → Bool → Bridge → Result Message → Effect
  on_decoded f now write_ok b (err e) = (b, [], [])
  on_decoded f now write_ok b (ok msg) = dispatch f now write_ok b msg

  -- One turn of `recvLoop` that the context does not stop, on what `Recv` returns; `peer` is the
  -- address that the loop read when it started, and a nil one turns the check off.
  unfoldable pub recv_turn : Float64 → ℕ → Bool → Option UdpAddr → Bridge → Read → Effect
  unfolding on_decoded
  recv_turn f now write_ok peer b timed_out = (b, [], [])
  recv_turn f now write_ok peer b failed = (b, [], [])
  recv_turn f now write_ok peer b (got addr bytes) =
      let t = b.transport in
      let (c, m) = decode_message mac t.codec bytes in
      if t.closed
      then (b, [], [])
      else if is_some peer && not (addr_equal (some addr) peer)
      then (b, [], [])
      else on_decoded f now write_ok (record b { transport = record t { codec = c } }) m

  -- One turn of `sendLoop` on the next captured frame.
  unfoldable pub send_turn : Bool → Bridge → List ℕ → Effect
  unfolding on_encoded
  send_turn write_ok b frame =
      on_encoded write_ok b frame (encode_frame mac b.transport.codec frame)
