-- ===== src/Bridge/Forward.antt =====
-- Messages from one bridge to the other.
use xbslink_ng.Base.{
  offer, ℕ, ◌<◌, ◌≤◌, ◌≡◌, refl, ap, ◌∙◌, Bool, true, false, not, Option, none, some, List, [], ◌∷◌,
  arith, length, if_false, add64, sub64, IsU64,
}
use xbslink_ng.Protocol.{
  Mac, Codec, Result, ok, err, Message, msg_frame, msg_ping, msg_pong, min_ethernet_frame,
  max_frame_size, encode_frame, decode_message,
}
use xbslink_ng.Protocol.RoundTrip.{Paired, after_sending, after_receipt}
use xbslink_ng.Protocol.Messages.{frame, ping, pong, transmit, meaning}
use xbslink_ng.Protocol.Messages.Decoded.{decode_message-transmit}
use xbslink_ng.Net.{UdpAddr, addr_equal}
use xbslink_ng.Transport.{Write, SendError, got, send}
use xbslink_ng.Bridge.Rtt.{Float64, add_rtt_sample, set_last_rtt}
use xbslink_ng.Bridge.Ping.{pong_taken}
use xbslink_ng.Bridge.{
  Bridge, Effect, take_pong, channel_buffer_size, recv_turn, on_decoded, dispatch, handle_frame,
  handle_ping, send_turn, on_encoded, count_sent, sent_or, start_ping,
}

-- A bridge whose transport is connected and open.
pub record IsUp (b : Bridge) : Type 0 where
  pub connected : b.transport.connected ≡ true
  pub open_socket : b.transport.closed ≡ false

-- The bridge with the codec that has taken a datagram.
abbrev pub with_codec : Bridge → Codec → Bridge
with_codec b c = record b { transport = record (b.transport) { codec = c } }

-- A datagram from another address than the peer's changes nothing, whatever it holds.
pub foreign_ignored :
    (mac : Mac) (f : Float64) (now : ℕ) (write_ok : Bool) (b : Bridge) (peer addr : UdpAddr)
    (bytes : List ℕ)
    → addr_equal (some addr) (some peer) ≡ false
    → recv_turn mac f now write_ok (some peer) b (got addr bytes) ≡ (b, [], [])
unfolding recv_turn
foreign_ignored mac f now write_ok b peer addr bytes h = ground arith

-- A datagram of the peer that decodes goes to the handler of its type.
pub recv_decoded :
    (mac : Mac) (f : Float64) (now : ℕ) (write_ok : Bool) (b : Bridge) (peer addr : UdpAddr)
    (bytes : List ℕ) (c : Codec) (msg : Message)
    → b.transport.closed ≡ false
    → addr_equal (some addr) (some peer) ≡ true
    → decode_message mac b.transport.codec bytes ≡ (c, ok msg)
    → recv_turn mac f now write_ok (some peer) b (got addr bytes)
      ≡ dispatch mac f now write_ok (with_codec b c) msg
unfolding recv_turn
recv_decoded mac f now write_ok b peer addr bytes c msg up same e =
    if_false _ _ up
    ∙ if_false _ _ (ap not same)
    ∙ ap (λ (x : Codec × Result Message). on_decoded mac f now write_ok (with_codec b x.0) x.1) e

-- A datagram of an up transport goes to its peer.
send_up :
    (b : Bridge) (m : List ℕ)
    → IsUp b
    → send b.transport m true ≡ ((b.transport.peer_addr, m) ∷ [], none)
unfolding send
send_up b m up = if_false _ _ up.open_socket ∙ if_false _ _ (ap not up.connected)

pub frame_sent :
    (mac : Mac) (a : Bridge) (bytes m : List ℕ) (c : Codec)
    → IsUp a
    → encode_frame mac a.transport.codec bytes ≡ (c, ok m)
    → send_turn mac true a bytes
      ≡ (count_sent (with_codec a c) bytes, (a.transport.peer_addr, m) ∷ [], [])
unfolding send_turn
frame_sent mac a bytes m c up e =
    ap (on_encoded true a bytes) e
    ∙ ap
        (λ (x : List Write × Option SendError).
          (sent_or x.1 (count_sent (with_codec a c) bytes) (with_codec a c), x.0, []))
        (send_up a m up)

-- A frame of 14 to 1514 bytes that one bridge sends to the other arrives in the other's queue for
-- injection as it was, unless that queue is full, in which case it is dropped; both sides count it.
pub frame_forwarded :
    (mac : Mac) (f : Float64) (now : ℕ) (write_ok : Bool) (a b : Bridge) (peer addr : UdpAddr)
    (bytes : List ℕ)
    → IsUp a
    → IsUp b
    → Paired a.transport.codec b.transport.codec
    → min_ethernet_frame ≤ length bytes
    → length bytes ≤ max_frame_size
    → addr_equal (some addr) (some peer) ≡ true
    → let sent = send_turn mac true a bytes in
      (m : List ℕ) × (sent.1 ≡ (a.transport.peer_addr, m) ∷ [])
      × (sent.0.stats.tx_packets ≡ add64 a.stats.tx_packets 1)
      × (sent.0.stats.tx_bytes ≡ add64 a.stats.tx_bytes (length bytes))
      × (let (b', out, events) = recv_turn mac f now write_ok (some peer) b (got addr m) in
          (b'.frames_to_inject ≡ offer channel_buffer_size b.frames_to_inject bytes)
          × (b'.stats.rx_packets ≡ add64 b.stats.rx_packets 1)
          × (b'.stats.rx_bytes ≡ add64 b.stats.rx_bytes (length bytes))
          × (b'.state ≡ b.state)
          × (out ≡ [])
          × (events ≡ []))
unfolding dispatch handle_frame transmit
frame_forwarded mac f now write_ok a b peer addr bytes ua ub p lo hi same =
    let (m, made, got_it) =
      decode_message-transmit mac a.transport.codec b.transport.codec (frame bytes) p (lo, hi) in
    let s = frame_sent mac a bytes m (after_sending a.transport.codec) ua made in
    let r =
      recv_decoded mac f now write_ok b peer addr m
        (after_receipt a.transport.codec b.transport.codec msg_frame)
        (meaning mac a.transport.codec (frame bytes)) ub.open_socket same got_it in
    (
      m,
      ap (λ (x : Effect). x.1) s,
      ap (λ (x : Effect). x.0.stats.tx_packets) s,
      ap (λ (x : Effect). x.0.stats.tx_bytes) s,
      rw r (refl, refl, refl, refl, refl, refl),
    )

-- The codecs of both ends behind a PING that the other end has taken, ready for the PONG.
answer_Paired :
    (a b : Codec) → Paired a b → Paired b a → Paired (after_receipt a b msg_ping) (after_sending a)
answer_Paired a b p q = ground arith

abbrev made_of : Codec × Result (List ℕ) → Codec × List ℕ
made_of (c, ok m) = (c, m)
made_of (c, err e) = (c, [])

-- The bridge that has sent a PING.
abbrev pinging : Bridge → ℕ → Codec → Bridge
pinging b now c = record (with_codec b c) { pending_ping = now }

ping_sent :
    (mac : Mac) (a : Bridge) (now : ℕ) (m : List ℕ) (c : Codec)
    → IsUp a
    → transmit mac a.transport.codec (ping now) ≡ (c, ok m)
    → start_ping mac now true a ≡ (pinging a now c, (a.transport.peer_addr, m) ∷ [], [])
unfolding start_ping transmit
ping_sent mac a now m c up e =
    ap
      (λ (x : Codec × Result (List ℕ)).
        let (c', m') = made_of x in (pinging a now c', (send a.transport m' true).0, []))
      e
    ∙ ap (λ (x : List Write × Option SendError). (pinging a now c, x.0, [])) (send_up a m up)

pong_sent :
    (mac : Mac) (b : Bridge) (timestamp : ℕ) (m : List ℕ) (c : Codec)
    → IsUp b
    → transmit mac b.transport.codec (pong timestamp) ≡ (c, ok m)
    → handle_ping mac true b timestamp ≡ (with_codec b c, (b.transport.peer_addr, m) ∷ [], [])
unfolding handle_ping transmit
pong_sent mac b timestamp m c up e =
    ap
      (λ (x : Codec × Result (List ℕ)).
        let (c', m') = made_of x in (with_codec b c', (send b.transport m' true).0, []))
      e
    ∙ ap (λ (x : List Write × Option SendError). (with_codec b c, x.0, [])) (send_up b m up)

-- A ping between two bridges: the answer that comes back at `now` to the PING of `sent` ends the
-- wait, and the RTT is the time between the two.
pub ping_answered :
    (mac : Mac) (f : Float64) (sent between now : ℕ) (a b : Bridge) (pa pb addr_a addr_b : UdpAddr)
    → IsUp a
    → IsUp b
    → Paired a.transport.codec b.transport.codec
    → Paired b.transport.codec a.transport.codec
    → 0 < sent
    → IsU64 sent
    → addr_equal (some addr_a) (some pa) ≡ true
    → addr_equal (some addr_b) (some pb) ≡ true
    → let pinged = start_ping mac sent true a in
      (ping_bytes : List ℕ) × (pong_bytes : List ℕ) × (pinged.1
        ≡ (a.transport.peer_addr, ping_bytes) ∷ [])
      × ((recv_turn mac f between true (some pa) b (got addr_a ping_bytes)).1
          ≡ (b.transport.peer_addr, pong_bytes) ∷ [])
      × (let (a', out, events) =
            recv_turn mac f now true (some pb) pinged.0 (got addr_b pong_bytes) in
          (a'.pending_ping ≡ 0)
          × (a'.missed_pongs ≡ 0)
          × (a'.stats.rtt_current ≡ sub64 now sent)
          × (out ≡ []))
unfolding dispatch take_pong add_rtt_sample set_last_rtt
ping_answered mac f sent between now a b pa pb addr_a addr_b ua ub p q pos range sa sb =
    let ca = a.transport.codec in
    let cb = b.transport.codec in
    let (m, made, taken) = decode_message-transmit mac ca cb (ping sent) p range in
    let cb' = after_receipt ca cb msg_ping in
    let ca' = after_sending ca in
    let (m', made', taken') =
      decode_message-transmit mac cb' ca' (pong sent) (answer_Paired ca cb p q) range in
    let b' = with_codec b cb' in
    let a' = pinging a sent ca' in
    let end = after_receipt cb' ca' msg_pong in
    let up : IsUp b' = record { connected = ub.connected; open_socket = ub.open_socket } in
    let s = ping_sent mac a sent m ca' ua made in
    let r =
      recv_decoded mac f between true b pa addr_a m cb' (meaning mac ca (ping sent)) ub.open_socket
        sa taken
      ∙ pong_sent mac b' sent m' (after_sending cb') up made' in
    let r' =
      recv_decoded mac f now true a' pb addr_b m' end (meaning mac cb' (pong sent)) ua.open_socket
        sb taken'
      ∙ pong_taken f now (with_codec a' end) sent (λ z. omega (arith, z, pos)) refl in
    (
      m,
      m',
      ap (λ (x : Effect). x.1) s,
      ap (λ (x : Effect). x.1) r,
      rw s (rw r' (refl, refl, refl, refl)),
    )
