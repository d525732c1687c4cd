-- ===== src/Bridge/Begin/Pair.antt =====
-- Two bridges come up together.
use xbslink_ng.Base.{
  ℕ, ◌+◌, ◌^◌, ◌<◌, ◌≡◌, ap, ◌∙◌, true, false, some, Bool, List, [], ◌∷◌, length, if_true, if_false,
  arith, ◌≤◌, equal_refl, offer,
}
use xbslink_ng.Protocol.{Mac, challenge_size, min_ethernet_frame, max_frame_size}
use xbslink_ng.Protocol.RoundTrip.{Paired, Linked}
use xbslink_ng.Net.{UdpAddr, addr_equal, ip_equal}
use xbslink_ng.Transport.{Transport, Write, Exit, success, connect, listen, is_listen, got}
use xbslink_ng.Transport.Handshake.{arrives, answered}
use xbslink_ng.Transport.Handshake.Pair.{handshake_connects}
use xbslink_ng.Bridge.{
  Bridge, Event, connected, connecting, set_state, send_turn, recv_turn, channel_buffer_size,
}
use xbslink_ng.Bridge.Rtt.{Float64}
use xbslink_ng.Bridge.Forward.{IsUp, frame_forwarded}
use xbslink_ng.Bridge.Begin.{up, after_connecting, begin_run, without_delays}

-- The bridge whose transport has come up.
abbrev pub begun : Bridge → Transport → Bridge
begun b t = record b { transport = t; state = connected }

after_success :
    (cancelled : Bool) (b : Bridge) (events : List Event) (t : Transport) (out : List Write)
    (x : Transport × List Write × Exit)
    → x ≡ (t, out, success)
    → (more : List Event) × (after_connecting cancelled b events x ≡ (begun b t, out, more, up))
unfolding after_connecting set_state
after_success cancelled b events t out x e = (_, ap (after_connecting cancelled b events) e)

-- The two ends of a connection, started on transports that are open, with the same key and one HELLO
-- and one HELLO_ACK between them: both start their goroutines in the state `connected`, on transports
-- that are connected and open, the listener with the connector's address as its peer, and each end
-- accepts the other's messages, and the connector has counted at most one.
pub bridges_come_up :
    (mac : Mac) (ca cl : Bool) (a l : Bridge) (random : List ℕ) (from to : UdpAddr)
    → a.transport.mode ≡ connect
    → l.transport.mode ≡ listen
    → a.transport.closed ≡ false
    → l.transport.closed ≡ false
    → Linked a.transport.codec l.transport.codec
    → a.transport.codec.send_nonce + 2 < 2 ^ 64
    → l.transport.codec.send_nonce + 2 < 2 ^ 64
    → length random ≡ challenge_size
    → addr_equal (some to) a.transport.peer_addr ≡ true
    → (ta : Transport) × (tl : Transport) × (hello : List ℕ) × (ack : List ℕ) × (ea : List Event)
      × (el : List Event) × (begin_run mac ca a [] (answered random (arrives to ack ∷ []) ∷ [])
          ≡ (begun a ta, (a.transport.peer_addr, hello) ∷ [], ea, up))
      × (begin_run mac cl l (arrives from hello ∷ []) []
          ≡ (begun l tl, (some from, ack) ∷ [], el, up))
      × IsUp (begun a ta)
      × IsUp (begun l tl)
      × (tl.peer_addr ≡ some from)
      × Paired ta.codec tl.codec
      × Paired tl.codec ta.codec
      × (ta.codec.send_nonce ≤ a.transport.codec.send_nonce + 1)
unfolding begin_run set_state
bridges_come_up mac ca cl a l random from to am lm oa ol link ra rl size same =
    let (ta, tl, hello, ack, made, heard, on_a, on_l, peer, p, q, same_a, same_l, same_p, nonce) =
      handshake_connects mac a.transport l.transport random from to am lm link ra rl size same in
    let (ea, begun_a) =
      after_success ca (record a { state = connecting }) (set_state a connecting).1 ta _ _
        (if_false _ _ (ap is_listen am) ∙ ap without_delays made) in
    let (el, begun_l) =
      after_success cl (record l { state = connecting }) (set_state l connecting).1 tl _ _
        (if_true _ _ (ap is_listen lm) ∙ heard) in
    (
      ta,
      tl,
      hello,
      ack,
      ea,
      el,
      begun_a,
      begun_l,
      record { connected = on_a; open_socket = same_a ∙ oa },
      record { connected = on_l; open_socket = same_l ∙ ol },
      peer,
      p,
      q,
      nonce,
    )

addr_equal_refl : (x : UdpAddr) → addr_equal (some x) (some x) ≡ true
unfolding addr_equal ip_equal
addr_equal_refl x = ground (arith, equal_refl x.ip)

-- From a cold start to the first frame: the two ends come up as above, and then a frame of 14 to 1514
-- bytes that the connector's bridge sends, in a datagram that comes from the address of its HELLO,
-- arrives in the injection queue of the listener's bridge as it was, unless that queue is full. The
-- connector has counted at most one message before it.
pub first_frame_arrives :
    (mac : Mac) (f : Float64) (now : ℕ) (write_ok : Bool) (a l : Bridge) (random : List ℕ)
    (from to : UdpAddr) (bytes : List ℕ)
    → a.transport.mode ≡ connect
    → l.transport.mode ≡ listen
    → a.transport.closed ≡ false
    → l.transport.closed ≡ false
    → Linked a.transport.codec l.transport.codec
    → a.transport.codec.send_nonce + 2 < 2 ^ 64
    → l.transport.codec.send_nonce + 2 < 2 ^ 64
    → length random ≡ challenge_size
    → addr_equal (some to) a.transport.peer_addr ≡ true
    → min_ethernet_frame ≤ length bytes
    → length bytes ≤ max_frame_size
    → (ta : Transport) × (tl : Transport) × (hello : List ℕ) × (ack : List ℕ) × (ea : List Event)
      × (el : List Event) × (m : List ℕ) × (begin_run mac false a []
            (answered random (arrives to ack ∷ []) ∷ [])
          ≡ (begun a ta, (a.transport.peer_addr, hello) ∷ [], ea, up))
      × (begin_run mac false l (arrives from hello ∷ []) []
          ≡ (begun l tl, (some from, ack) ∷ [], el, up))
      × ((send_turn mac true (begun a ta) bytes).1 ≡ (ta.peer_addr, m) ∷ [])
      × ((recv_turn mac f now write_ok (some from) (begun l tl) (got from m)).0.frames_to_inject
          ≡ offer channel_buffer_size l.frames_to_inject bytes)
      × (ta.codec.send_nonce ≤ a.transport.codec.send_nonce + 1)
first_frame_arrives mac f now write_ok a l random from to bytes am lm oa ol link ra rl size same lo
      hi =
    let (ta, tl, hello, ack, ea, el, start_a, start_l, up_a, up_l, peer, p, q, nonce) =
      bridges_come_up mac false false a l random from to am lm oa ol link ra rl size same in
    let (m, sent, tp, tb, effect) =
      frame_forwarded mac f now write_ok (begun a ta) (begun l tl) from from bytes up_a up_l p lo hi
        (addr_equal_refl from) in
    (ta, tl, hello, ack, ea, el, m, start_a, start_l, sent, effect.0, nonce)
