-- ===== src/Bridge/Run/Tunnel/Tests.antt =====
-- A connector and a listener that meet, and the first frame between them.
use xbslink_ng.Base.{
  All, length-append, ℕ, List, [], ◌∷◌, length, ◌≤◌, ◌<◌, ◌+◌, ◌^◌, ◌≡◌, refl, ap, ◌∙◌, false, sym,
  subst, true, some, inl, IsPart, arith, replicate,
}
use xbslink_ng.Transport.{Write, got, new_connect, Transport, new_listen}
use xbslink_ng.Protocol.{min_ethernet_frame, max_frame_size}
use xbslink_ng.Bridge.{capture_frame, send_turn, recv_turn, Bridge, Event, new_bridge}
use xbslink_ng.Bridge.Run.{System, Reach, started, captured, sending, receiving, here, next}
use xbslink_ng.Bridge.Run.Trace.{frames_captured, frames_queued, writes, steps}
use xbslink_ng.Bridge.Run.Guarded.{run-IsGuarded}
use xbslink_ng.Protocol.Refused.{IsSigned}
use xbslink_ng.Protocol.Layout.{signed_part}
use xbslink_ng.Bridge.Run.Tunnel.ColdStart.{from_cold_start}
use xbslink_ng.Bridge.Run.Tunnel.{IsCarried}
use xbslink_ng.Transport.Handshake.{answered, arrives}
use xbslink_ng.Bridge.Begin.{Start, begin_run, up}
use xbslink_ng.Bridge.Begin.Pair.{begun, first_frame_arrives}
use xbslink_ng.Samples.{
  here as address, connector, listener, random_bytes, keyed-Linked, same_there, toy_mac, secret,
  whole_numbers, there, there_v6,
}

abbrev payload : List ℕ
payload = replicate 14 7

-- A connector and a listener that have not started yet.
abbrev calling : Bridge
calling = new_bridge connector

abbrev called : Bridge
called = new_bridge listener

sizes : (min_ethernet_frame ≤ length payload) × (length payload ≤ max_frame_size)
sizes = (omega arith, omega arith)

-- What passes between them: their transports, the HELLO, the HELLO_ACK and the first frame.
abbrev Meeting : Type 0
Meeting =
    (ta : Transport) × (tl : Transport) × (hello : List ℕ) × (ack : List ℕ) × (ea : List Event)
    × (el : List Event) × (m : List ℕ) × (begin_run toy_mac false calling []
          (answered random_bytes (arrives there_v6 ack ∷ []) ∷ [])
        ≡ (begun calling ta, (some there, hello) ∷ [], ea, up))
    × (begin_run toy_mac false called (arrives address hello ∷ []) []
        ≡ (begun called tl, (some address, ack) ∷ [], el, up))
    × ((send_turn toy_mac true (begun calling ta) payload).1 ≡ (ta.peer_addr, m) ∷ [])
    × (let (b, out, events) =
          recv_turn toy_mac whole_numbers 5 true (some address) (begun called tl) (got address m) in
        b.frames_to_inject ≡ payload ∷ [])
    × (ta.codec.send_nonce ≤ 1)

meeting : Meeting
unfolding new_connect new_listen new_bridge
meeting =
    first_frame_arrives toy_mac whole_numbers 5 true calling called random_bytes address there_v6
      payload refl refl refl refl keyed-Linked (omega arith) (omega arith) refl same_there sizes.0
      sizes.1

-- Both after their start.
abbrev caller : System
caller =
    started
      (begin_run toy_mac false calling []
        (answered random_bytes (arrives there_v6 meeting.3 ∷ []) ∷ [])).0
      true

abbrev answerer : System
answerer = started (begin_run toy_mac false called (arrives address meeting.2 ∷ []) []).0 true

caller_lem : caller.bridge ≡ begun calling meeting.0
caller_lem = ap (λ (x : Bridge × List Write × List Event × Start). x.0) meeting.7

first_queued : (capture_frame caller.bridge payload).frames_to_send ≡ payload ∷ []
unfolding capture_frame new_bridge
first_queued = ap (λ (b : Bridge). (capture_frame b payload).frames_to_send) caller_lem

abbrev first_sender : (s : System) × Reach toy_mac whole_numbers caller s
first_sender =
    (_, next (next here (captured payload refl)) (sending true payload [] refl first_queued))

abbrev first_receiver : (s : System) × Reach toy_mac whole_numbers answerer s
first_receiver = (_, next here (receiving 5 true (got address meeting.6) refl))

first_written :
    (send_turn toy_mac true
      (record (capture_frame caller.bridge payload) { frames_to_send = [] })
      payload).1
    ≡ (meeting.0.peer_addr, meeting.6) ∷ []
unfolding capture_frame new_bridge
first_written =
    ap
      (λ (b : Bridge).
        (send_turn toy_mac true (record (capture_frame b payload) { frames_to_send = [] })
          payload).1)
      caller_lem
    ∙ meeting.9

room : caller.bridge.transport.codec.send_nonce + steps (first_sender.1) + 1 < 2 ^ 64
room = rw caller_lem (omega (arith, meeting.11))

first-IsCarried : IsCarried toy_mac secret (writes (first_sender.1)) meeting.6
first-IsCarried =
    subst (λ (out : List Write). IsCarried toy_mac secret out meeting.6) (sym first_written)
      (inl (inl refl))

from_cold_start_example :
    IsPart (frames_queued (first_receiver.1)) (frames_captured (first_sender.1))
unfolding new_connect new_listen new_bridge
from_cold_start_example =
    from_cold_start toy_mac whole_numbers whole_numbers false false true true calling called []
      (arrives address meeting.2 ∷ [])
      (answered random_bytes (arrives there_v6 meeting.3 ∷ []) ∷ []) [] first_sender.0
      first_receiver.0 first_sender.1 first_receiver.1
      (ap (λ (x : Bridge × List Write × List Event × Start). x.3) meeting.7)
      (ap (λ (x : Bridge × List Write × List Event × Start). x.3) meeting.8) refl refl refl refl
      room (tt, first-IsCarried)

abbrev noise : List ℕ
noise = 1 ∷ []

noise_unsigned : ¬ IsSigned toy_mac secret noise
noise_unsigned (t, n, p, e) = omega (
  arith,
  ap length e,
  length-append (signed_part t n p) (toy_mac.sum secret (signed_part t n p)),
  toy_mac.length-sum secret (signed_part t n p),
)

run-IsGuarded_example :
    All (λ (w : Write). IsSigned toy_mac secret w.1) (writes (first_sender.1))
    × (recv_turn toy_mac whole_numbers 5 true first_sender.0.peer first_sender.0.bridge
          (got address noise)
        ≡ (first_sender.0.bridge, [], []))
unfolding new_connect new_listen new_bridge
run-IsGuarded_example =
    run-IsGuarded toy_mac whole_numbers false true calling []
      (answered random_bytes (arrives there_v6 meeting.3 ∷ []) ∷ []) first_sender.0 first_sender.1 5
      true address noise (ap (λ (x : Bridge × List Write × List Event × Start). x.3) meeting.7) refl
      refl (omega arith, tt) noise_unsigned
