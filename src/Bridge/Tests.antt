-- ===== src/Bridge/Tests.antt =====
-- Concrete bridges, and the theorems on them.
use xbslink_ng.Base.{
  offer, ℕ, ◌+◌, ◌*◌, ◌/◌, ◌<◌, ◌≤◌, ◌≡◌, ◌↔◌, refl, true, false, none, some, List, [], ◌∷◌, arith,
  length, replicate, sub64,
}
use xbslink_ng.Transport.{Transport, got, new_listen, new_connect}
use xbslink_ng.Bridge.{
  Bridge, Event, new_bridge, disconnected, connected, state_changed, peer_lost, send_ping,
  recv_turn, send_turn, start_ping, channel_buffer_size,
}
use xbslink_ng.Bridge.Rtt.{Stats, no_stats, max_samples, check_rtt_spike}
use xbslink_ng.Bridge.Rtt.Spike.{check_rtt_spike_iff}
use xbslink_ng.Bridge.Rtt.Window.{add_rtt_samples, latest, total, rtt_window}
use xbslink_ng.Bridge.Ping.{tick, silent_peer}
use xbslink_ng.Bridge.Forward.{foreign_ignored, ping_answered}
use xbslink_ng.Transport.Handshake.{arrives, answered}
use xbslink_ng.Bridge.Begin.{up, begin_run}
use xbslink_ng.Bridge.Begin.Pair.{begun, first_frame_arrives}
use xbslink_ng.Samples.{
  keyed-Linked, random_bytes, listener, connector, toy_mac, keyed-Paired, whole_numbers, here,
  there, there_v6, same_there, other_host, up_bridge, up_bridge-IsUp,
}

abbrev mine : Bridge
mine = up_bridge there

abbrev theirs : Bridge
theirs = up_bridge here

abbrev few_samples : Stats
few_samples = record no_stats { rtt_samples = 10 ∷ 16 ∷ []; rtt_current = 16; last_rtt = 10 }

check_rtt_spike_iff_example :
    ((check_rtt_spike whole_numbers few_samples).0 ≡ true)
    ↔ ((2 ≤ 2) × (0 < 10) × (3 * 10 < 2 * 16))
check_rtt_spike_iff_example =
    check_rtt_spike_iff whole_numbers few_samples (omega arith) (omega arith)

rtt_window_example :
    let s = add_rtt_samples no_stats (30 ∷ 40 ∷ 50 ∷ []) in
    let recent = latest max_samples (30 ∷ 40 ∷ 50 ∷ []) in
    (s.rtt_samples ≡ recent) × (s.rtt_avg ≡ total recent / length recent) × (s.rtt_avg ≤ 50)
rtt_window_example = rtt_window 50 (30 ∷ 40 ∷ 50 ∷ []) (omega arith) (omega arith) (ground arith)

silent_peer_example :
    let b3 = tick toy_mac 3 true (tick toy_mac 2 true (tick toy_mac 1 true mine)) in
    let gone = send_ping toy_mac 4 true b3 in
    (b3.state ≡ connected)
    × (b3.done_closes ≡ 0)
    × (gone.0.state ≡ disconnected)
    × (gone.0.done_closes ≡ 0 + 1)
    × (gone.1 ≡ [])
    × (gone.2 ≡ peer_lost 3 ∷ state_changed disconnected none ∷ [])
silent_peer_example =
    silent_peer toy_mac mine 1 2 3 4 true true true true refl refl refl (omega arith) (omega arith)
      (omega arith)

abbrev waiting_for : ℕ → Bridge
waiting_for stamp = record mine { pending_ping = stamp; missed_pongs = 2 }

abbrev stamp : ℕ
stamp = 7

stray_datagram :
    recv_turn toy_mac whole_numbers 0 true (some there) mine (got here (5 ∷ [])) ≡ (mine, [], [])
stray_datagram = foreign_ignored toy_mac whole_numbers 0 true mine there here (5 ∷ []) other_host

abbrev sample : List ℕ
sample = replicate 60 9

ping_answered_example :
    let pinged = start_ping toy_mac 100 true mine in
    (ping_bytes : List ℕ) × (pong_bytes : List ℕ) × (pinged.1 ≡ (some there, ping_bytes) ∷ [])
    × ((recv_turn toy_mac whole_numbers 120 true (some there) theirs (got there_v6 ping_bytes)).1
        ≡ (some here, pong_bytes) ∷ [])
    × (let (a', out, events) =
          recv_turn toy_mac whole_numbers 150 true
            (some there)
            pinged.0
            (got there_v6 pong_bytes) in
        (a'.pending_ping ≡ 0)
        × (a'.missed_pongs ≡ 0)
        × (a'.stats.rtt_current ≡ sub64 150 100)
        × (out ≡ []))
unfolding new_connect
ping_answered_example =
    ping_answered toy_mac whole_numbers 100 120 150 mine theirs there there there_v6 there_v6
      (up_bridge-IsUp there) (up_bridge-IsUp here) keyed-Paired keyed-Paired (omega arith)
      (omega arith) same_there same_there

first_frame_arrives_example :
    (ta : Transport) × (tl : Transport) × (hello : List ℕ) × (ack : List ℕ) × (ea : List Event)
    × (el : List Event) × (m : List ℕ) × (begin_run toy_mac false
          (new_bridge connector)
          []
          (answered random_bytes (arrives there_v6 ack ∷ []) ∷ [])
        ≡ (begun (new_bridge connector) ta, (some there, hello) ∷ [], ea, up))
    × (begin_run toy_mac false (new_bridge listener) (arrives here hello ∷ []) []
        ≡ (begun (new_bridge listener) tl, (some here, ack) ∷ [], el, up))
    × ((send_turn toy_mac true (begun (new_bridge connector) ta) sample).1 ≡ (ta.peer_addr, m) ∷ [])
    × ((recv_turn toy_mac whole_numbers 0 true
          (some here)
          (begun (new_bridge listener) tl)
          (got here m)).0.frames_to_inject
        ≡ offer channel_buffer_size [] sample)
    × (ta.codec.send_nonce ≤ 1)
unfolding new_bridge new_connect new_listen
first_frame_arrives_example =
    first_frame_arrives toy_mac whole_numbers 0 true (new_bridge connector) (new_bridge listener)
      random_bytes here there_v6 sample refl refl refl refl keyed-Linked (omega arith) (omega arith)
      refl same_there (omega arith) (omega arith)
