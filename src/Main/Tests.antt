-- ===== src/Main/Tests.antt =====
-- A peer that is lost, and the end of the loop.
use xbslink_ng.Base.{◌<◌, arith, ◌≡◌, refl, true, false, [], ◌∷◌}
use xbslink_ng.Transport.{connect}
use xbslink_ng.Bridge.{Bridge}
use xbslink_ng.Bridge.Run.{
  System, Reach, started, returned, waiting, peer_disconnected, close_transport, cancel, pinging,
  disconnecting, here, next,
}
use xbslink_ng.Bridge.Run.Shutdown.{from_waiting}
use xbslink_ng.Bridge.Ping.{tick, silent_peer}
use xbslink_ng.Main.{Connection, peer_lost, reconnect_loop}
use xbslink_ng.Main.Reconnect.{IsReturned, IsOnce, reconnect_loop-IsOnce}
use xbslink_ng.Samples.{keyed, toy_mac, whole_numbers, there, up_bridge}

-- A running bridge, and the same after four ticks without an answer.
abbrev fresh : System
fresh = started (up_bridge there) true

abbrev given_up : Bridge
given_up =
    tick toy_mac 4 true
      (tick toy_mac 3 true (tick toy_mac 2 true (tick toy_mac 1 true (up_bridge there))))

-- `Run` waits for its goroutines; then the user interrupts the program.
abbrev interrupted : System
interrupted = record fresh {
  bridge = close_transport given_up;
  cancelled = true;
  phase = waiting peer_disconnected;
}

done_closed : 0 < given_up.done_closes
done_closed = omega (
  arith,
  (silent_peer toy_mac (up_bridge there) 1 2 3 4 true true true true refl refl refl (omega arith)
      (omega arith) (omega arith)).3,
)

to_interrupted : Reach toy_mac whole_numbers fresh interrupted
unfolding close_transport
to_interrupted =
    next
      (next
        (next
          (next (next (next here (pinging 1 true refl)) (pinging 2 true refl))
            (pinging 3 true refl))
          (pinging 4 true refl))
        (disconnecting refl done_closed))
      cancel

abbrev a_return :
    (u : System) × Reach toy_mac whole_numbers fresh u × (u.phase ≡ returned peer_disconnected)
a_return = from_waiting fresh interrupted peer_disconnected refl refl to_interrupted

-- The connection of that run, and one that would come after it.
abbrev lost : Connection
lost = record {
  cancelled_before = false;
  transport_ok = true;
  bridge_ok = true;
  run = λ c. (record c { send_nonce = 9; recv_nonce = 5 }, peer_lost);
  cancelled_after = true;
  cancelled_in_delay = false;
}

lost-IsReturned : IsReturned toy_mac whole_numbers lost
lost-IsReturned c e =
    (up_bridge there, true, a_return.0, a_return.1, refl, refl, a_return.2, λ x. refl)

reconnect_loop-IsOnce_example : IsOnce (reconnect_loop connect keyed 0 (lost ∷ lost ∷ []))
reconnect_loop-IsOnce_example =
    reconnect_loop-IsOnce toy_mac whole_numbers connect keyed 0 (lost ∷ lost ∷ [])
      (lost-IsReturned, (lost-IsReturned, tt))
