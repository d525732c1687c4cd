-- ===== src/Bridge/Run/Tests.antt =====
-- Concrete runs, and the theorems on the life of a bridge at them.
use xbslink_ng.Base.{◌<◌, ◌≤◌, ◌≡◌, ◌⊎◌, refl, true, false}
use xbslink_ng.Transport.{new_connect}
use xbslink_ng.Bridge.{disconnected, Bridge}
use xbslink_ng.Bridge.Run.{
  Loop, System, Reach, waiting, returned, peer_disconnected, shut_down, started, close_done,
  say_bye, cancel, pinging, shutting_down, closing, here, next,
}
use xbslink_ng.Bridge.Ping.{tick}
use xbslink_ng.Bridge.Run.Disconnect.{returned_cancelled, done_closed_once}
use xbslink_ng.Bridge.Run.Shutdown.{from_waiting, cancelled_returns, bye_at_shutdown}
use xbslink_ng.Samples.{
  toy_mac, keyed, keyed-Paired, whole_numbers, there, there_v6, same_there, up_bridge,
  up_bridge-IsUp,
}

abbrev fresh : System
fresh = started (up_bridge there) true

abbrev interrupted : System
interrupted = record fresh { cancelled = true }

-- `Run` on its way out after an interrupt.
abbrev closed_down : System
closed_down = record interrupted {
  bridge = close_done (say_bye true toy_mac (up_bridge there));
  phase = waiting shut_down;
}

to_closed_down : Reach toy_mac whole_numbers fresh closed_down
to_closed_down = next (next (next here cancel) (shutting_down true refl refl refl)) (closing refl)

abbrev a_return :
    (u : System) × Reach toy_mac whole_numbers fresh u × (u.phase ≡ returned shut_down)
a_return = from_waiting fresh closed_down shut_down refl refl to_closed_down

returned_cancelled_example :
    (a_return.0.cancelled ≡ true)
    × (a_return.0.bridge.transport.closed ≡ true)
    × (a_return.0.bridge.state ≡ disconnected)
    × (0 < a_return.0.bridge.done_closes)
    × ((l : Loop) → a_return.0.live l ≡ false)
returned_cancelled_example =
    returned_cancelled (up_bridge there) true shut_down refl refl a_return.1 a_return.2

-- The peer misses its pongs, and `done` is closed at the fourth tick; a fifth finds it closed.
abbrev five_ticks : Bridge
five_ticks = tick toy_mac 5 true (
    tick toy_mac 4 true
      (tick toy_mac 3 true (tick toy_mac 2 true (tick toy_mac 1 true (up_bridge there)))))

to_five_ticks : Reach toy_mac whole_numbers fresh (record fresh { bridge = five_ticks })
to_five_ticks =
    next
      (next
        (next (next (next here (pinging 1 true refl)) (pinging 2 true refl)) (pinging 3 true refl))
        (pinging 4 true refl))
      (pinging 5 true refl)

done_closed_once_example : five_ticks.done_closes ≤ 1
done_closed_once_example = done_closed_once (up_bridge there) true refl refl to_five_ticks refl

cancelled_returns_example :
    (t : System) × Reach toy_mac whole_numbers interrupted t
    × (((0 < interrupted.bridge.done_closes) × (t.phase ≡ returned peer_disconnected))
        ⊎ ((interrupted.bridge.done_closes ≡ 0) × (t.phase ≡ returned shut_down)))
cancelled_returns_example = cancelled_returns interrupted refl refl

bye_at_shutdown_example :
    (t : System) × Reach toy_mac whole_numbers interrupted t × (t.bridge.done_closes ≡ 2)
unfolding new_connect
bye_at_shutdown_example =
    bye_at_shutdown interrupted there there_v6 keyed refl refl refl refl (up_bridge-IsUp there) refl
      refl same_there keyed-Paired
