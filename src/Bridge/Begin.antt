-- ===== src/Bridge/Begin.antt =====
-- internal/bridge/bridge.go: the first part of `Run`, up to the start of its goroutines.
pub mod Pair
pub mod Ends
mod Tests
use xbslink_ng.Base.{ℕ, Bool, List, ◌++◌, if◌then◌else◌}
use xbslink_ng.Protocol.{Mac}
use xbslink_ng.Transport.{
  Transport, Write, Round, Attempt, Exit, success, waiting, is_listen, wait_for_peer,
  connect_to_peer,
}
use xbslink_ng.Bridge.{Bridge, Event, connecting, connected, set_state}

-- How the first part of `Run` ends: the goroutines are started, or `Run` returns nil, or it returns
-- an error; `unfinished` is no end.
pub data Start : Type 0 where
  up stopped unfinished : Start
  connection_failed : Exit → Start

-- `Run` after `WaitForPeer` or `Connect`; `cancelled` is the context then.
unfoldable pub after_connecting :
    Bool
    → Bridge
    → List Event
    → Transport × List Write × Exit
    → Bridge × List Write × List Event × Start
unfolding set_state
after_connecting cancelled b events (t, out, success) =
    let (b', more) = set_state (record b { transport = t }) connected in
    (b', out, events ++ more, up)
after_connecting cancelled b events (t, out, waiting) =
    (record b { transport = t }, out, events, unfinished)
after_connecting cancelled b events (t, out, e) =
    (record b { transport = t }, out, events, if cancelled then stopped else connection_failed e)

-- The delays of `Connect` are left out.
abbrev pub without_delays : Transport × List Write × List ℕ × Exit → Transport × List Write × Exit
without_delays (t, out, delays, e) = (t, out, e)

unfoldable pub begin_run :
    Mac → Bool → Bridge → List Round → List Attempt → Bridge × List Write × List Event × Start
unfolding set_state
begin_run mac cancelled b rounds attempts =
    let (b', events) = set_state b connecting in
    let t = b.transport in
    after_connecting cancelled b' events (
      if is_listen t.mode
      then wait_for_peer mac t rounds
      else without_delays (connect_to_peer mac t attempts))
