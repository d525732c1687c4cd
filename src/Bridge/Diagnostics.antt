-- ===== src/Bridge/Diagnostics.antt =====
-- internal/bridge/bridge.go: the events of a bridge as they are handed to its emitter. The text of an
-- address and the quotient of a duration by a millisecond are arguments.
pub mod Reported
mod Tests
use xbslink_ng.Base.{ℕ, Option, none, some, List, [], ◌∷◌, ◌++◌, codes, decimal}
use xbslink_ng.Net.{UdpAddr}
use xbslink_ng.Events.{
  EventType, event_state_changed, event_latency, event_error, StateChangedData, Data,
  state_changed_data, latency_data, error_data,
}
use xbslink_ng.Bridge.{Event, state_changed, latency, peer_lost}
use xbslink_ng.Bridge.Report.{state_string}

pub record Texts (F : Type 0) : Type 0 where
  pub address : UdpAddr → List ℕ
  pub milliseconds : ℕ → F

module _ {F : Type 0} (texts : Texts F) where
  unfoldable pub peer_text : Option UdpAddr → List ℕ
  peer_text none = []
  peer_text (some a) = texts.address a

  -- The message of `sendPing` when the peer is given up.
  unfoldable pub lost_message : ℕ → List ℕ
  lost_message missed = codes "peer unresponsive (missed " ++ decimal missed ++ codes " pongs)"

  -- The type and the payload with which `Emit` is called.
  unfoldable pub described : Event → EventType × Data F
  unfolding peer_text lost_message state_string
  described (state_changed s peer) = (
    event_state_changed,
    state_changed_data (record { state = state_string s; peer_addr = peer_text peer }),
  )
  described (latency rtt spike exceeds) = (
    event_latency,
    latency_data
        (record { rtt_ms = texts.milliseconds rtt; is_spike = spike; exceeds_threshold = exceeds }),
  )
  described (peer_lost missed) =
      (event_error, error_data (record { message = lost_message missed }))
