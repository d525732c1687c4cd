-- ===== src/Bridge/Core.antt =====
-- internal/bridge/bridge.go: the state that the goroutines of a bridge share, and its transitions.
use xbslink_ng.Base.{ℕ, ◌+◌, Bool, true, false, Option, none, List, [], ◌∷◌, if◌then◌else◌}
use xbslink_ng.Net.{UdpAddr}
use xbslink_ng.Transport.{Transport, Write}
use xbslink_ng.Bridge.Rtt.{Stats, no_stats}

pub data State : Type 0 where
  disconnected connecting connected : State

-- `latency` holds the RTT, whether it is a spike, and whether it exceeds the threshold; `peer_lost`
-- is the error event with the number of missed pongs.
pub data Event : Type 0 where
  state_changed : State → Option UdpAddr → Event
  latency : ℕ → Bool → Bool → Event
  peer_lost : ℕ → Event

abbrev pub max_missed_pongs : ℕ
max_missed_pongs = 3

-- 30 ms, in nanoseconds.
abbrev pub rtt_alert_threshold : ℕ
rtt_alert_threshold = 30_000_000

abbrev pub channel_buffer_size : ℕ
channel_buffer_size = 256

-- `done_closes` counts how often the channel `done` has been closed; a second close is a panic.
pub record Bridge : Type 0 where
  pub transport : Transport
  pub stats : Stats
  pub state : State
  pub frames_to_send : List (List ℕ)
  pub frames_to_inject : List (List ℕ)
  pub done_closes : ℕ
  pub done_once : Bool
  pub pending_ping : ℕ  -- int64
  pub missed_pongs : ℕ  -- int32

-- `New`, on a transport.
unfoldable pub new_bridge : Transport → Bridge
new_bridge t = record {
  transport = t;
  stats = no_stats;
  state = disconnected;
  frames_to_send = [];
  frames_to_inject = [];
  done_closes = 0;
  done_once = false;
  pending_ping = 0;
  missed_pongs = 0;
}

abbrev pub same_state : State → State → Bool
same_state disconnected disconnected = true
same_state connecting connecting = true
same_state connected connected = true
same_state _ _ = false

abbrev is_connected_state : State → Bool
is_connected_state connected = true
is_connected_state _ = false

-- A transition emits an event, which names the peer where the new state is `connected`.
unfoldable pub set_state : Bridge → State → Bridge × List Event
set_state b s =
    let peer = if is_connected_state s then b.transport.peer_addr else none in
    (record b { state = s }, if same_state b.state s then [] else state_changed s peer ∷ [])

-- `b.doneOnce.Do(func() { close(b.done) })`
unfoldable pub close_done_once : Bridge → Bridge
close_done_once b =
    if b.done_once then b else record b { done_once = true; done_closes = b.done_closes + 1 }

-- What a handler returns.
abbrev pub Effect : Type 0
Effect = Bridge × List Write × List Event
