-- ===== src/Events.antt =====
-- internal/events: the events, and the writer of JSON lines (jsonline.go). An `Envelope` is written by
-- the encoder of encoding/json, which is an argument; floating-point numbers are of any type.
pub mod Lines
pub mod Async
pub mod Order
pub mod Close
pub mod Found
mod Tests
use xbslink_ng.Base.{
  ℕ, ◌+◌, ◌≢◌, ◌≡◌, Bool, if◌then◌else◌, Option, none, some, List, [], ◌∷◌, ◌++◌, All, codes,
}

-- `EventType`.
pub data EventType : Type 0 where
  event_state_changed event_stats event_latency event_discovery event_error : EventType

unfoldable pub type_string : EventType → List ℕ
type_string event_state_changed = codes "state_changed"
type_string event_stats = codes "stats"
type_string event_latency = codes "latency"
type_string event_discovery = codes "discovery"
type_string event_error = codes "error"

-- The payloads, with a text as its code points. An empty `peer_addr` is left out of the JSON.
pub record StateChangedData : Type 0 where
  pub state : List ℕ
  pub peer_addr : List ℕ

pub record StatsData (F : Type 0) : Type 0 where
  pub tx_packets : ℕ
  pub tx_bytes : ℕ
  pub rx_packets : ℕ
  pub rx_bytes : ℕ
  pub rtt_current_ms : F
  pub rtt_avg_ms : F

pub record LatencyData (F : Type 0) : Type 0 where
  pub rtt_ms : F
  pub is_spike : Bool
  pub exceeds_threshold : Bool

pub record DiscoveryData : Type 0 where
  pub mac : List ℕ

pub record ErrorData : Type 0 where
  pub message : List ℕ

-- The values that are emitted as `interface{}`.
pub data Data (F : Type 0) : Type 0 where
  state_changed_data : StateChangedData → Data F
  stats_data : StatsData F → Data F
  latency_data : LatencyData F → Data F
  discovery_data : DiscoveryData → Data F
  error_data : ErrorData → Data F

pub record Envelope (F : Type 0) : Type 0 where
  pub event_type : EventType
  pub timestamp : ℕ
  pub data_of : Data F

abbrev pub newline : ℕ
newline = b'\n'

-- encoding/json: the text of an envelope, or an error (NaN and the infinities have no text). A line
-- break within a string is escaped, and there is none between the parts.
pub record Json (F : Type 0) : Type 0 where
  pub text : Envelope F → Option (List ℕ)
  pub one_line :
      (e : Envelope F) (line : List ℕ) → text e ≡ some line → All (λ (c : ℕ). c ≢ newline) line

-- `JSONLineWriter`: the bytes handed to the underlying writer, which is closed where it is a closer.
pub record JsonLineWriter : Type 0 where
  pub bytes : List ℕ
  pub is_closer : Bool
  pub closes : ℕ

-- `NewJSONLineWriter`.
unfoldable pub new_json_line_writer : Bool → JsonLineWriter
new_json_line_writer is_closer = record { bytes = []; is_closer = is_closer; closes = 0 }

-- `Encoder.Encode`: the text and a line break; an error writes nothing and is dropped.
abbrev pub encoded : Option (List ℕ) → List ℕ
encoded none = []
encoded (some line) = line ++ (newline ∷ [])

module _ {F : Type 0} where
  -- `JSONLineWriter.Emit` at the time `now`, on a writer that takes all bytes: an encoder whose writer
  -- has refused some writes no more.
  unfoldable pub emit_line : Json F → ℕ → EventType → Data F → JsonLineWriter → JsonLineWriter
  emit_line json now t d w = record w {
    bytes =
        w.bytes ++ encoded (json.text (record { event_type = t; timestamp = now; data_of = d }));
  }

-- `JSONLineWriter.Close`.
unfoldable pub close_line_writer : JsonLineWriter → JsonLineWriter
close_line_writer w = if w.is_closer then record w { closes = w.closes + 1 } else w
