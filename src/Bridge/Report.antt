-- ===== src/Bridge/Report.antt =====
-- internal/bridge/bridge.go: the statistics for the terminal. Two verbs of the package fmt are
-- arguments: %.1f of a quotient of float64, and %v of a rounded duration.
pub mod Number
mod Tests
use xbslink_ng.Base.{
  ℕ, ◌+◌, ◌*◌, ◌/◌, ◌%◌, List, [], ◌∷◌, ◌++◌, ltb, leb, if◌then◌else◌, codes, decimal, padded,
}
use xbslink_ng.Bridge.{State, disconnected, connecting, connected}
use xbslink_ng.Bridge.Rtt.{Stats}
use xbslink_ng.Events.{StatsData}

-- `State.String`.
unfoldable pub state_string : State → List ℕ
state_string disconnected = codes "DISCONNECTED"
state_string connecting = codes "CONNECTING"
state_string connected = codes "CONNECTED"

unfoldable pub format_number : ℕ → List ℕ
format_number n =
    if ltb n 1_000
    then decimal n
    else if ltb n 1_000_000
    then decimal (n / 1_000) ++ (b',' ∷ padded 3 (n % 1_000))
    else decimal (n / 1_000_000)
      ++ (b',' ∷ padded 3 (n / 1_000 % 1_000) ++ (b',' ∷ padded 3 (n % 1_000)))

-- The verbs that are arguments: a quotient with one decimal, and a duration.
pub record Verbs : Type 0 where
  pub one_decimal : ℕ → ℕ → List ℕ
  pub rounded : ℕ → List ℕ

abbrev pub kb : ℕ
kb = 1_024

abbrev pub mb : ℕ
mb = 1_024 * kb

abbrev pub gb : ℕ
gb = 1_024 * mb

unfoldable pub format_bytes : Verbs → ℕ → List ℕ
format_bytes v b =
    if leb gb b
    then v.one_decimal b gb ++ codes " GB"
    else if leb mb b
    then v.one_decimal b mb ++ codes " MB"
    else if leb kb b
    then decimal (b / kb) ++ codes " KB"
    else decimal b ++ codes " B"

-- The message that `printStats` logs.
unfoldable pub stats_line : Verbs → Stats → List ℕ
stats_line v s =
    codes "TX: "
    ++ format_number s.tx_packets
    ++ codes " pkts ("
    ++ format_bytes v s.tx_bytes
    ++ codes ") | RX: "
    ++ format_number s.rx_packets
    ++ codes " pkts ("
    ++ format_bytes v s.rx_bytes
    ++ codes ") | RTT: "
    ++ v.rounded s.rtt_current

-- The line and the event; `ms` is the number of milliseconds in a duration, a float64.
unfoldable pub print_stats : {F : Type 0} → Verbs → (ℕ → F) → Stats → List ℕ × StatsData F
print_stats v ms s = (
  stats_line v s,
  record {
    tx_packets = s.tx_packets;
    tx_bytes = s.tx_bytes;
    rx_packets = s.rx_packets;
    rx_bytes = s.rx_bytes;
    rtt_current_ms = ms s.rtt_current;
    rtt_avg_ms = ms s.rtt_avg;
  },
)
