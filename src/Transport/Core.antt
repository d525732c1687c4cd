-- ===== src/Transport/Core.antt =====
-- internal/transport/transport.go: the state of a transport, and what a turn of its loops meets.
use xbslink_ng.Base.{ℕ, Bool, true, false, Option, none, some, List, [], ◌∷◌, ◌++◌}
use xbslink_ng.Protocol.{Codec}
use xbslink_ng.Net.{UdpAddr}

pub data Mode : Type 0 where
  listen connect : Mode

-- The outcome of a read with a deadline.
pub data Read : Type 0 where
  timed_out failed : Read
  got : UdpAddr → List ℕ → Read

-- One turn of a loop: whether the deadline of the handshake has passed, whether the context is
-- cancelled, what the read gives, and whether a write succeeds.
pub record Round : Type 0 where
  pub expired : Bool
  pub cancelled : Bool
  pub read : Read
  pub write_ok : Bool

-- How an operation ends; `waiting` is no return: the rounds are used up.
pub data Exit : Type 0 where
  success wrong_mode context_cancelled read_error send_error : Exit
  hello_error challenge_invalid handshake_timeout waiting : Exit

pub data SendError : Type 0 where
  closed_error not_connected write_error : SendError

pub record Transport : Type 0 where
  pub peer_addr : Option UdpAddr
  pub mode : Mode
  pub codec : Codec
  pub challenge : List ℕ
  pub connected : Bool
  pub closed : Bool

-- A datagram handed to `WriteToUDP`.
abbrev pub Write : Type 0
Write = Option UdpAddr × List ℕ

-- What a turn leads to: the state, the writes, and the return if there is one.
abbrev pub Turn : Type 0
Turn = Transport × List Write × Option Exit

-- The loop goes on where the turn did not return.
abbrev pub after_turn :
    Turn → (Transport → Transport × List Write × Exit) → Transport × List Write × Exit
after_turn (t, out, some e) rest = (t, out, e)
after_turn (t, out, none) rest = let (t', later, e) = rest t in (t', out ++ later, e)

-- Delays in seconds.
abbrev pub connect_backoff : List ℕ
connect_backoff = 1 ∷ 2 ∷ 5 ∷ 10 ∷ []

abbrev pub is_listen : Mode → Bool
is_listen listen = true
is_listen connect = false

-- `New`, on a socket that is bound.
unfoldable pub new_listen : Codec → Transport
new_listen c = record {
  peer_addr = none;
  mode = listen;
  codec = c;
  challenge = [];
  connected = false;
  closed = false;
}

unfoldable pub new_connect : Codec → UdpAddr → Transport
new_connect c peer = record {
  peer_addr = some peer;
  mode = connect;
  codec = c;
  challenge = [];
  connected = false;
  closed = false;
}
