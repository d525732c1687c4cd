-- ===== src/Transport/Open.antt =====
-- internal/transport/transport.go: `New`. The resolver and the sockets of the system are arguments: what
-- a text resolves to, and the local port of a socket that is bound to a port, 0 being any.
use xbslink_ng.Base.{ℕ, Option, none, some, List}
use xbslink_ng.Protocol.{Codec}
use xbslink_ng.Net.{UdpAddr}
use xbslink_ng.Transport.{Transport, Mode, listen, connect, new_listen, new_connect}

pub record Udp : Type 0 where
  pub resolve : List ℕ → Option UdpAddr
  pub listen_udp : ℕ → Option ℕ

pub data OpenError : Type 0 where
  not_bound not_resolved : OpenError

-- A transport with the local port of its socket.
pub data Opening : Type 0 where
  failure : OpenError → Opening
  open_on : ℕ → Transport → Opening

abbrev pub bound : Transport → Option ℕ → Opening
bound t none = failure not_bound
bound t (some port) = open_on port t

-- `New` with `setupListen`; the sizes of the buffers are only asked for.
unfoldable pub setup_listen : Udp → Codec → ℕ → Opening
unfolding new_listen
setup_listen u c port = bound (new_listen c) (u.listen_udp port)

abbrev pub towards : Udp → Codec → ℕ → Option UdpAddr → Opening
towards u c port none = failure not_resolved
towards u c port (some addr) = bound (new_connect c addr) (u.listen_udp port)

-- `New` with `setupConnect`: the address is resolved before the socket is bound.
unfoldable pub setup_connect : Udp → Codec → ℕ → List ℕ → Opening
setup_connect u c port peer = towards u c port (u.resolve peer)

unfoldable pub new_transport : Udp → Mode → Codec → ℕ → List ℕ → Opening
unfolding setup_listen setup_connect
new_transport u listen c port peer = setup_listen u c port
new_transport u connect c port peer = setup_connect u c port peer
