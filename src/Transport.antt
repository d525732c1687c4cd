-- ===== src/Transport.antt =====
-- internal/transport/transport.go: the UDP transport and its handshake. What the sockets, the clock and
-- the context answer comes in as `Round`s, one for each turn of a loop; a loop that has used up its
-- rounds answers `waiting`. The codec is the one that the program shares by pointer; log lines are
-- left out.
mod Core
pub mod Handshake
pub mod Connect
pub mod Session
pub mod Open
pub mod Life
pub mod Ends
pub mod Key
pub mod Fresh
mod Tests
use xbslink_ng.Base.{
  ℕ, ◌+◌, ◌-◌, ◌⊎◌, inl, inr, Bool, true, false, ◌&&◌, ◌||◌, not, Option, none, some, List, [], ◌∷◌,
  ◌++◌, ltb, leb, ◌==◌, if◌then◌else◌, length, get_or,
}
use xbslink_ng.Protocol.{
  Mac, Codec, Message, Result, ok, err, msg_hello, msg_hello_ack, is_secure, reset_recv_nonce,
  decode_message, encode_bye, encode_hello, encode_hello_ack, verify_challenge_response,
}
use xbslink_ng.Net.{UdpAddr, addr_equal}
unfoldable pub use Core.*

-- The delay before the retry after the attempt of that number.
unfoldable pub connect_delay : ℕ → ℕ
connect_delay attempt =
    get_or connect_backoff
      (if leb (length connect_backoff) attempt then length connect_backoff - 1 else attempt) 0

-- The delays and writes of the passes before it come first.
abbrev with_delay :
    List Write → ℕ → Transport × List Write × List ℕ × Exit → Transport × List Write × List ℕ × Exit
with_delay out delay (t, later, delays, e) = (t, out ++ later, delay ∷ delays, e)

-- A pass of the loop of `Connect` after its attempt: done, or a delay and the rest of the loop. An
-- attempt that has not ended leaves the loop waiting.
unfoldable pub after_attempt :
    ℕ
    → Bool
    → Transport × List Write × Exit
    → (Transport → Transport × List Write × List ℕ × Exit)
    → Transport × List Write × List ℕ × Exit
after_attempt attempt cancelled (t, out, success) rest = (t, out, [], success)
after_attempt attempt cancelled (t, out, waiting) rest = (t, out, [], waiting)
after_attempt attempt cancelled (t, out, e) rest =
    if cancelled
    then (t, out, connect_delay attempt ∷ [], context_cancelled)
    else with_delay out (connect_delay attempt)
        (rest (record t { codec = reset_recv_nonce t.codec }))

-- What one pass of the loop of `Connect` meets.
pub record Attempt : Type 0 where
  pub cancelled : Bool
  pub random : Option (List ℕ)
  pub write_ok : Bool
  pub rounds : List Round
  pub cancelled_in_delay : Bool

-- `Send`: the datagram that is written and the error.
unfoldable pub send : Transport → List ℕ → Bool → List Write × Option SendError
send t bytes write_ok =
    if t.closed
    then ([], some closed_error)
    else if not t.connected
    then ([], some not_connected)
    else ((t.peer_addr, bytes) ∷ [], if write_ok then none else some write_error)

-- `Recv`, on what the socket gives.
unfoldable pub recv : Transport → Read → Read ⊎ SendError
recv t r = if t.closed then inr closed_error else inl r

unfoldable pub close : Transport → Transport
close t = if t.closed then t else record t { closed = true; connected = false }

abbrev pub is_connected : Transport → Bool
is_connected t = t.connected

module _ (mac : Mac) where
  -- The part of `WaitForPeer` that a HELLO reaches.
  unfoldable pub accept_hello : Transport → UdpAddr → Bool → Message → Turn
  accept_hello t addr write_ok msg =
      let (c, ack) = encode_hello_ack mac (reset_recv_nonce t.codec) msg.challenge in
      let t' = record t { peer_addr = some addr; challenge = msg.challenge; codec = c } in
      if write_ok
      then (record t' { connected = true }, (some addr, ack) ∷ [], some success)
      else (t', (some addr, ack) ∷ [], some send_error)

  unfoldable pub on_first_message : Transport → UdpAddr → Bool → Result Message → Turn
  unfolding accept_hello
  on_first_message t addr write_ok (err e) = (t, [], none)
  on_first_message t addr write_ok (ok msg) =
      if not (msg.msg_type == msg_hello)
      then (let (c, bye) = encode_bye mac t.codec in
          (record t { codec = c }, (some addr, bye) ∷ [], none))
      else accept_hello t addr write_ok msg

  unfoldable pub on_listen_read : Transport → Bool → Read → Turn
  unfolding on_first_message
  on_listen_read t write_ok timed_out = (t, [], none)
  on_listen_read t write_ok failed = (t, [], some read_error)
  on_listen_read t write_ok (got addr bytes) =
      let (c, m) = decode_message mac t.codec bytes in
      on_first_message (record t { codec = c }) addr write_ok m

  -- One turn of the loop of `WaitForPeer`.
  unfoldable pub wait_turn : Transport → Round → Turn
  unfolding on_listen_read
  wait_turn t r =
      if r.cancelled then (t, [], some context_cancelled) else on_listen_read t r.write_ok r.read

  unfoldable pub wait_loop : Transport → List Round → Transport × List Write × Exit
  wait_loop t [] = (t, [], waiting)
  wait_loop t (r ∷ rs) = after_turn (wait_turn t r) (λ t'. wait_loop t' rs)

  unfoldable pub wait_for_peer : Transport → List Round → Transport × List Write × Exit
  wait_for_peer t rounds =
      if not (is_listen t.mode) then (t, [], wrong_mode) else wait_loop t rounds

  -- The part of `attemptHandshake` that a HELLO_ACK reaches.
  unfoldable pub accept_ack : Transport → Message → Turn
  accept_ack t msg =
      if is_secure t.codec && not (verify_challenge_response mac t.codec t.challenge msg.response)
      then (t, [], some challenge_invalid)
      else (record t { codec = reset_recv_nonce t.codec; connected = true }, [], some success)

  unfoldable pub on_reply : Transport → Result Message → Turn
  unfolding accept_ack
  on_reply t (err e) = (t, [], none)
  on_reply t (ok msg) =
      if not (msg.msg_type == msg_hello_ack) then (t, [], none) else accept_ack t msg

  unfoldable pub on_connect_read : Transport → Read → Turn
  unfolding on_reply
  on_connect_read t timed_out = (t, [], none)
  on_connect_read t failed = (t, [], some read_error)
  on_connect_read t (got addr bytes) =
      let (c, m) = decode_message mac t.codec bytes in
      if not (addr_equal (some addr) t.peer_addr)
      then (t, [], none)
      else on_reply (record t { codec = c }) m

  -- One turn of the loop of `attemptHandshake`.
  unfoldable pub ack_turn : Transport → Round → Turn
  unfolding on_connect_read
  ack_turn t r =
      if r.expired
      then (t, [], some handshake_timeout)
      else if r.cancelled
      then (t, [], some context_cancelled)
      else on_connect_read t r.read

  unfoldable pub ack_loop : Transport → List Round → Transport × List Write × Exit
  ack_loop t [] = (t, [], waiting)
  ack_loop t (r ∷ rs) = after_turn (ack_turn t r) (λ t'. ack_loop t' rs)

  -- `attemptHandshake` after `EncodeHello`.
  unfoldable pub after_hello :
      Transport
      → Bool
      → List Round
      → Codec × Result (List ℕ × List ℕ)
      → Transport × List Write × Exit
  after_hello t write_ok rounds (c, err e) = (record t { codec = c }, [], hello_error)
  after_hello t write_ok rounds (c, ok (hello, challenge)) =
      let t' = record t { codec = c; challenge = challenge } in
      if write_ok
      then after_turn (t', (t.peer_addr, hello) ∷ [], none) (λ t''. ack_loop t'' rounds)
      else (t', (t.peer_addr, hello) ∷ [], send_error)

  -- `attemptHandshake`, with the random bytes of its HELLO and the outcome of its write.
  unfoldable pub attempt_handshake :
      Transport → Option (List ℕ) → Bool → List Round → Transport × List Write × Exit
  unfolding after_hello
  attempt_handshake t random write_ok rounds =
      after_hello t write_ok rounds (encode_hello mac t.codec random)

  -- The loop of `Connect`: it ends with the first success or with the context.
  unfoldable pub connect_loop :
      Transport → ℕ → List Attempt → Transport × List Write × List ℕ × Exit
  connect_loop t attempt [] = (t, [], [], waiting)
  connect_loop t attempt (a ∷ later) =
      if a.cancelled
      then (t, [], [], context_cancelled)
      else after_attempt attempt a.cancelled_in_delay
          (attempt_handshake t a.random a.write_ok a.rounds)
          (λ t'. connect_loop t' (attempt + 1) later)

  unfoldable pub connect_to_peer : Transport → List Attempt → Transport × List Write × List ℕ × Exit
  connect_to_peer t attempts =
      if is_listen t.mode then (t, [], [], wrong_mode) else connect_loop t 0 attempts

  -- `SendBye`: nothing to do on a transport that is not connected or is closed.
  unfoldable pub send_bye : Transport → Bool → Transport × List Write × Option SendError
  send_bye t write_ok =
      let (c, bye) = encode_bye mac t.codec in
      if not t.connected || t.closed then (t, [], none) else (
        record t { codec = c },
        (t.peer_addr, bye) ∷ [],
        if write_ok then none else some write_error,
      )
