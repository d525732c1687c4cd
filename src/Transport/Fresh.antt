-- ===== src/Transport/Fresh.antt =====
-- internal/transport/transport.go: a transport that has come up remembers no nonce.
use xbslink_ng.Base.{ℕ, ◌+◌, ◌≡◌, ap, Bool, none, some, List, [], ◌∷◌, arith}
use xbslink_ng.Protocol.{
  Mac, Codec, Message, Result, ok, err, decode_message, encode_hello, encode_hello_ack,
  reset_recv_nonce,
}
use xbslink_ng.Protocol.Ear.{encode-SameEar}
use xbslink_ng.Net.{UdpAddr}
use xbslink_ng.Transport.{
  Transport, Write, Round, Read, timed_out, failed, got, Attempt, Turn, Exit, success, after_turn,
  accept_ack, on_reply, on_connect_read, ack_turn, ack_loop, after_hello, attempt_handshake,
  after_attempt, connect_loop, connect_to_peer, accept_hello, on_first_message, on_listen_read,
  wait_turn, wait_loop, wait_for_peer,
}

-- If it ends with success, the codec has no nonce received.
abbrev IsFresh : Exit → Codec → Type 0
IsFresh e c = e ≡ success → c.recv_nonce ≡ 0

abbrev IsFreshTurn : Turn → Type 0
IsFreshTurn x = x.2 ≡ some success → x.0.codec.recv_nonce ≡ 0

after_turn-IsFresh :
    (x : Turn) (rest : Transport → Transport × List Write × Exit)
    → IsFreshTurn x
    → ((t : Transport) → IsFresh (rest t).2 (rest t).0.codec)
    → IsFresh (after_turn x rest).2 (after_turn x rest).0.codec
after_turn-IsFresh (t, out, some e) rest h k = λ p. h (ap some p)
after_turn-IsFresh (t, out, none) rest h k = k t

module _ (mac : Mac) where
  encode_hello_ack_fresh :
      (c : Codec) (challenge : List ℕ)
      → (encode_hello_ack mac (reset_recv_nonce c) challenge).0.recv_nonce ≡ 0
  unfolding encode_hello_ack reset_recv_nonce
  encode_hello_ack_fresh c challenge = (encode-SameEar mac (reset_recv_nonce c) _ _).nonce

  on_first_message-IsFresh :
      (t : Transport) (addr : UdpAddr) (write_ok : Bool) (m : Result Message)
      → IsFreshTurn (on_first_message mac t addr write_ok m)
  unfolding on_first_message accept_hello
  on_first_message-IsFresh t addr write_ok (err e) = λ p. absurd cc
  on_first_message-IsFresh t addr write_ok (ok msg) =
      ground (arith, encode_hello_ack_fresh t.codec msg.challenge)

  on_listen_read-IsFresh :
      (t : Transport) (write_ok : Bool) (r : Read) → IsFreshTurn (on_listen_read mac t write_ok r)
  unfolding on_listen_read
  on_listen_read-IsFresh t write_ok timed_out = λ p. absurd cc
  on_listen_read-IsFresh t write_ok failed = λ p. absurd cc
  on_listen_read-IsFresh t write_ok (got addr bytes) =
      let d = decode_message mac t.codec bytes in
      on_first_message-IsFresh (record t { codec = d.0 }) addr write_ok d.1

  wait_turn-IsFresh : (t : Transport) (r : Round) → IsFreshTurn (wait_turn mac t r)
  unfolding wait_turn
  wait_turn-IsFresh t r = ground (arith, on_listen_read-IsFresh t r.write_ok r.read)

  wait_loop-IsFresh :
      (rounds : List Round) (t : Transport)
      → IsFresh (wait_loop mac t rounds).2 (wait_loop mac t rounds).0.codec
  unfolding wait_loop
  wait_loop-IsFresh [] t = λ p. absurd cc
  wait_loop-IsFresh (r ∷ rs) t =
      after_turn-IsFresh (wait_turn mac t r) (λ t'. wait_loop mac t' rs) (wait_turn-IsFresh t r)
        (wait_loop-IsFresh rs)

  -- `WaitForPeer` that connects, whatever has come in before.
  pub wait_for_peer-IsFresh :
      (t : Transport) (rounds : List Round)
      → (wait_for_peer mac t rounds).2 ≡ success
      → (wait_for_peer mac t rounds).0.codec.recv_nonce ≡ 0
  unfolding wait_for_peer
  wait_for_peer-IsFresh t rounds h = ground (arith, wait_loop-IsFresh rounds t)

  on_reply-IsFresh : (t : Transport) (m : Result Message) → IsFreshTurn (on_reply mac t m)
  unfolding on_reply accept_ack reset_recv_nonce
  on_reply-IsFresh t (err e) = λ p. absurd cc
  on_reply-IsFresh t (ok msg) = ground arith

  on_connect_read-IsFresh : (t : Transport) (r : Read) → IsFreshTurn (on_connect_read mac t r)
  unfolding on_connect_read
  on_connect_read-IsFresh t timed_out = λ p. absurd cc
  on_connect_read-IsFresh t failed = λ p. absurd cc
  on_connect_read-IsFresh t (got addr bytes) =
      let d = decode_message mac t.codec bytes in
      ground (arith, on_reply-IsFresh (record t { codec = d.0 }) d.1)

  ack_turn-IsFresh : (t : Transport) (r : Round) → IsFreshTurn (ack_turn mac t r)
  unfolding ack_turn
  ack_turn-IsFresh t r = ground (arith, on_connect_read-IsFresh t r.read)

  ack_loop-IsFresh :
      (rounds : List Round) (t : Transport)
      → IsFresh (ack_loop mac t rounds).2 (ack_loop mac t rounds).0.codec
  unfolding ack_loop
  ack_loop-IsFresh [] t = λ p. absurd cc
  ack_loop-IsFresh (r ∷ rs) t =
      after_turn-IsFresh (ack_turn mac t r) (λ t'. ack_loop mac t' rs) (ack_turn-IsFresh t r)
        (ack_loop-IsFresh rs)

  after_hello-IsFresh :
      (t : Transport) (write_ok : Bool) (rounds : List Round) (h : Codec × Result (List ℕ × List ℕ))
      → let (t', out, e) = after_hello mac t write_ok rounds h in IsFresh e t'.codec
  unfolding after_hello
  after_hello-IsFresh t write_ok rounds (c, err e) = λ p. absurd cc
  after_hello-IsFresh t write_ok rounds (c, ok (hello, challenge)) =
      ground (arith, ack_loop-IsFresh rounds (record t { codec = c; challenge = challenge }))

  after_attempt-IsFresh :
      (n : ℕ) (cancelled : Bool) (x : Transport × List Write × Exit)
      (rest : Transport → Transport × List Write × List ℕ × Exit)
      → IsFresh x.2 x.0.codec
      → ((t : Transport) → IsFresh (rest t).3 (rest t).0.codec)
      → let (t', out, delays, e) = after_attempt n cancelled x rest in IsFresh e t'.codec
  unfolding after_attempt
  after_attempt-IsFresh n cancelled (t, out, success) rest h k = h
  after_attempt-IsFresh n cancelled (t, out, e) rest h k =
      ground (arith, k (record t { codec = reset_recv_nonce t.codec }))

  connect_loop-IsFresh :
      (attempts : List Attempt) (n : ℕ) (t : Transport)
      → let (t', out, delays, e) = connect_loop mac t n attempts in IsFresh e t'.codec
  unfolding connect_loop attempt_handshake
  connect_loop-IsFresh [] n t = λ p. absurd cc
  connect_loop-IsFresh (a ∷ later) n t = ground (
    arith,
    after_attempt-IsFresh n a.cancelled_in_delay
        (attempt_handshake mac t a.random a.write_ok a.rounds)
        (λ t'. connect_loop mac t' (n + 1) later)
        (after_hello-IsFresh t a.write_ok a.rounds (encode_hello mac t.codec a.random))
        (connect_loop-IsFresh later (n + 1)),
  )

  -- `Connect` that connects, after however many attempts.
  pub connect_to_peer-IsFresh :
      (t : Transport) (attempts : List Attempt)
      → (let (t', out, delays, e) = connect_to_peer mac t attempts in e ≡ success)
      → (connect_to_peer mac t attempts).0.codec.recv_nonce ≡ 0
  unfolding connect_to_peer
  connect_to_peer-IsFresh t attempts h = ground (arith, connect_loop-IsFresh attempts 0 t)
