-- ===== src/Transport/Ends.antt =====
-- internal/transport/transport.go: the loops return.
use xbslink_ng.Base.{
  ℕ, ◌+◌, ◌≡◌, ◌≢◌, refl, ◌⊎◌, inl, inr, Bool, true, false, Option, none, some, List, [], ◌∷◌,
  arith, All, Any, if◌then◌else◌,
}
use xbslink_ng.Protocol.{
  Mac, Codec, Message, Result, ok, err, decode_message, encode_hello, reset_recv_nonce,
}
use xbslink_ng.Net.{UdpAddr}
use xbslink_ng.Transport.{
  Transport, Write, Round, Read, timed_out, failed, got, Attempt, Turn, Exit, waiting, after_turn,
  accept_ack, on_reply, on_connect_read, ack_turn, ack_loop, after_hello, attempt_handshake,
  after_attempt, connect_loop, connect_to_peer, accept_hello, on_first_message, on_listen_read,
  wait_turn, wait_loop, wait_for_peer, is_listen,
}

-- A round in which the context or the deadline ends the loop.
abbrev pub IsLast : Round → Type 0
IsLast r = (r.expired ≡ true) ⊎ (r.cancelled ≡ true)

-- An attempt that meets a cancelled context, before it or in the delay after it.
abbrev pub IsStop : Attempt → Type 0
IsStop a = (a.cancelled ≡ true) ⊎ (a.cancelled_in_delay ≡ true)

after_turn-ends :
    (x : Turn) (rest : Transport → Transport × List Write × Exit)
    → x.2 ≢ some waiting
    → (x.2 ≡ none → (t : Transport) → (rest t).2 ≢ waiting)
    → (after_turn x rest).2 ≢ waiting
after_turn-ends (t, out, some e) rest h k = ground (arith, h)
after_turn-ends (t, out, none) rest h k = k refl t

module _ (mac : Mac) where
  on_reply-ends : (t : Transport) (m : Result Message) → (on_reply mac t m).2 ≢ some waiting
  unfolding on_reply accept_ack
  on_reply-ends t (err e) = ground arith
  on_reply-ends t (ok msg) = ground arith

  on_connect_read-ends : (t : Transport) (r : Read) → (on_connect_read mac t r).2 ≢ some waiting
  unfolding on_connect_read
  on_connect_read-ends t timed_out = ground arith
  on_connect_read-ends t failed = ground arith
  on_connect_read-ends t (got addr bytes) = ground (
    arith,
    on_reply-ends (record t { codec = (decode_message mac t.codec bytes).0 })
        (decode_message mac t.codec bytes).1,
  )

  ack_turn-ends : (t : Transport) (r : Round) → (ack_turn mac t r).2 ≢ some waiting
  unfolding ack_turn
  ack_turn-ends t r = ground (arith, on_connect_read-ends t r.read)

  ack_turn_last : (t : Transport) (r : Round) → IsLast r → (ack_turn mac t r).2 ≢ none
  unfolding ack_turn
  ack_turn_last t r h = ground (arith, h)

  ack_loop-ends :
      (t : Transport) (rounds : List Round)
      → Any IsLast rounds
      → (ack_loop mac t rounds).2 ≢ waiting
  unfolding ack_loop
  ack_loop-ends t [] h = absurd h
  ack_loop-ends t (r ∷ rs) (inl last) =
      after_turn-ends (ack_turn mac t r) (λ t'. ack_loop mac t' rs) (ack_turn-ends t r)
        (λ e. absurd (ack_turn_last t r last e))
  ack_loop-ends t (r ∷ rs) (inr later) =
      after_turn-ends (ack_turn mac t r) (λ t'. ack_loop mac t' rs) (ack_turn-ends t r)
        (λ e t'. ack_loop-ends t' rs later)

  after_hello-ends :
      (t : Transport) (write_ok : Bool) (rounds : List Round) (h : Codec × Result (List ℕ × List ℕ))
      → Any IsLast rounds
      → (after_hello mac t write_ok rounds h).2 ≢ waiting
  unfolding after_hello
  after_hello-ends t write_ok rounds (c, err e) last = ground arith
  after_hello-ends t write_ok rounds (c, ok (hello, challenge)) last =
      ground (arith, ack_loop-ends (record t { codec = c; challenge = challenge }) rounds last)

  -- An attempt returns once its deadline has passed or its context is cancelled, whatever arrives.
  pub attempt_handshake-ends :
      (t : Transport) (random : Option (List ℕ)) (write_ok : Bool) (rounds : List Round)
      → Any IsLast rounds
      → (attempt_handshake mac t random write_ok rounds).2 ≢ waiting
  unfolding attempt_handshake
  attempt_handshake-ends t random write_ok rounds last =
      after_hello-ends t write_ok rounds (encode_hello mac t.codec random) last

  after_attempt-ends :
      (attempt : ℕ) (cancelled : Bool) (x : Transport × List Write × Exit)
      (rest : Transport → Transport × List Write × List ℕ × Exit)
      → x.2 ≢ waiting
      → (cancelled ≡ true) ⊎ ((t : Transport) → (rest t).3 ≢ waiting)
      → (after_attempt attempt cancelled x rest).3 ≢ waiting
  unfolding after_attempt
  after_attempt-ends attempt true (t, out, e) rest h k = ground (arith, h)
  after_attempt-ends attempt false (t, out, e) rest h (inl k) = cc k
  after_attempt-ends attempt false (t, out, e) rest h (inr k) =
      ground (arith, h, k (record t { codec = reset_recv_nonce t.codec }))

  if-ends :
      (b : Bool) (x y : Transport × List Write × List ℕ × Exit)
      → x.3 ≢ waiting
      → (b ≡ false → y.3 ≢ waiting)
      → (if b then x else y).3 ≢ waiting
  if-ends true x y h k = h
  if-ends false x y h k = k refl

  connect_loop-ends :
      (t : Transport) (n : ℕ) (attempts : List Attempt)
      → All (λ (a : Attempt). Any IsLast a.rounds) attempts
      → Any IsStop attempts
      → (connect_loop mac t n attempts).3 ≢ waiting
  unfolding connect_loop
  connect_loop-ends t n [] h stop = absurd stop
  connect_loop-ends t n (a ∷ later) h stop = if-ends a.cancelled _ _ (ground arith) (λ go.
      after_attempt-ends n a.cancelled_in_delay
        (attempt_handshake mac t a.random a.write_ok a.rounds)
        (λ t'. connect_loop mac t' (n + 1) later)
        (attempt_handshake-ends t a.random a.write_ok a.rounds h.0)
        (elim stop [
          | inl (inl before) ↦ cc (go, before)
          | inl (inr inside) ↦ inl inside
          | inr s ↦ inr (λ t'. connect_loop-ends t' (n + 1) later h.1 s)
        ]))

  -- `Connect` returns, whatever arrives, if each attempt meets its deadline or a cancelled context and
  -- the context is cancelled before an attempt or in the delay after one.
  pub connect_to_peer-ends :
      (t : Transport) (attempts : List Attempt)
      → All (λ (a : Attempt). Any IsLast a.rounds) attempts
      → Any IsStop attempts
      → (connect_to_peer mac t attempts).3 ≢ waiting
  unfolding connect_to_peer
  connect_to_peer-ends t attempts h stop =
      if-ends (is_listen t.mode) _ _ (ground arith) (λ c. connect_loop-ends t 0 attempts h stop)

  on_first_message-ends :
      (t : Transport) (addr : UdpAddr) (write_ok : Bool) (m : Result Message)
      → (on_first_message mac t addr write_ok m).2 ≢ some waiting
  unfolding on_first_message accept_hello
  on_first_message-ends t addr write_ok (err e) = ground arith
  on_first_message-ends t addr write_ok (ok msg) = ground arith

  on_listen_read-ends :
      (t : Transport) (write_ok : Bool) (r : Read)
      → (on_listen_read mac t write_ok r).2 ≢ some waiting
  unfolding on_listen_read
  on_listen_read-ends t write_ok timed_out = ground arith
  on_listen_read-ends t write_ok failed = ground arith
  on_listen_read-ends t write_ok (got addr bytes) =
      on_first_message-ends (record t { codec = (decode_message mac t.codec bytes).0 }) addr
        write_ok (decode_message mac t.codec bytes).1

  wait_loop-ends :
      (t : Transport) (rounds : List Round)
      → Any (λ (r : Round). r.cancelled ≡ true) rounds
      → (wait_loop mac t rounds).2 ≢ waiting
  unfolding wait_loop wait_turn
  wait_loop-ends t [] h = absurd h
  wait_loop-ends t (r ∷ rs) (inl stop) =
      after_turn-ends (wait_turn mac t r) (λ t'. wait_loop mac t' rs)
        (ground (arith, on_listen_read-ends t r.write_ok r.read)) (ground (arith, stop))
  wait_loop-ends t (r ∷ rs) (inr later) =
      after_turn-ends (wait_turn mac t r) (λ t'. wait_loop mac t' rs)
        (ground (arith, on_listen_read-ends t r.write_ok r.read))
        (λ e t'. wait_loop-ends t' rs later)

  -- `WaitForPeer` returns once its context is cancelled, whatever arrives.
  pub wait_for_peer-ends :
      (t : Transport) (rounds : List Round)
      → Any (λ (r : Round). r.cancelled ≡ true) rounds
      → (wait_for_peer mac t rounds).2 ≢ waiting
  unfolding wait_for_peer
  wait_for_peer-ends t rounds stop = ground (arith, wait_loop-ends t rounds stop)
