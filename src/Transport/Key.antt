-- ===== src/Transport/Key.antt =====
-- internal/transport/transport.go: the codec of a transport keeps its key and its mode.
use xbslink_ng.Base.{ℕ, ◌+◌, refl, ◌∙◌, Bool, Option, none, some, List, [], ◌∷◌, arith}
use xbslink_ng.Protocol.{
  Mac, Codec, Message, Result, ok, err, decode_message, encode_hello, encode_hello_ack, encode_bye,
  reset_recv_nonce,
}
use xbslink_ng.Protocol.Key.{SameKey, encode-SameKey, decode_message-SameKey, trans-SameKey}
use xbslink_ng.Net.{UdpAddr}
use xbslink_ng.Transport.{
  Transport, Write, Round, Read, timed_out, failed, got, Attempt, Turn, Exit, after_turn,
  accept_ack, on_reply, on_connect_read, ack_turn, ack_loop, after_hello, attempt_handshake,
  after_attempt, connect_loop, connect_to_peer, accept_hello, on_first_message, on_listen_read,
  wait_turn, wait_loop, wait_for_peer,
}

after_turn-SameKey :
    (c : Codec) (x : Turn) (rest : Transport → Transport × List Write × Exit)
    → SameKey c x.0.codec
    → ((t : Transport) → SameKey t.codec (rest t).0.codec)
    → SameKey c (after_turn x rest).0.codec
after_turn-SameKey c (t, out, some e) rest h k = h
after_turn-SameKey c (t, out, none) rest h k = trans-SameKey c t.codec (rest t).0.codec h (k t)

reset-SameKey : (c : Codec) → SameKey c (reset_recv_nonce c)
unfolding reset_recv_nonce
reset-SameKey c = (refl, refl)

module _ (mac : Mac) where
  encode_hello_ack-SameKey :
      (c : Codec) (challenge : List ℕ)
      → SameKey c (encode_hello_ack mac (reset_recv_nonce c) challenge).0
  unfolding encode_hello_ack reset_recv_nonce
  encode_hello_ack-SameKey c challenge = encode-SameKey mac (reset_recv_nonce c) _ _

  encode_bye-SameKey : (c : Codec) → SameKey c (encode_bye mac c).0
  unfolding encode_bye
  encode_bye-SameKey c = encode-SameKey mac c _ _

  encode_hello-SameKey :
      (c : Codec) (random : Option (List ℕ)) → SameKey c (encode_hello mac c random).0
  unfolding encode_hello
  encode_hello-SameKey c none = (refl, refl)
  encode_hello-SameKey c (some random) = encode-SameKey mac c _ _

  on_first_message-SameKey :
      (t : Transport) (addr : UdpAddr) (write_ok : Bool) (m : Result Message)
      → SameKey t.codec (on_first_message mac t addr write_ok m).0.codec
  unfolding on_first_message accept_hello
  on_first_message-SameKey t addr write_ok (err e) = (refl, refl)
  on_first_message-SameKey t addr write_ok (ok msg) =
      ground (arith, encode_bye-SameKey t.codec, encode_hello_ack-SameKey t.codec msg.challenge)

  on_listen_read-SameKey :
      (t : Transport) (write_ok : Bool) (r : Read)
      → SameKey t.codec (on_listen_read mac t write_ok r).0.codec
  unfolding on_listen_read
  on_listen_read-SameKey t write_ok timed_out = (refl, refl)
  on_listen_read-SameKey t write_ok failed = (refl, refl)
  on_listen_read-SameKey t write_ok (got addr bytes) =
      let d = decode_message mac t.codec bytes in
      let later = on_first_message-SameKey (record t { codec = d.0 }) addr write_ok d.1 in
      let first = decode_message-SameKey mac t.codec bytes in (later.0 ∙ first.0, later.1 ∙ first.1)

  wait_turn-SameKey : (t : Transport) (r : Round) → SameKey t.codec (wait_turn mac t r).0.codec
  unfolding wait_turn
  wait_turn-SameKey t r = ground (arith, on_listen_read-SameKey t r.write_ok r.read)

  wait_loop-SameKey :
      (rounds : List Round) (t : Transport) → SameKey t.codec (wait_loop mac t rounds).0.codec
  unfolding wait_loop
  wait_loop-SameKey [] t = (refl, refl)
  wait_loop-SameKey (r ∷ rs) t =
      after_turn-SameKey t.codec (wait_turn mac t r) (λ t'. wait_loop mac t' rs)
        (wait_turn-SameKey t r) (wait_loop-SameKey rs)

  pub wait_for_peer-SameKey :
      (t : Transport) (rounds : List Round) → SameKey t.codec (wait_for_peer mac t rounds).0.codec
  unfolding wait_for_peer
  wait_for_peer-SameKey t rounds = ground (arith, wait_loop-SameKey rounds t)

  on_reply-SameKey :
      (t : Transport) (m : Result Message) → SameKey t.codec (on_reply mac t m).0.codec
  unfolding on_reply accept_ack
  on_reply-SameKey t (err e) = (refl, refl)
  on_reply-SameKey t (ok msg) = ground (arith, reset-SameKey t.codec)

  on_connect_read-SameKey :
      (t : Transport) (r : Read) → SameKey t.codec (on_connect_read mac t r).0.codec
  unfolding on_connect_read
  on_connect_read-SameKey t timed_out = (refl, refl)
  on_connect_read-SameKey t failed = (refl, refl)
  on_connect_read-SameKey t (got addr bytes) =
      let d = decode_message mac t.codec bytes in
      let later = on_reply-SameKey (record t { codec = d.0 }) d.1 in
      let first = decode_message-SameKey mac t.codec bytes in
      let both : SameKey t.codec (on_reply mac (record t { codec = d.0 }) d.1).0.codec =
        (later.0 ∙ first.0, later.1 ∙ first.1) in
      ground (arith, both)

  ack_turn-SameKey : (t : Transport) (r : Round) → SameKey t.codec (ack_turn mac t r).0.codec
  unfolding ack_turn
  ack_turn-SameKey t r = ground (arith, on_connect_read-SameKey t r.read)

  ack_loop-SameKey :
      (rounds : List Round) (t : Transport) → SameKey t.codec (ack_loop mac t rounds).0.codec
  unfolding ack_loop
  ack_loop-SameKey [] t = (refl, refl)
  ack_loop-SameKey (r ∷ rs) t =
      after_turn-SameKey t.codec (ack_turn mac t r) (λ t'. ack_loop mac t' rs)
        (ack_turn-SameKey t r) (ack_loop-SameKey rs)

  after_hello-SameKey :
      (t : Transport) (write_ok : Bool) (rounds : List Round) (h : Codec × Result (List ℕ × List ℕ))
      → SameKey t.codec h.0
      → SameKey t.codec (after_hello mac t write_ok rounds h).0.codec
  unfolding after_hello
  after_hello-SameKey t write_ok rounds (c, err e) k = k
  after_hello-SameKey t write_ok rounds (c, ok (hello, challenge)) k =
      let later = ack_loop-SameKey rounds (record t { codec = c; challenge = challenge }) in
      let both : SameKey t.codec
          (ack_loop mac (record t { codec = c; challenge = challenge }) rounds).0.codec =
        (later.0 ∙ k.0, later.1 ∙ k.1) in
      ground (arith, both, k)

  attempt_handshake-SameKey :
      (t : Transport) (random : Option (List ℕ)) (write_ok : Bool) (rounds : List Round)
      → SameKey t.codec (attempt_handshake mac t random write_ok rounds).0.codec
  unfolding attempt_handshake
  attempt_handshake-SameKey t random write_ok rounds =
      after_hello-SameKey t write_ok rounds (encode_hello mac t.codec random)
        (encode_hello-SameKey t.codec random)

  after_attempt-SameKey :
      (c : Codec) (n : ℕ) (cancelled : Bool) (x : Transport × List Write × Exit)
      (rest : Transport → Transport × List Write × List ℕ × Exit)
      → SameKey c x.0.codec
      → ((t : Transport) → SameKey t.codec (rest t).0.codec)
      → SameKey c (after_attempt n cancelled x rest).0.codec
  unfolding after_attempt reset_recv_nonce
  after_attempt-SameKey c n cancelled (t, out, e) rest h k =
      let later = k (record t { codec = reset_recv_nonce t.codec }) in
      let both : SameKey c (rest (record t { codec = reset_recv_nonce t.codec })).0.codec =
        (later.0 ∙ h.0, later.1 ∙ h.1) in
      ground (arith, both, h)

  connect_loop-SameKey :
      (attempts : List Attempt) (n : ℕ) (t : Transport)
      → SameKey t.codec (connect_loop mac t n attempts).0.codec
  unfolding connect_loop
  connect_loop-SameKey [] n t = (refl, refl)
  connect_loop-SameKey (a ∷ later) n t = ground (
    arith,
    after_attempt-SameKey t.codec n a.cancelled_in_delay
        (attempt_handshake mac t a.random a.write_ok a.rounds)
        (λ t'. connect_loop mac t' (n + 1) later)
        (attempt_handshake-SameKey t a.random a.write_ok a.rounds)
        (connect_loop-SameKey later (n + 1)),
  )

  pub connect_to_peer-SameKey :
      (t : Transport) (attempts : List Attempt)
      → SameKey t.codec (connect_to_peer mac t attempts).0.codec
  unfolding connect_to_peer
  connect_to_peer-SameKey t attempts = ground (arith, connect_loop-SameKey attempts 0 t)
