-- ===== src/Transport/Handshake.antt =====
-- The handshake between the two ends.
pub mod Pair
use xbslink_ng.Base.{
  ◌≤◌, ℕ, ◌+◌, ◌^◌, ◌<◌, ◌≡◌, refl, ap, sym, ◌∙◌, Bool, true, false, ◌&&◌, not, none, some, List,
  [], ◌∷◌, arith, inl, inr, if_false, length, equal_refl,
}
use xbslink_ng.Protocol.{
  Mac, Codec, ok, msg_hello, msg_hello_ack, challenge_size, encode_hello, decode_message,
  reset_recv_nonce, verify_challenge_response,
}
use xbslink_ng.Protocol.RoundTrip.{
  Paired, Linked, after_sending, after_sending-le, encode_codec, decode-encode_handshake,
}
use xbslink_ng.Protocol.Messages.{
  hello, hello_ack, payload_of, meaning, response_to, encode_hello_lem, encode_hello_ack_lem,
}
use xbslink_ng.Protocol.Messages.Decoded.{datagram, decode_message-datagram}
use xbslink_ng.Net.{UdpAddr, addr_equal}
use xbslink_ng.Transport.{
  Transport, Mode, is_listen, Round, Exit, Turn, Write, listen, connect, got, success, wait_turn,
  wait_loop, wait_for_peer, ack_turn, ack_loop, after_turn, after_hello, after_attempt,
  attempt_handshake, Attempt, connect_loop, connect_to_peer,
}

and_false : (b : Bool) → (b && false) ≡ false
and_false b = ground arith

-- A turn in which that datagram arrives and nothing fails.
abbrev pub arrives : UdpAddr → List ℕ → Round
arrives addr bytes = record {
  expired = false;
  cancelled = false;
  read = got addr bytes;
  write_ok = true;
}

-- An attempt with these random bytes in which nothing fails.
abbrev pub answered : List ℕ → List Round → Attempt
answered random rounds = record {
  cancelled = false;
  random = some random;
  write_ok = true;
  rounds = rounds;
  cancelled_in_delay = false;
}

-- `EncodeHello` at 16 random bytes.
pub hello_written :
    (mac : Mac) (a : Transport) (random : List ℕ)
    → length random ≡ challenge_size
    → encode_hello mac a.codec (some random)
      ≡ (after_sending a.codec, ok (datagram mac a.codec (hello random), random))
hello_written mac a random size =
    encode_hello_lem mac a.codec random size
    ∙ ap (λ (c : Codec). (c, ok (datagram mac a.codec (hello random), random)))
        (encode_codec mac a.codec msg_hello (payload_of mac a.codec (hello random)))

module _ (mac : Mac) (a l : Transport) (random : List ℕ) where
  -- The datagrams of the handshake, and the two codecs behind it.
  abbrev pub hello_sent : List ℕ
  hello_sent = datagram mac a.codec (hello random)

  abbrev pub ack_sent : List ℕ
  ack_sent = datagram mac (reset_recv_nonce l.codec) (hello_ack random)

  abbrev pub connector_codec : Codec
  connector_codec = reset_recv_nonce (after_sending a.codec)

  abbrev pub listener_codec : Codec
  listener_codec = after_sending (reset_recv_nonce l.codec)

  hello_received :
      Linked a.codec l.codec
      → length random ≡ challenge_size
      → decode_message mac l.codec hello_sent ≡ (l.codec, ok (meaning mac a.codec (hello random)))
  hello_received link size =
      decode_message-datagram mac a.codec l.codec l.codec (hello random) size
        (decode-encode_handshake mac a.codec l.codec msg_hello (0 ∷ 1 ∷ random) link (inl refl))

  -- The listener takes the HELLO and answers.
  listener_turn :
      (from : UdpAddr)
      → Linked a.codec l.codec
      → length random ≡ challenge_size
      → wait_turn mac l (arrives from hello_sent) ≡ (
        record l {
          peer_addr = some from;
          challenge = random;
          codec = listener_codec;
          connected = true;
        },
        (some from, ack_sent) ∷ [],
        some success,
      )
  unfolding wait_turn
  listener_turn from link size = rw (
    hello_received link size,
    encode_hello_ack_lem mac (reset_recv_nonce l.codec) random,
    encode_codec mac (reset_recv_nonce l.codec) msg_hello_ack
        (payload_of mac (reset_recv_nonce l.codec) (hello_ack random)),
  )

  -- The connector between its HELLO and the answer.
  abbrev pub waiting_connector : Transport
  waiting_connector = record a { codec = after_sending a.codec; challenge = random }

  reset_recv_nonce-Linked :
      Linked l.codec a.codec → Linked (reset_recv_nonce l.codec) (after_sending a.codec)
  unfolding reset_recv_nonce
  reset_recv_nonce-Linked link = ground arith

  ack_received :
      Linked l.codec a.codec
      → decode_message mac (after_sending a.codec) ack_sent
        ≡ (after_sending a.codec, ok (meaning mac (reset_recv_nonce l.codec) (hello_ack random)))
  ack_received link =
      decode_message-datagram mac (reset_recv_nonce l.codec) (after_sending a.codec)
        (after_sending a.codec) (hello_ack random) tt
        (decode-encode_handshake mac (reset_recv_nonce l.codec) (after_sending a.codec)
          msg_hello_ack _ (reset_recv_nonce-Linked link) (inr refl))

  challenge_met :
      Linked l.codec a.codec
      → length random ≡ challenge_size
      → verify_challenge_response mac
          (after_sending a.codec)
          random
          (response_to mac (reset_recv_nonce l.codec) random)
        ≡ true
  unfolding verify_challenge_response reset_recv_nonce
  challenge_met link size =
      ground (arith, mac.length-sum l.codec.key random, equal_refl (mac.sum l.codec.key random))

  -- The connector takes the answer from an address that is equal to its peer's.
  connector_turn :
      (to : UdpAddr)
      → Linked l.codec a.codec
      → length random ≡ challenge_size
      → addr_equal (some to) a.peer_addr ≡ true
      → ack_turn mac waiting_connector (arrives to ack_sent)
        ≡ (record waiting_connector { codec = connector_codec; connected = true }, [], some success)
  unfolding ack_turn
  connector_turn to link size same =
      rw (same, ack_received link, challenge_met link size) (if_false _ _ (and_false _))

  pub attempt_succeeds :
      (to : UdpAddr)
      → Linked l.codec a.codec
      → length random ≡ challenge_size
      → addr_equal (some to) a.peer_addr ≡ true
      → attempt_handshake mac a (some random) true (arrives to ack_sent ∷ []) ≡ (
        record waiting_connector { codec = connector_codec; connected = true },
        (a.peer_addr, hello_sent) ∷ [],
        success,
      )
  unfolding attempt_handshake ack_loop
  attempt_succeeds to link size same =
      ap (after_hello mac a true (arrives to ack_sent ∷ [])) (hello_written mac a random size)
      ∙ ap
          (λ (x : Turn).
            after_turn (waiting_connector, (a.peer_addr, hello_sent) ∷ [], none)
              (λ _. after_turn x (λ t. ack_loop mac t [])))
          (connector_turn to link size same)

  pub connect_succeeds :
      (to : UdpAddr)
      → Linked l.codec a.codec
      → length random ≡ challenge_size
      → addr_equal (some to) a.peer_addr ≡ true
      → connect_loop mac a 0 (answered random (arrives to ack_sent ∷ []) ∷ []) ≡ (
        record waiting_connector { codec = connector_codec; connected = true },
        (a.peer_addr, hello_sent) ∷ [],
        [],
        success,
      )
  unfolding connect_loop after_attempt
  connect_succeeds to link size same =
      ap
        (λ (x : Transport × List Write × Exit).
          after_attempt 0 false x (λ t. connect_loop mac t 1 []))
        (attempt_succeeds to link size same)

  pub listen_succeeds :
      (from : UdpAddr)
      → Linked a.codec l.codec
      → length random ≡ challenge_size
      → wait_loop mac l (arrives from hello_sent ∷ []) ≡ (
        record l {
          peer_addr = some from;
          challenge = random;
          codec = listener_codec;
          connected = true;
        },
        (some from, ack_sent) ∷ [],
        success,
      )
  unfolding wait_loop
  listen_succeeds from link size =
      ap (λ (x : Turn). after_turn x (λ t. wait_loop mac t [])) (listener_turn from link size)
