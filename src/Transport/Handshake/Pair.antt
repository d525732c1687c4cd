-- ===== src/Transport/Handshake/Pair.antt =====
-- A connector and a listener that get connected.
use xbslink_ng.Base.{
  ◌≤◌, ℕ, ◌+◌, ◌^◌, ◌<◌, ◌≡◌, refl, ap, sym, ◌∙◌, true, not, some, List, [], ◌∷◌, arith, if_false,
  length,
}
use xbslink_ng.Protocol.{Mac, challenge_size, reset_recv_nonce}
use xbslink_ng.Protocol.RoundTrip.{Paired, Linked, after_sending-le}
use xbslink_ng.Net.{UdpAddr, addr_equal}
use xbslink_ng.Transport.{
  Transport, Mode, is_listen, listen, connect, success, wait_for_peer, connect_to_peer,
}
use xbslink_ng.Transport.Handshake.{
  arrives, answered, hello_sent, ack_sent, connector_codec, listener_codec, connect_succeeds,
  listen_succeeds,
}

-- A connector and a listener with the same key get connected by one HELLO and one HELLO_ACK,
-- whatever nonces they have sent or seen before (short of the wrap at 2^64): both are marked as
-- connected, the listener's peer is the address that the HELLO came from, and afterwards each end
-- accepts the other's messages, in both directions; the connector has counted at most one message.
pub handshake_connects :
    (mac : Mac) (a l : Transport) (random : List ℕ) (from to : UdpAddr)
    → a.mode ≡ connect
    → l.mode ≡ listen
    → Linked a.codec l.codec
    → a.codec.send_nonce + 2 < 2 ^ 64
    → l.codec.send_nonce + 2 < 2 ^ 64
    → length random ≡ challenge_size
    → addr_equal (some to) a.peer_addr ≡ true
    → (a' : Transport) × (l' : Transport) × (hello : List ℕ) × (ack : List ℕ) × (connect_to_peer mac
          a
          (answered random (arrives to ack ∷ []) ∷ [])
        ≡ (a', (a.peer_addr, hello) ∷ [], [], success))
      × (wait_for_peer mac l (arrives from hello ∷ []) ≡ (l', (some from, ack) ∷ [], success))
      × (a'.connected ≡ true)
      × (l'.connected ≡ true)
      × (l'.peer_addr ≡ some from)
      × Paired a'.codec l'.codec
      × Paired l'.codec a'.codec
      × (a'.closed ≡ a.closed)
      × (l'.closed ≡ l.closed)
      × (a'.peer_addr ≡ a.peer_addr)
      × (a'.codec.send_nonce ≤ a.codec.send_nonce + 1)
unfolding connect_to_peer wait_for_peer reset_recv_nonce
handshake_connects mac a l random from to am lm link ra rl size same = (
  record a { codec = connector_codec mac a l random; challenge = random; connected = true },
  record l {
    peer_addr = some from;
    challenge = random;
    codec = listener_codec mac a l random;
    connected = true;
  },
  hello_sent mac a l random,
  ack_sent mac a l random,
  if_false _ _ (ap is_listen am) ∙ connect_succeeds mac a l random to back size same,
  if_false _ _ (ap (λ (m : Mode). not (is_listen m)) lm)
      ∙ listen_succeeds mac a l random from link size,
  refl,
  refl,
  refl,
  ground arith,
  ground arith,
  refl,
  refl,
  refl,
  after_sending-le a.codec,
)
  where
    back : Linked l.codec a.codec
    back = record {
      same_key = sym link.same_key;
      same_mode = sym link.same_mode;
      unwrapped = omega arith;
    }
