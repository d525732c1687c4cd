-- ===== src/Transport/Session.antt =====
-- What a recorded session can do to a listener that waits for its next peer.
use xbslink_ng.Base.{ℕ, ◌≡◌, refl, ap, ◌∙◌, true, not, some, List, [], ◌∷◌, arith, length, if_false}
use xbslink_ng.Protocol.{Mac, Codec, ok, challenge_size, decode, reset_recv_nonce}
use xbslink_ng.Protocol.Accept.Datagrams.{IsHandshake}
use xbslink_ng.Protocol.Replay.{nonce_of, decode_again_from_zero}
use xbslink_ng.Protocol.RoundTrip.{Linked}
use xbslink_ng.Net.{UdpAddr}
use xbslink_ng.Transport.{Transport, Mode, is_listen, listen, success, wait_for_peer}
use xbslink_ng.Transport.Handshake.{arrives, hello_sent, ack_sent, listener_codec, listen_succeeds}

-- The nonces do not protect one session against a recording of another: a listener in secure mode
-- accepts a recorded HELLO of a key holder from any address, and afterwards accepts again every
-- message that any codec with the key has accepted before.
pub recorded_session_accepted :
    (mac : Mac) (a l : Transport) (random : List ℕ) (from : UdpAddr) (c c' : Codec) (d : List ℕ)
    (t : ℕ) (payload : List ℕ)
    → l.mode ≡ listen
    → Linked a.codec l.codec
    → length random ≡ challenge_size
    → l.codec.secure_mode ≡ true
    → c.secure_mode ≡ true
    → c.key ≡ l.codec.key
    → decode mac c d ≡ (c', ok (t, payload))
    → ¬ IsHandshake t
    → (l' : Transport) × (wait_for_peer mac l (arrives from (hello_sent mac a l random) ∷ [])
        ≡ (l', (some from, ack_sent mac a l random) ∷ [], success))
      × (l'.peer_addr ≡ some from)
      × (decode mac l'.codec d ≡ (record l'.codec { recv_nonce = nonce_of d }, ok (t, payload)))
unfolding wait_for_peer reset_recv_nonce
recorded_session_accepted mac a l random from c c' d t payload lm link size ls cs key h other = (
  record l {
    peer_addr = some from;
    challenge = random;
    codec = listener_codec mac a l random;
    connected = true;
  },
  if_false _ _ (ap (λ (m : Mode). not (is_listen m)) lm)
      ∙ listen_succeeds mac a l random from link size,
  refl,
  decode_again_from_zero mac c c' (listener_codec mac a l random) d t payload cs h other
      (ground (arith, key)) (ground (arith, ls)) (ground arith),
)
