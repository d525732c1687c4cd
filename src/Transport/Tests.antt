-- ===== src/Transport/Tests.antt =====
-- Concrete handshakes, and the theorems on the transport at them.
use xbslink_ng.Base.{◌≤◌, ℕ, ◌≡◌, refl, true, false, some, List, [], ◌∷◌, arith, Any}
use xbslink_ng.Protocol.{decode, encode, ok, msg_ping, reset_recv_nonce}
use xbslink_ng.Protocol.RoundTrip.{Paired, after_receipt, decode-encode}
use xbslink_ng.Protocol.Replay.{nonce_of}
use xbslink_ng.Transport.{
  Transport, new_connect, new_listen, success, connect_to_peer, wait_for_peer,
}
use xbslink_ng.Transport.Handshake.{
  arrives, answered, hello_sent, ack_sent, waiting_connector, connector_codec, attempt_succeeds,
}
use xbslink_ng.Transport.Handshake.Pair.{handshake_connects}
use xbslink_ng.Transport.Connect.{IsAnswer}
use xbslink_ng.Transport.Connect.Attempt.{greeted, attempt_handshake_authentic}
use xbslink_ng.Transport.Session.{recorded_session_accepted}
use xbslink_ng.Samples.{
  toy_mac, keyed, keyed-Linked, here, there, there_v6, same_there, random_bytes, listener,
  connector, keyed-Paired,
}

handshake_connects_example :
    (a' : Transport) × (l' : Transport) × (hello : List ℕ) × (ack : List ℕ) × (connect_to_peer
        toy_mac connector
        (answered random_bytes (arrives there_v6 ack ∷ []) ∷ [])
      ≡ (a', (some there, hello) ∷ [], [], success))
    × (wait_for_peer toy_mac listener (arrives here hello ∷ [])
        ≡ (l', (some here, ack) ∷ [], success))
    × (a'.connected ≡ true)
    × (l'.connected ≡ true)
    × (l'.peer_addr ≡ some here)
    × Paired a'.codec l'.codec
    × Paired l'.codec a'.codec
    × (a'.closed ≡ false)
    × (l'.closed ≡ false)
    × (a'.peer_addr ≡ some there)
    × (a'.codec.send_nonce ≤ 1)
unfolding new_connect new_listen
handshake_connects_example =
    handshake_connects toy_mac connector listener random_bytes here there_v6 refl refl keyed-Linked
      (omega arith) (omega arith) refl same_there

abbrev ack : List ℕ
ack = ack_sent toy_mac connector listener random_bytes

abbrev joined : Transport
joined = record (waiting_connector toy_mac connector listener random_bytes) {
  codec = connector_codec toy_mac connector listener random_bytes;
  connected = true;
}

attempt_handshake_authentic_example :
    Any (IsAnswer toy_mac (greeted toy_mac connector random_bytes)) (arrives there_v6 ack ∷ [])
    × (joined.connected ≡ true)
    × (joined.codec.recv_nonce ≡ 0)
unfolding new_connect new_listen reset_recv_nonce
attempt_handshake_authentic_example =
    attempt_handshake_authentic toy_mac connector joined random_bytes true
      (arrives there_v6 ack ∷ [])
      ((some there, hello_sent toy_mac connector listener random_bytes) ∷ []) refl refl
      (attempt_succeeds toy_mac connector listener random_bytes there_v6 keyed-Linked refl
        same_there)

abbrev recorded : List ℕ
recorded = (encode toy_mac keyed msg_ping (7 ∷ 8 ∷ [])).1

recorded_session_accepted_example :
    (l' : Transport) × (wait_for_peer toy_mac listener
        (arrives here (hello_sent toy_mac connector listener random_bytes) ∷ [])
      ≡ (l', (some here, ack) ∷ [], success))
    × (l'.peer_addr ≡ some here)
    × (decode toy_mac l'.codec recorded
        ≡ (record (l'.codec) { recv_nonce = nonce_of recorded }, ok (msg_ping, 7 ∷ 8 ∷ [])))
unfolding new_connect new_listen
recorded_session_accepted_example =
    recorded_session_accepted toy_mac connector listener random_bytes here keyed
      (after_receipt keyed keyed msg_ping) recorded msg_ping (7 ∷ 8 ∷ []) refl keyed-Linked refl
      refl refl refl (decode-encode toy_mac keyed keyed msg_ping (7 ∷ 8 ∷ []) keyed-Paired)
      (ground arith)
