-- ===== src/Protocol/Tests.antt =====
-- Concrete messages, and the theorems on the codec at them.
use xbslink_ng.Protocol.Network.{Arrival, sent, forged, IsPossible, oks, wires, said}
use xbslink_ng.Protocol.Network.Delivery.{receive_stream-IsPart}
use xbslink_ng.Samples.{toy_mac, toy_sum, secret, keyed, keyed-Paired, first_ping, signed_ping}
use xbslink_ng.Base.{
  IsPart, ℕ, ◌^◌, ◌<◌, ◌≡◌, ◌↔◌, refl, Bool, true, false, List, [], ◌∷◌, ◌++◌, arith, replicate,
  copy_at, put_uint64,
}
use xbslink_ng.Protocol.{
  message_too_short, new_codec, next_nonce, compute_hmac, encode, decode, decode_secure,
  check_message, verify_hmac, ok, err, invalid_hmac, replay_detected, msg_ping, decode_message,
}
use xbslink_ng.Protocol.Accept.Datagrams.{Admits, authentic, decode_accepts}
use xbslink_ng.Protocol.Replay.{decode_all, decode_replay}
use xbslink_ng.Protocol.RoundTrip.{after_receipt, after_sending}
use xbslink_ng.Protocol.Messages.{frame, ping, bye, Outgoing, transmit, meaning}
use xbslink_ng.Protocol.Messages.Decoded.{decode_message-transmit}
use xbslink_ng.Protocol.Stream.{send_stream, receive_stream, arrived, receive_stream-send_stream}

new_codec-keyed : new_codec secret ≡ keyed
unfolding new_codec
new_codec-keyed = refl

encode_ping_test :
    encode toy_mac keyed msg_ping (0 ∷ 0 ∷ 0 ∷ 0 ∷ 0 ∷ 0 ∷ 1 ∷ 2 ∷ [])
    ≡ (record keyed { send_nonce = 1 }, signed_ping)
unfolding encode toy_sum copy_at put_uint64 compute_hmac next_nonce
encode_ping_test = refl

accepted_ping :
    decode toy_mac keyed signed_ping
    ≡ (record keyed { recv_nonce = 1 }, ok (msg_ping, 0 ∷ 0 ∷ 0 ∷ 0 ∷ 0 ∷ 0 ∷ 1 ∷ 2 ∷ []))
unfolding decode decode_secure check_message verify_hmac compute_hmac toy_sum
accepted_ping = refl

forged_ping : decode toy_mac keyed (first_ping ++ replicate 32 0) ≡ (keyed, err invalid_hmac)
unfolding decode decode_secure check_message verify_hmac compute_hmac toy_sum
forged_ping = refl

decode_accepts_example :
    (decode toy_mac keyed signed_ping
      ≡ (record keyed { recv_nonce = 1 }, ok (msg_ping, 0 ∷ 0 ∷ 0 ∷ 0 ∷ 0 ∷ 0 ∷ 1 ∷ 2 ∷ [])))
    ↔ ((nonce : ℕ) × (nonce < 2 ^ 64)
        × (signed_ping
            ≡ authentic toy_mac secret msg_ping nonce (0 ∷ 0 ∷ 0 ∷ 0 ∷ 0 ∷ 0 ∷ 1 ∷ 2 ∷ []))
        × Admits keyed msg_ping nonce (record keyed { recv_nonce = 1 }))
decode_accepts_example =
    decode_accepts toy_mac keyed (record keyed { recv_nonce = 1 }) signed_ping msg_ping
      (0 ∷ 0 ∷ 0 ∷ 0 ∷ 0 ∷ 0 ∷ 1 ∷ 2 ∷ []) refl (omega arith)

decode_replay_example :
    let later = decode_all toy_mac (record keyed { recv_nonce = 1 }) (signed_ping ∷ []) in
    decode toy_mac later signed_ping ≡ (later, err replay_detected)
decode_replay_example =
    decode_replay toy_mac keyed (record keyed { recv_nonce = 1 }) signed_ping msg_ping
      (0 ∷ 0 ∷ 0 ∷ 0 ∷ 0 ∷ 0 ∷ 1 ∷ 2 ∷ []) (signed_ping ∷ []) refl accepted_ping (ground arith)
      (omega arith) (omega arith)

decode_message-transmit_example :
    (m : List ℕ) × (transmit toy_mac keyed (ping 258) ≡ (after_sending keyed, ok m))
    × (decode_message toy_mac keyed m
        ≡ (after_receipt keyed keyed msg_ping, ok (meaning toy_mac keyed (ping 258))))
decode_message-transmit_example =
    decode_message-transmit toy_mac keyed keyed (ping 258) keyed-Paired (omega arith)

abbrev lossy : List (Outgoing × Bool)
lossy =
    (ping 258, true)
    ∷ (frame (replicate 60 9), false)
    ∷ (frame (replicate 14 5), true)
    ∷ (bye, true)
    ∷ []

receive_stream-send_stream_example :
    receive_stream toy_mac keyed (send_stream toy_mac keyed lossy) ≡ arrived toy_mac keyed lossy
receive_stream-send_stream_example =
    receive_stream-send_stream toy_mac keyed keyed lossy keyed-Paired (omega arith) (omega arith)

abbrev three : List Outgoing
three = ping 258 ∷ frame (replicate 14 5) ∷ bye ∷ []

-- The second message, a stray byte, the first, the second again, and the third.
abbrev mixed : List Arrival
mixed = sent 1 ∷ forged (7 ∷ []) ∷ sent 0 ∷ sent 1 ∷ sent 2 ∷ []

stray-IsPossible : IsPossible toy_mac secret three (forged (7 ∷ []))
unfolding decode decode_secure
stray-IsPossible x key secure = (message_too_short, rw secure refl)

receive_stream-IsPart_example :
    (taken : List Outgoing) × IsPart taken three
    × (oks (receive_stream toy_mac keyed (wires toy_mac keyed three mixed))
        ≡ said toy_mac keyed taken)
receive_stream-IsPart_example =
    receive_stream-IsPart toy_mac keyed keyed three mixed refl refl refl (omega arith) (omega arith)
      ((omega arith, refl), (((omega arith, omega arith), refl), ((tt, refl), tt)))
      (omega arith, (stray-IsPossible, (omega arith, (omega arith, (omega arith, tt)))))
