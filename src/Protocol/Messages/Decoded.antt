-- ===== src/Protocol/Messages/Decoded.antt =====
-- What a receiver makes of the datagram of a message.
use xbslink_ng.Base.{sizes, ℕ, ◌≡◌, refl, ap, ◌∙◌, List, ◌∷◌, arith, length, take_all}
use xbslink_ng.Protocol.{
  Mac, Codec, Result, ok, Message, blank, msg_hello_ack, encode, decode, decode_message,
  parse_decoded, parse_payload,
}
use xbslink_ng.Protocol.RoundTrip.{
  Paired, after_receipt, after_sending, decode-encode, encode_codec,
}
use xbslink_ng.Protocol.Messages.{
  Outgoing, frame, hello, hello_ack, ping, pong, bye, IsSendable, type_of, stamp_bytes, transmit,
  response_to, meaning, payload_of, length-response_to, transmit_lem,
}

module _ (mac : Mac) where
  parse_ack :
      (r : List ℕ)
      → length r ≡ 32
      → parse_payload msg_hello_ack (0 ∷ 1 ∷ r)
        ≡ ok (record (blank msg_hello_ack) { version = 1; response = r })
  unfolding parse_payload
  parse_ack r e = ground (arith, take_all 32 r e)

  parse_payload_of :
      (c : Codec) (o : Outgoing)
      → IsSendable o
      → parse_payload (type_of o) (payload_of mac c o) ≡ ok (meaning mac c o)
  unfolding parse_payload
  parse_payload_of c (frame f) h = ground arith
  parse_payload_of c (hello random) h = ground (arith, take_all 16 random h)
  parse_payload_of c (hello_ack challenge) h =
      parse_ack (response_to mac c challenge) (length-response_to mac c challenge)
  parse_payload_of c (ping stamp) h = grind (sizes, stamp_bytes stamp h)
  parse_payload_of c (pong stamp) h = grind (sizes, stamp_bytes stamp h)
  parse_payload_of c bye h = refl

  transmit_codec :
      (c : Codec) (o : Outgoing) → IsSendable o → (transmit mac c o).0 ≡ after_sending c
  transmit_codec c o h =
      ap (λ (e : Codec × Result (List ℕ)). e.0) (transmit_lem mac c o h)
      ∙ encode_codec mac c (type_of o) (payload_of mac c o)

  -- The datagram that `transmit mac` makes.
  abbrev pub datagram : Codec → Outgoing → List ℕ
  datagram c o = (encode mac c (type_of o) (payload_of mac c o)).1

  -- `Decode` on a datagram that `decode` takes apart.
  pub decode_message-datagram :
      (s r r' : Codec) (o : Outgoing)
      → IsSendable o
      → decode mac r (datagram s o) ≡ (r', ok (type_of o, payload_of mac s o))
      → decode_message mac r (datagram s o) ≡ (r', ok (meaning mac s o))
  unfolding decode_message
  decode_message-datagram s r r' o h e =
      ap (λ (x : Codec × Result (ℕ × List ℕ)). (x.0, parse_decoded x.1)) e
      ∙ ap (λ (x : Result Message). (r', x)) (parse_payload_of s o h)

  -- Each message that the program may send is turned into a datagram that a paired receiver decodes
  -- to exactly that message; frames of 14 to 1514 bytes, 16-byte challenges and 64-bit timestamps
  -- are sendable.
  pub decode_message-transmit :
      (s r : Codec) (o : Outgoing)
      → Paired s r
      → IsSendable o
      → (m : List ℕ) × (transmit mac s o ≡ (after_sending s, ok m))
        × (decode_message mac r m ≡ (after_receipt s r (type_of o), ok (meaning mac s o)))
  unfolding decode_message
  decode_message-transmit s r o p h = (
    datagram s o,
    transmit_lem mac s o h
        ∙ ap (λ (c : Codec). (c, ok (datagram s o)))
            (encode_codec mac s (type_of o) (payload_of mac s o)),
    decode_message-datagram s r (after_receipt s r (type_of o)) o h
        (decode-encode mac s r (type_of o) (payload_of mac s o) p),
  )
