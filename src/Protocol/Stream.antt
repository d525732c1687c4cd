-- ===== src/Protocol/Stream.antt =====
-- Streams of messages over a link that loses datagrams.
use xbslink_ng.Base.{
  ℕ, ◌+◌, ◌^◌, ◌<◌, ◌≡◌, refl, ap, ap₂, ◌∙◌, Bool, true, false, List, [], ◌∷◌, arith, All, length,
}
use xbslink_ng.Protocol.{Mac, Codec, Result, ok, Message, decode_message}
use xbslink_ng.Protocol.RoundTrip.{
  Paired, after_receipt, after_sending, after_sending-le, after_sending-Paired,
  after_receipt-Paired,
}
use xbslink_ng.Protocol.Messages.{
  Outgoing, frame, hello_ack, IsSendable, type_of, transmit, meaning,
}
use xbslink_ng.Protocol.Messages.Decoded.{decode_message-transmit}

abbrev keep : Bool → Result (List ℕ) → List (List ℕ) → List (List ℕ)
keep true (ok m) rest = m ∷ rest
keep _ _ rest = rest

module _ (mac : Mac) where
  -- The datagrams that arrive of the messages sent; `false` marks one that is lost on the way.
  unfoldable pub send_stream : Codec → List (Outgoing × Bool) → List (List ℕ)
  send_stream s [] = []
  send_stream s ((o, arrives) ∷ os) =
      let (s', m) = transmit mac s o in keep arrives m (send_stream s' os)

  unfoldable pub receive_stream : Codec → List (List ℕ) → List (Result Message)
  receive_stream r [] = []
  receive_stream r (d ∷ ds) = let (r', m) = decode_message mac r d in m ∷ receive_stream r' ds

  pub arrived : Codec → List (Outgoing × Bool) → List (Result Message)
  arrived s [] = []
  arrived s ((o, true) ∷ os) = ok (meaning mac s o) ∷ arrived s os
  arrived s ((o, false) ∷ os) = arrived s os

  pub meaning-after_sending :
      (s : Codec) (o : Outgoing) → meaning mac (after_sending s) o ≡ meaning mac s o
  meaning-after_sending s (frame f) = refl
  meaning-after_sending s (hello_ack challenge) = ground arith
  meaning-after_sending s _ = refl

  arrived-after_sending :
      (s : Codec) (os : List (Outgoing × Bool)) → arrived (after_sending s) os ≡ arrived s os
  unfolding arrived
  arrived-after_sending s [] = refl
  arrived-after_sending s ((o, true) ∷ os) =
      ap₂ (λ (m : Message) (l : List (Result Message)). ok m ∷ l) (meaning-after_sending s o)
        (arrived-after_sending s os)
  arrived-after_sending s ((o, false) ∷ os) = arrived-after_sending s os

  -- Between a sender and a receiver with the same key and mode, the receiver's last nonce not above the
  -- sender's: of a series of messages that the program may send (frames of 14 to 1514 bytes, challenges
  -- of 16 bytes, 64-bit times), however many datagrams are lost, the receiver decodes exactly those that
  -- arrive, in order and without an error, as long as the sender's counter does not reach 2^64.
  pub receive_stream-send_stream :
      (s r : Codec) (os : List (Outgoing × Bool))
      → Paired s r
      → s.send_nonce + length os + 1 < 2 ^ 64
      → All (λ p. IsSendable p.0) os
      → receive_stream r (send_stream s os) ≡ arrived s os
  unfolding send_stream receive_stream arrived
  receive_stream-send_stream s r [] p room h = refl
  receive_stream-send_stream s r ((o, true) ∷ os) p room h =
      let (m, sent, got) = decode_message-transmit mac s r o p h.0 in
      rw (sent, got)
        (ap (λ (l : List (Result Message)). ok (meaning mac s o) ∷ l)
          (receive_stream-send_stream (after_sending s) (after_receipt s r (type_of o)) os
              (after_receipt-Paired s r (type_of o) p (omega arith))
              (omega (arith, after_sending-le s)) h.1
            ∙ arrived-after_sending s os))
  receive_stream-send_stream s r ((o, false) ∷ os) p room h =
      let (m, sent, got) = decode_message-transmit mac s r o p h.0 in
      rw sent (
        receive_stream-send_stream (after_sending s) r os (after_sending-Paired s r p (omega arith))
          (omega (arith, after_sending-le s)) h.1
        ∙ arrived-after_sending s os)
