-- ===== src/Protocol/Messages.antt =====
-- Messages of every kind, from the method that sends them to `Decode`.
pub mod Decoded
use xbslink_ng.Base.{
  append-nil, ℕ, suc, ltb, ◌||◌, if_true, if_false, ◌+◌, ◌≤◌, ◌≡◌, refl, ap, sym, ◌∙◌, false, ◌&&◌,
  ◌==◌, List, [], ◌∷◌, arith, IsU64, if◌then◌else◌, inl, inr, Bool-cases, some, length, make, take,
  slice, copy_at, copy_at-append, overwrite-nil, put_uint16, put_uint64, length-put_uint64, uint_be,
  uint_be-put_uint64, take_all, length-replicate,
}
use xbslink_ng.Protocol.{
  Mac, Codec, Result, ok, err, Message, blank, msg_frame, msg_hello, msg_hello_ack, msg_ping,
  msg_pong, msg_bye, min_ethernet_frame, max_frame_size, challenge_size, encode, encode_frame,
  encode_hello, hello_ack_payload, compute_hmac, encode_hello_ack, encode_ping, encode_pong,
  encode_bye, decode, decode_message, parse_decoded, parse_payload,
}
use xbslink_ng.Protocol.RoundTrip.{
  Paired, after_receipt, after_sending, decode-encode, encode_codec,
}

-- A message that the program sends; `hello` holds the 16 random bytes, `hello_ack` the challenge.
pub data Outgoing : Type 0 where
  frame : List ℕ → Outgoing
  hello : List ℕ → Outgoing
  hello_ack : List ℕ → Outgoing
  ping : ℕ → Outgoing
  pong : ℕ → Outgoing
  bye : Outgoing

-- The bounds on its content.
abbrev pub IsSendable : Outgoing → Type 0
IsSendable (frame f) = (min_ethernet_frame ≤ length f) × (length f ≤ max_frame_size)
IsSendable (hello random) = length random ≡ challenge_size
IsSendable (hello_ack challenge) = Unit
IsSendable (ping stamp) = IsU64 stamp
IsSendable (pong stamp) = IsU64 stamp
IsSendable bye = Unit

abbrev pub type_of : Outgoing → ℕ
type_of (frame f) = msg_frame
type_of (hello random) = msg_hello
type_of (hello_ack challenge) = msg_hello_ack
type_of (ping stamp) = msg_ping
type_of (pong stamp) = msg_pong
type_of bye = msg_bye

abbrev wire_of : Codec × Result (List ℕ × List ℕ) → Codec × Result (List ℕ)
wire_of (c, ok (m, challenge)) = (c, ok m)
wire_of (c, err e) = (c, err e)

pub stamp_bytes : (stamp : ℕ) → IsU64 stamp → uint_be 0 (take 8 (put_uint64 stamp)) ≡ stamp
stamp_bytes stamp h =
    ap (uint_be 0) (take_all 8 (put_uint64 stamp) (length-put_uint64 stamp))
    ∙ uint_be-put_uint64 stamp h

module _ (mac : Mac) where
  -- The method of the codec that sends it.
  unfoldable pub transmit : Codec → Outgoing → Codec × Result (List ℕ)
  transmit c (frame f) = encode_frame mac c f
  transmit c (hello random) = wire_of (encode_hello mac c (some random))
  transmit c (hello_ack challenge) = let (c', m) = encode_hello_ack mac c challenge in (c', ok m)
  transmit c (ping stamp) = let (c', m) = encode_ping mac c stamp in (c', ok m)
  transmit c (pong stamp) = let (c', m) = encode_pong mac c stamp in (c', ok m)
  transmit c bye = let (c', m) = encode_bye mac c in (c', ok m)

  -- The HMAC of a 16-byte challenge in secure mode, and 32 zeros otherwise.
  abbrev pub response_to : Codec → List ℕ → List ℕ
  response_to c challenge =
      if c.secure_mode && length challenge == challenge_size
      then mac.sum c.key challenge
      else make 32

  -- What the receiver is to read.
  abbrev pub meaning : Codec → Outgoing → Message
  meaning c (frame f) = record (blank msg_frame) { frame = f }
  meaning c (hello random) = record (blank msg_hello) { version = 1; challenge = random }
  meaning c (hello_ack challenge) = record (blank msg_hello_ack) {
    version = 1;
    response = response_to c challenge;
  }
  meaning c (ping stamp) = record (blank msg_ping) { timestamp = stamp }
  meaning c (pong stamp) = record (blank msg_pong) { timestamp = stamp }
  meaning c bye = blank msg_bye

  abbrev pub payload_of : Codec → Outgoing → List ℕ
  payload_of c (frame f) = f
  payload_of c (hello random) = 0 ∷ 1 ∷ random
  payload_of c (hello_ack challenge) = 0 ∷ 1 ∷ response_to c challenge
  payload_of c (ping stamp) = put_uint64 stamp
  payload_of c (pong stamp) = put_uint64 stamp
  payload_of c bye = []

  abbrev pub sent : Codec → Outgoing → Codec × Result (List ℕ)
  sent c o = let (c', m) = encode mac c (type_of o) (payload_of c o) in (c', ok m)

  pub fill : (n : ℕ) (src : List ℕ) → length src ≡ n → copy_at (make n) 0 src ≡ src
  fill n src e =
      ap (λ (l : List ℕ). copy_at l 0 src) (sym (append-nil (make n)))
      ∙ copy_at-append [] (make n) [] src 0 refl (length-replicate n 0 ∙ sym e)
      ∙ append-nil src

  versioned :
      (n : ℕ) (x : List ℕ)
      → length x ≡ n
      → copy_at (copy_at (make (suc (suc n))) 0 (put_uint16 1)) 2 x ≡ 0 ∷ 1 ∷ x
  unfolding copy_at put_uint16
  versioned n x e =
      ap (λ (l : List ℕ). 0 ∷ 1 ∷ copy_at l 0 x) (overwrite-nil (make n))
      ∙ ap (λ (l : List ℕ). 0 ∷ 1 ∷ l) (fill n x e)

  unanswered : copy_at (make 34) 0 (put_uint16 1) ≡ 0 ∷ 1 ∷ make 32
  unfolding copy_at put_uint16
  unanswered = refl

  pub length-response_to : (c : Codec) (challenge : List ℕ) → length (response_to c challenge) ≡ 32
  length-response_to c challenge =
      elim (Bool-cases (c.secure_mode && length challenge == challenge_size)) [
        | inl e ↦ ap length (if_true _ _ e) ∙ mac.length-sum c.key challenge
        | inr e ↦ ap length (if_false _ _ e)
      ]

  hello_ack_payload_lem :
      (c : Codec) (challenge : List ℕ)
      → hello_ack_payload mac c challenge ≡ 0 ∷ 1 ∷ response_to c challenge
  unfolding hello_ack_payload compute_hmac
  hello_ack_payload_lem c challenge =
      elim (Bool-cases (c.secure_mode && length challenge == challenge_size)) [
        | inl e ↦
            if_true _ _ e
            ∙ versioned 32 (mac.sum c.key challenge) (mac.length-sum c.key challenge)
            ∙ ap (λ (l : List ℕ). 0 ∷ 1 ∷ l) (sym (if_true _ _ e))
        | inr e ↦
            if_false _ _ e ∙ unanswered ∙ ap (λ (l : List ℕ). 0 ∷ 1 ∷ l) (sym (if_false _ _ e))
      ]

  in_range :
      (f : List ℕ)
      → IsSendable (frame f)
      → ltb (length f) min_ethernet_frame || ltb max_frame_size (length f) ≡ false
  in_range f h = ground arith

  -- `EncodeHello` puts the random bytes into the HELLO and returns them as the challenge.
  pub encode_hello_lem :
      (c : Codec) (random : List ℕ)
      → length random ≡ challenge_size
      → encode_hello mac c (some random)
        ≡ (let (c', m) = encode mac c msg_hello (0 ∷ 1 ∷ random) in (c', ok (m, random)))
  unfolding encode_hello
  encode_hello_lem c random h =
      ap
        (λ (p : List ℕ).
          let (c', m) = encode mac c msg_hello p in (c', ok (m, slice 2 (2 + challenge_size) p)))
        (versioned 16 random h)
      ∙ ap
          (λ (x : List ℕ). let (c', m) = encode mac c msg_hello (0 ∷ 1 ∷ random) in (c', ok (m, x)))
          (take_all 16 random h)

  pub encode_hello_ack_lem :
      (c : Codec) (challenge : List ℕ)
      → encode_hello_ack mac c challenge
        ≡ encode mac c msg_hello_ack (payload_of c (hello_ack challenge))
  unfolding encode_hello_ack
  encode_hello_ack_lem c challenge =
      ap (encode mac c msg_hello_ack) (hello_ack_payload_lem c challenge)

  pub transmit_lem : (c : Codec) (o : Outgoing) → IsSendable o → transmit c o ≡ sent c o
  unfolding transmit encode_frame encode_hello encode_hello_ack encode_ping encode_pong encode_bye
  transmit_lem c (frame f) h = if_false _ _ (in_range f h)
  transmit_lem c (hello random) h =
      ap (λ (p : List ℕ). let (c', m) = encode mac c msg_hello p in (c', ok m))
        (versioned 16 random h)
  transmit_lem c (hello_ack challenge) h =
      ap (λ (p : List ℕ). let (c', m) = encode mac c msg_hello_ack p in (c', ok m))
        (hello_ack_payload_lem c challenge)
  transmit_lem c (ping stamp) h =
      ap (λ (p : List ℕ). let (c', m) = encode mac c msg_ping p in (c', ok m))
        (fill 8 (put_uint64 stamp) (length-put_uint64 stamp))
  transmit_lem c (pong stamp) h =
      ap (λ (p : List ℕ). let (c', m) = encode mac c msg_pong p in (c', ok m))
        (fill 8 (put_uint64 stamp) (length-put_uint64 stamp))
  transmit_lem c bye h = refl
