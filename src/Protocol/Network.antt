-- ===== src/Protocol/Network.antt =====
-- A receiver behind a network that loses, repeats and reorders datagrams, and slips in others.
pub mod Delivery
use mathlib.Core.Path.{subst}
use native.Mathlib.Decide.{dec_lt}
use xbslink_ng.Base.{
  ℕ, zero, suc, ◌+◌, ◌^◌, ◌<◌, ◌≤◌, ◌≡◌, refl, ap, ap₂, sym, ◌∙◌, ◌⊎◌, inl, inr, Bool, true, false,
  List, [], ◌∷◌, arith, All, length, get_or, drop, IsPart, nil-IsPart, keep_at, if_true, if_false,
}
use xbslink_ng.Protocol.{
  Mac, Codec, Result, ok, err, Error, replay_detected, Message, is_handshake, decode,
  decode_message, parse_decoded,
}
use xbslink_ng.Protocol.RoundTrip.{decode-encode, after_receipt, after_sending, encode_codec}
use xbslink_ng.Protocol.Accept.Datagrams.{IsHandshake}
use xbslink_ng.Protocol.Replay.{decode_again, accepted_nonce}
use xbslink_ng.Protocol.Messages.{
  Outgoing, bye, IsSendable, type_of, payload_of, meaning, transmit_lem,
}
use xbslink_ng.Protocol.Messages.Decoded.{datagram, decode_message-datagram}
use xbslink_ng.Protocol.Stream.{send_stream, receive_stream, meaning-after_sending}

-- What reaches the receiver: the datagram of the i-th message sent, or one that nobody sent.
pub data Arrival : Type 0 where
  sent : ℕ → Arrival
  forged : List ℕ → Arrival

-- The codec with which the i-th message is sent.
abbrev pub at : Codec → ℕ → Codec
at s zero = s
at s (suc i) = at (after_sending s) i

abbrev pub all_arrive : List Outgoing → List (Outgoing × Bool)
all_arrive [] = []
all_arrive (o ∷ os) = (o, true) ∷ all_arrive os

abbrev pub oks : List (Result Message) → List Message
oks [] = []
oks (ok m ∷ rs) = m ∷ oks rs
oks (err e ∷ rs) = oks rs

pub at-lem :
    (s : Codec) (i : ℕ)
    → s.secure_mode ≡ true
    → s.send_nonce + i + 1 < 2 ^ 64
    → ((at s i).send_nonce ≡ s.send_nonce + i)
      × ((at s i).key ≡ s.key)
      × ((at s i).secure_mode ≡ true)
at-lem s zero secure room = (omega arith, refl, secure)
at-lem s (suc i) secure room = ground (arith, at-lem (after_sending s) i)

module _ (mac : Mac) where
  abbrev pub wire : Codec → List Outgoing → Arrival → List ℕ
  wire s os (sent i) = get_or (send_stream mac s (all_arrive os)) i []
  wire s os (forged d) = d

  abbrev pub wires : Codec → List Outgoing → List Arrival → List (List ℕ)
  wires s os [] = []
  wires s os (a ∷ later) = wire s os a ∷ wires s os later

  -- An index of a message, or a datagram that no codec with the key accepts.
  abbrev pub IsPossible : List ℕ → List Outgoing → Arrival → Type 0
  IsPossible key os (sent i) = i < length os
  IsPossible key os (forged d) =
      (x : Codec) → x.key ≡ key → x.secure_mode ≡ true → (e : Error) × (decode mac x d ≡ (x, err e))

  -- A message that carries a nonce that counts.
  abbrev pub IsCounted : Outgoing → Type 0
  IsCounted o = IsSendable o × (is_handshake (type_of o) ≡ false)

  pub wire_lem :
      (s : Codec) (os : List Outgoing) (i : ℕ)
      → All IsCounted os
      → i < length os
      → wire s os (sent i) ≡ datagram mac (at s i) (get_or os i bye)
  unfolding send_stream
  wire_lem s [] i h lt = absurd (omega arith)
  wire_lem s (o ∷ os) zero h lt = rw (transmit_lem mac s o h.0.0) refl
  wire_lem s (o ∷ os) (suc i) h lt =
      rw (transmit_lem mac s o h.0.0, encode_codec mac s)
        (wire_lem (after_sending s) os i h.1 (omega arith))

  -- What a receiver does with the next message of a codec, or with an old one.
  module _ (s r : Codec) (o : Outgoing) (key : s.key ≡ r.key) (ss : s.secure_mode ≡ true)
      (rs : r.secure_mode ≡ true) (room : s.send_nonce + 1 < 2 ^ 64) (h : IsCounted o) where
    abbrev moved : Codec
    moved = record r { recv_nonce = s.send_nonce + 1 }

    moved_lem :
        (x : Codec)
        → x.secure_mode ≡ true
        → after_receipt s x (type_of o) ≡ record x { recv_nonce = s.send_nonce + 1 }
    moved_lem x xs = if_true _ _ xs ∙ if_false _ _ h.1

    decoded :
        (x : Codec)
        → x.key ≡ r.key
        → x.secure_mode ≡ true
        → x.recv_nonce ≤ s.send_nonce
        → decode mac x (datagram mac s o)
          ≡ (record x { recv_nonce = s.send_nonce + 1 }, ok (type_of o, payload_of mac s o))
    decoded x k xs le =
        decode-encode mac s x (type_of o) (payload_of mac s o)
          (record { same_key = key ∙ sym k; same_mode = ss ∙ sym xs; unwrapped = room; fresh = le })
        ∙ ap (λ (c : Codec). (c, ok (type_of o, payload_of mac s o))) (moved_lem x xs)

    pub taken :
        r.recv_nonce ≤ s.send_nonce
        → decode_message mac r (datagram mac s o) ≡ (moved, ok (meaning mac s o))
    taken le = decode_message-datagram mac s r moved o h.0 (decoded r refl rs le)

    not-IsHandshake : ¬ IsHandshake (type_of o)
    not-IsHandshake = ground (arith, h.1)

    pub refused :
        s.send_nonce + 1 ≤ r.recv_nonce
        → decode_message mac r (datagram mac s o) ≡ (r, err replay_detected)
    unfolding decode_message parse_decoded
    refused le =
        let fresh : Codec = record r { recv_nonce = 0 } in
        let d = decoded fresh refl rs (omega arith) in
        let n = (accepted_nonce mac fresh _ (datagram mac s o) _ _ rs d not-IsHandshake).0 in
        ap (λ (x : Codec × Result (ℕ × List ℕ)). (x.0, parse_decoded x.1))
          (decode_again mac fresh _ r (datagram mac s o) _ _ rs d not-IsHandshake (omega (arith, n))
            refl rs (omega (arith, n, le)))

  pub meaning-at : (s : Codec) (i : ℕ) (o : Outgoing) → meaning mac (at s i) o ≡ meaning mac s o
  meaning-at s zero o = refl
  meaning-at s (suc i) o = meaning-at (after_sending s) i o ∙ meaning-after_sending mac s o

  -- What the receiver is to read of a list of messages.
  abbrev pub said : Codec → List Outgoing → List Message
  said s [] = []
  said s (o ∷ os) = meaning mac s o ∷ said s os

  pub All-at :
      (os : List Outgoing) (i : ℕ) → All IsCounted os → i < length os → IsCounted (get_or os i bye)
  All-at [] i h lt = absurd (omega arith)
  All-at (o ∷ os) zero h lt = h.0
  All-at (o ∷ os) (suc i) h lt = All-at os i h.1 (omega arith)

  -- The receiver has taken the message before the k-th, or nothing yet where `k` is 0.
  pub record Listens (s r : Codec) (k : ℕ) : Type 0 where
    pub same_key : s.key ≡ r.key
    pub secure : r.secure_mode ≡ true
    pub low : r.recv_nonce ≤ s.send_nonce + k
    pub high : (k ≡ 0) ⊎ (s.send_nonce + k ≤ r.recv_nonce)

  abbrev pub Delivers : Codec → List Outgoing → ℕ → List (Result Message) → Type 0
  Delivers s os k rs = (taken : List Outgoing) × IsPart taken (drop k os) × (oks rs ≡ said s taken)

  pub unread :
      (r : Codec) (d : List ℕ) (e : Error)
      → decode mac r d ≡ (r, err e)
      → decode_message mac r d ≡ (r, err e)
  unfolding decode_message parse_decoded
  unread r d e x = ap (λ (y : Codec × Result (ℕ × List ℕ)). (y.0, parse_decoded y.1)) x

  pub step_to :
      (s : Codec) (os : List Outgoing) (k : ℕ) (r r' : Codec) (d : List ℕ) (ds : List (List ℕ))
      (m : Result Message)
      → decode_message mac r d ≡ (r', m)
      → Delivers s os k (m ∷ receive_stream mac r' ds)
      → Delivers s os k (receive_stream mac r (d ∷ ds))
  unfolding receive_stream
  step_to s os k r r' d ds m e =
      subst (λ (x : Codec × Result Message). Delivers s os k (x.1 ∷ receive_stream mac x.0 ds))
        (sym e)
