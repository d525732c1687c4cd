-- ===== src/Protocol/Voice.antt =====
-- internal/protocol/protocol.go: what a codec sends does not depend on what it has received.
use native.Mathlib.Nat.{zero-add, suc-add}
use xbslink_ng.Base.{ℕ, zero, suc, ◌+◌, ◌%◌, ◌^◌, ◌≡◌, refl, sym, ap, ap₂, ◌∙◌, true, List, arith}
use xbslink_ng.Protocol.{Mac, Codec, encode, decode_message}
use xbslink_ng.Protocol.Key.{decode_message-Hears}
use xbslink_ng.Protocol.Layout.{encode_secure_layout}
use xbslink_ng.Protocol.Accept.Datagrams.{authentic}
use xbslink_ng.Protocol.RoundTrip.{after_sending}
use xbslink_ng.Protocol.Messages.{
  Outgoing, frame, hello, hello_ack, ping, pong, bye, type_of, payload_of,
}
use xbslink_ng.Protocol.Messages.Decoded.{datagram}
use xbslink_ng.Protocol.Network.{at, IsCounted}

-- The part of a codec that decides what it sends.
pub record SameVoice (c d : Codec) : Type 0 where
  pub key : d.key ≡ c.key
  pub mode : d.secure_mode ≡ c.secure_mode
  pub nonce : d.send_nonce ≡ c.send_nonce

pub refl-SameVoice : (c : Codec) → SameVoice c c
refl-SameVoice c = record { key = refl; mode = refl; nonce = refl }

pub trans-SameVoice : (c d e : Codec) → SameVoice c d → SameVoice d e → SameVoice c e
trans-SameVoice c d e p q = record {
  key = q.key ∙ p.key;
  mode = q.mode ∙ p.mode;
  nonce = q.nonce ∙ p.nonce;
}

after_sending-SameVoice :
    (c d : Codec) → SameVoice c d → SameVoice (after_sending c) (after_sending d)
after_sending-SameVoice c d v = record {
  key = ground (arith, v.key);
  mode = ground (arith, v.mode);
  nonce = ground (arith, v.mode, v.nonce);
}

pub at-SameVoice : (c d : Codec) (n : ℕ) → SameVoice c d → SameVoice (at c n) (at d n)
at-SameVoice c d zero v = v
at-SameVoice c d (suc n) v =
    at-SameVoice (after_sending c) (after_sending d) n (after_sending-SameVoice c d v)

pub at-add : (c : Codec) (m n : ℕ) → at c (m + n) ≡ at (at c m) n
at-add c zero n = rw zero-add refl
at-add c (suc m) n = rw suc-add (at-add (after_sending c) m n)

module _ (mac : Mac) where
  same_payload :
      (c d : Codec) (o : Outgoing) → IsCounted mac o → payload_of mac d o ≡ payload_of mac c o
  same_payload c d (frame x) h = refl
  same_payload c d (hello x) h = absurd cc
  same_payload c d (hello_ack x) h = absurd cc
  same_payload c d (ping t) h = refl
  same_payload c d (pong t) h = refl
  same_payload c d bye h = refl

  encode-SameVoice :
      (c d : Codec) (t : ℕ) (payload : List ℕ)
      → c.secure_mode ≡ true
      → SameVoice c d
      → (encode mac d t payload).1 ≡ (encode mac c t payload).1
  encode-SameVoice c d t payload secure v =
      ap (λ (x : Codec × List ℕ). x.1) (encode_secure_layout mac d t payload (v.mode ∙ secure))
      ∙ ap₂ (λ (k : List ℕ) (n : ℕ). authentic mac k t ((n + 1) % 2 ^ 64) payload) v.key v.nonce
      ∙ sym (ap (λ (x : Codec × List ℕ). x.1) (encode_secure_layout mac c t payload secure))

  pub datagram-SameVoice :
      (c d : Codec) (o : Outgoing)
      → c.secure_mode ≡ true
      → IsCounted mac o
      → SameVoice c d
      → datagram mac d o ≡ datagram mac c o
  datagram-SameVoice c d o secure h v =
      ap (λ (p : List ℕ). (encode mac d (type_of o) p).1) (same_payload c d o h)
      ∙ encode-SameVoice c d (type_of o) (payload_of mac c o) secure v

  -- What a receipt changes is not heard in what is sent.
  pub receipt-SameVoice : (c : Codec) (bytes : List ℕ) → SameVoice c (decode_message mac c bytes).0
  receipt-SameVoice c bytes =
      let h = decode_message-Hears mac c bytes in
      record {
        key = ap (λ (d : Codec). d.key) h;
        mode = ap (λ (d : Codec). d.secure_mode) h;
        nonce = ap (λ (d : Codec). d.send_nonce) h;
      }
