-- ===== src/Protocol/RoundTrip.antt =====
-- What one end encodes the other decodes.
use xbslink_ng.Base.{
  ℕ, ◌+◌, ◌^◌, ◌<◌, ◌≤◌, ◌≡◌, refl, ap, sym, ◌∙◌, true, false, List, ◌∷◌, arith, if◌then◌else◌, inl,
  inr, Bool-cases, if_true, if_false,
}
use native.Mathlib.Nat.{mod-eq_of_lt}
use xbslink_ng.Protocol.{Mac, Codec, ok, is_handshake, encode, decode}
use xbslink_ng.Protocol.Layout.{sent_nonce, encode_secure_layout, encode_plain_layout}
use xbslink_ng.Protocol.Accept.{decode-framed}
use xbslink_ng.Protocol.Accept.Datagrams.{Admits, IsHandshake, authentic, ok_check}

-- The sender `s` and the receiver `r` share the key, and the next message of `s` is new to `r`; the
-- counter of `s` is short of its wrap at 2^64.
pub record Paired (s r : Codec) : Type 0 where
  pub same_key : s.key ≡ r.key
  pub same_mode : s.secure_mode ≡ r.secure_mode
  pub unwrapped : s.send_nonce + 1 < 2 ^ 64
  pub fresh : r.recv_nonce ≤ s.send_nonce

-- The receiver after it has accepted the next message of the sender.
abbrev pub after_receipt : Codec → Codec → ℕ → Codec
after_receipt s r t =
    if r.secure_mode
    then (if is_handshake t then r else record r { recv_nonce = s.send_nonce + 1 })
    else r

Paired-Admits :
    (s r : Codec) (t : ℕ)
    → Paired s r
    → r.secure_mode ≡ true
    → Admits r t (sent_nonce s) (after_receipt s r t)
Paired-Admits s r t p secure = ground (arith, mod-eq_of_lt p.unwrapped)

decode_plain :
    (mac : Mac) (r : Codec) (t : ℕ) (payload : List ℕ)
    → r.secure_mode ≡ false
    → decode mac r (t ∷ payload) ≡ (r, ok (t, payload))
unfolding decode
decode_plain mac r t payload plain = ground arith

-- `decode` inverts `encode`, and moves the receiver's counter on.
pub decode-encode :
    (mac : Mac) (s r : Codec) (t : ℕ) (payload : List ℕ)
    → Paired s r
    → decode mac r (encode mac s t payload).1 ≡ (after_receipt s r t, ok (t, payload))
decode-encode mac s r t payload p = elim (Bool-cases r.secure_mode) [
  | inl secure ↦
      ap (λ (e : Codec × List ℕ). decode mac r e.1)
        (encode_secure_layout mac s t payload (p.same_mode ∙ secure))
      ∙ ap (λ (k : List ℕ). decode mac r (authentic mac k t (sent_nonce s) payload)) p.same_key
      ∙ decode-framed mac r t (sent_nonce s) payload _ secure (omega arith) (mac.length-sum _ _)
      ∙ ok_check mac r (after_receipt s r t) t (sent_nonce s) payload (Paired-Admits s r t p secure)
  | inr plain ↦
      ap (λ (e : Codec × List ℕ). decode mac r e.1)
        (encode_plain_layout mac s t payload (p.same_mode ∙ plain))
      ∙ decode_plain mac r t payload plain
      ∙ ap (λ (x : Codec). (x, ok (t, payload))) (sym (if_false _ _ plain))
]

-- What two ends need for a handshake, whatever nonces the receiver has seen.
pub record Linked (s r : Codec) : Type 0 where
  pub same_key : s.key ≡ r.key
  pub same_mode : s.secure_mode ≡ r.secure_mode
  pub unwrapped : s.send_nonce + 1 < 2 ^ 64

-- HELLO and HELLO_ACK are accepted whatever nonces the receiver has seen, and leave it as it is.
pub decode-encode_handshake :
    (mac : Mac) (s r : Codec) (t : ℕ) (payload : List ℕ)
    → Linked s r
    → IsHandshake t
    → decode mac r (encode mac s t payload).1 ≡ (r, ok (t, payload))
decode-encode_handshake mac s r t payload p hs = elim (Bool-cases r.secure_mode) [
  | inl secure ↦
      ap (λ (e : Codec × List ℕ). decode mac r e.1)
        (encode_secure_layout mac s t payload (p.same_mode ∙ secure))
      ∙ ap (λ (k : List ℕ). decode mac r (authentic mac k t (sent_nonce s) payload)) p.same_key
      ∙ decode-framed mac r t (sent_nonce s) payload _ secure (omega arith) (mac.length-sum _ _)
      ∙ ok_check mac r r t (sent_nonce s) payload (inl (hs, refl))
  | inr plain ↦
      ap (λ (e : Codec × List ℕ). decode mac r e.1)
        (encode_plain_layout mac s t payload (p.same_mode ∙ plain))
      ∙ decode_plain mac r t payload plain
]

-- The sender after one message.
abbrev pub after_sending : Codec → Codec
after_sending s = if s.secure_mode then record s { send_nonce = sent_nonce s } else s

pub after_sending-le : (s : Codec) → (after_sending s).send_nonce ≤ s.send_nonce + 1
after_sending-le s = ground arith

pub encode_codec :
    (mac : Mac) (s : Codec) (t : ℕ) (payload : List ℕ)
    → (encode mac s t payload).0 ≡ after_sending s
encode_codec mac s t payload = elim (Bool-cases s.secure_mode) [
  | inl secure ↦
      ap (λ (e : Codec × List ℕ). e.0) (encode_secure_layout mac s t payload secure)
      ∙ sym (if_true _ _ secure)
  | inr plain ↦
      ap (λ (e : Codec × List ℕ). e.0) (encode_plain_layout mac s t payload plain)
      ∙ sym (if_false _ _ plain)
]

-- Both ends stay paired, whether the message is lost or arrives.
pub after_sending-Paired :
    (s r : Codec) → Paired s r → s.send_nonce + 2 < 2 ^ 64 → Paired (after_sending s) r
after_sending-Paired s r p room = ground (arith, mod-eq_of_lt p.unwrapped)

pub after_receipt-Paired :
    (s r : Codec) (t : ℕ)
    → Paired s r
    → s.send_nonce + 2 < 2 ^ 64
    → Paired (after_sending s) (after_receipt s r t)
after_receipt-Paired s r t p room = ground (arith, mod-eq_of_lt p.unwrapped)
