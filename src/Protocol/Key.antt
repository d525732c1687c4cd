-- ===== src/Protocol/Key.antt =====
-- internal/protocol/protocol.go: no call changes the key or the mode of a codec.
use xbslink_ng.Base.{
  ℕ, ◌+◌, ◌≡◌, refl, ap, ◌∙◌, Bool, true, false, List, ltb, if◌then◌else◌, length, ◌-◌, get_or,
  slice, take, drop, uint_be, arith,
}
use xbslink_ng.Protocol.{
  nonce_size, hmac_size, min_header_size, Mac, Codec, next_nonce, encode_secure, encode_plain,
  encode, check_message, decode_secure, decode, decode_message,
}

abbrev pub SameKey : Codec → Codec → Type 0
SameKey c d = (d.key ≡ c.key) × (d.secure_mode ≡ c.secure_mode)

pub trans-SameKey : (c d e : Codec) → SameKey c d → SameKey d e → SameKey c e
trans-SameKey c d e p q = (q.0 ∙ p.0, q.1 ∙ p.1)

-- All that a receipt changes is the nonce of the last message.
abbrev pub Hears : Codec → Codec → Type 0
Hears c d = d ≡ record c { recv_nonce = d.recv_nonce }

if-Hears :
    {A : Type 0} (c : Codec) (b : Bool) (x y : Codec × A)
    → Hears c x.0
    → Hears c y.0
    → Hears c (if b then x else y).0
if-Hears c true x y p q = p
if-Hears c false x y p q = q

module _ (mac : Mac) where
  pub encode-SameKey : (c : Codec) (t : ℕ) (payload : List ℕ) → SameKey c (encode mac c t payload).0
  unfolding encode encode_secure encode_plain next_nonce
  encode-SameKey c t payload = ground arith

  check_message-Hears :
      (c : Codec) (t nonce : ℕ) (payload signed sig : List ℕ)
      → Hears c (check_message mac c t nonce payload signed sig).0
  unfolding check_message
  check_message-Hears c t nonce payload signed sig = ground arith

  decode_secure-Hears : (c : Codec) (bytes : List ℕ) → Hears c (decode_secure mac c bytes).0
  unfolding decode_secure
  decode_secure-Hears c bytes =
      if-Hears c (ltb (length bytes) (1 + nonce_size + hmac_size)) _ _ refl (
        check_message-Hears c (get_or bytes 0 0) (uint_be 0 (slice 1 9 bytes))
          (slice 9 (length bytes - hmac_size) bytes) (take (length bytes - hmac_size) bytes)
          (drop (length bytes - hmac_size) bytes))

  pub decode_message-Hears : (c : Codec) (bytes : List ℕ) → Hears c (decode_message mac c bytes).0
  unfolding decode_message decode
  decode_message-Hears c bytes =
      if-Hears c (ltb (length bytes) min_header_size) _ _ refl
        (if-Hears c c.secure_mode _ _ (decode_secure-Hears c bytes) refl)

  pub decode_message-SameKey :
      (c : Codec) (bytes : List ℕ) → SameKey c (decode_message mac c bytes).0
  decode_message-SameKey c bytes =
      let h = decode_message-Hears c bytes in
      (ap (λ (d : Codec). d.key) h, ap (λ (d : Codec). d.secure_mode) h)
