-- ===== src/Protocol/Ear.antt =====
-- internal/protocol/protocol.go: no call that sends changes what a codec accepts.
use xbslink_ng.Base.{ℕ, ◌≡◌, refl, List, arith}
use xbslink_ng.Protocol.{Mac, Codec, msg_frame, encode, encode_frame}
use xbslink_ng.Protocol.RoundTrip.{after_sending, encode_codec}

-- The part of a codec that decides what it accepts.
pub record SameEar (c d : Codec) : Type 0 where
  pub key : d.key ≡ c.key
  pub mode : d.secure_mode ≡ c.secure_mode
  pub nonce : d.recv_nonce ≡ c.recv_nonce

pub refl-SameEar : (c : Codec) → SameEar c c
refl-SameEar c = record { key = refl; mode = refl; nonce = refl }

after_sending-SameEar : (c : Codec) → SameEar c (after_sending c)
after_sending-SameEar c = record { key = ground arith; mode = ground arith; nonce = ground arith }

module _ (mac : Mac) where
  pub encode-SameEar : (c : Codec) (t : ℕ) (payload : List ℕ) → SameEar c (encode mac c t payload).0
  encode-SameEar c t payload = rw (encode_codec mac c t payload) (after_sending-SameEar c)

  pub encode_frame-SameEar : (c : Codec) (frame : List ℕ) → SameEar c (encode_frame mac c frame).0
  unfolding encode_frame
  encode_frame-SameEar c frame = record {
    key = ground (arith, (encode-SameEar c msg_frame frame).key);
    mode = ground (arith, (encode-SameEar c msg_frame frame).mode);
    nonce = ground (arith, (encode-SameEar c msg_frame frame).nonce);
  }
