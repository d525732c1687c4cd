-- ===== src/Protocol/Wire.antt =====
-- internal/protocol/protocol.go: the constants, the errors and the state of a codec.
use xbslink_ng.Base.{ℕ, ◌+◌, ◌^◌, ◌%◌, ◌≡◌, Bool, ◌||◌, List, ltb, ◌==◌, length}

abbrev pub protocol_version : ℕ
protocol_version = 1

abbrev pub msg_frame : ℕ
msg_frame = 0x00

abbrev pub msg_hello : ℕ
msg_hello = 0x01

abbrev pub msg_hello_ack : ℕ
msg_hello_ack = 0x02

abbrev pub msg_ping : ℕ
msg_ping = 0x03

abbrev pub msg_pong : ℕ
msg_pong = 0x04

abbrev pub msg_bye : ℕ
msg_bye = 0x05

abbrev pub nonce_size : ℕ
nonce_size = 8

abbrev pub hmac_size : ℕ
hmac_size = 32

abbrev pub challenge_size : ℕ
challenge_size = 16

abbrev pub challenge_resp_len : ℕ
challenge_resp_len = 32

abbrev pub min_header_size : ℕ
min_header_size = 1

abbrev pub max_frame_size : ℕ
max_frame_size = 1514

abbrev pub min_ethernet_frame : ℕ
min_ethernet_frame = 14

abbrev pub hello_payload_size : ℕ
hello_payload_size = 2 + challenge_size

abbrev pub hello_ack_payload_size : ℕ
hello_ack_payload_size = 2 + challenge_resp_len

abbrev pub ping_pong_payload_size : ℕ
ping_pong_payload_size = 8

-- The errors of the package; the last two are the unnamed ones of `EncodeFrame` and `EncodeHello`.
pub data Error : Type 0 where
  message_too_short invalid_hmac replay_detected unknown_msg_type : Error
  invalid_payload version_mismatch challenge_required : Error
  frame_out_of_range challenge_not_generated : Error

pub data Result {ℓ} (A : Type ℓ) : Type ℓ where
  ok : A → Result A
  err : Error → Result A

-- HMAC-SHA256 of crypto/hmac and crypto/sha256: a keyed function with 32 bytes of output.
pub record Mac : Type 0 where
  pub sum : List ℕ → List ℕ → List ℕ
  pub length-sum : (key bytes : List ℕ) → length (sum key bytes) ≡ 32

pub record Codec : Type 0 where
  pub key : List ℕ
  pub send_nonce : ℕ  -- uint64
  pub recv_nonce : ℕ  -- uint64
  pub secure_mode : Bool

unfoldable pub new_codec : List ℕ → Codec
new_codec key = record {
  key = key;
  send_nonce = 0;
  recv_nonce = 0;
  secure_mode = ltb 0 (length key);
}

abbrev pub is_secure : Codec → Bool
is_secure c = c.secure_mode

-- `atomic.AddUint64(&c.sendNonce, 1)`
unfoldable pub next_nonce : Codec → Codec × ℕ
next_nonce c = let n = (c.send_nonce + 1) % 2 ^ 64 in (record c { send_nonce = n }, n)

unfoldable pub reset_recv_nonce : Codec → Codec
reset_recv_nonce c = record c { recv_nonce = 0 }

-- HELLO and HELLO_ACK, which the replay check lets through.
abbrev pub is_handshake : ℕ → Bool
is_handshake t = t == msg_hello || t == msg_hello_ack
