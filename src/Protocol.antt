-- ===== src/Protocol.antt =====
-- internal/protocol/protocol.go: the wire protocol. A byte is a number below 256, a slice a list;
-- an int64 timestamp is kept as its 64-bit pattern, on which the conversions to and from uint64 are
-- the identity. A method that mutates `*Codec` returns the new codec first.
mod Wire
pub mod Layout
pub mod Accept
pub mod Replay
pub mod Refused
pub mod RoundTrip
pub mod Messages
pub mod Stream
pub mod Network
pub mod Names
pub mod Key
pub mod Ear
pub mod Voice
mod Tests
use xbslink_ng.Base.{
  ℕ, ◌+◌, ◌-◌, ◌^◌, ◌%◌, ◌≡◌, Bool, true, false, ◌&&◌, ◌||◌, not, Option, none, some, List, [], ◌∷◌,
  ltb, leb, ◌==◌, if◌then◌else◌, length, get_or, take, drop, slice, make, copy_at, equal,
  put_uint16, put_uint64, uint_be,
}
unfoldable pub use Wire.*

-- A decoded message: the fields that its type does not use keep Go's zero values.
pub record Message : Type 0 where
  pub msg_type : ℕ
  pub frame : List ℕ
  pub version : ℕ
  pub challenge : List ℕ
  pub response : List ℕ
  pub timestamp : ℕ

abbrev pub blank : ℕ → Message
blank t = record {
  msg_type = t;
  frame = [];
  version = 0;
  challenge = [];
  response = [];
  timestamp = 0;
}

-- The `switch` of `Decode`, on the type and the payload.
unfoldable pub parse_payload : ℕ → List ℕ → Result Message
parse_payload t payload =
    let size = length payload in
    let version = uint_be 0 (slice 0 2 payload) in
    let stamp = uint_be 0 (take 8 payload) in
    if t == msg_frame
    then (if ltb size min_ethernet_frame
        then err invalid_payload
        else if ltb max_frame_size size
        then err invalid_payload
        else ok (record (blank t) { frame = payload }))
    else if t == msg_hello
    then (if ltb size hello_payload_size
        then err invalid_payload
        else if not (version == protocol_version)
        then err version_mismatch
        else ok (record (blank t) {
          version = version;
          challenge = slice 2 (2 + challenge_size) payload;
        }))
    else if t == msg_hello_ack
    then (if ltb size hello_ack_payload_size
        then err invalid_payload
        else if not (version == protocol_version)
        then err version_mismatch
        else ok (record (blank t) {
          version = version;
          response = slice 2 (2 + challenge_resp_len) payload;
        }))
    else if t == msg_ping
    then (if ltb size ping_pong_payload_size
        then err invalid_payload
        else ok (record (blank t) { timestamp = stamp }))
    else if t == msg_pong
    then (if ltb size ping_pong_payload_size
        then err invalid_payload
        else ok (record (blank t) { timestamp = stamp }))
    else if t == msg_bye
    then ok (blank t)
    else err unknown_msg_type

-- What `Decode` does with the outcome of `decode`.
unfoldable pub parse_decoded : Result (ℕ × List ℕ) → Result Message
parse_decoded (ok (t, payload)) = parse_payload t payload
parse_decoded (err e) = err e

module _ (mac : Mac) where
  unfoldable pub compute_hmac : Codec → List ℕ → List ℕ
  compute_hmac c bytes = mac.sum c.key bytes

  unfoldable pub verify_hmac : Codec → List ℕ → List ℕ → Bool
  unfolding compute_hmac
  verify_hmac c bytes sig = equal (compute_hmac c bytes) sig

  -- The secure branch of `encode`: the buffer is made, filled, signed and returned.
  encode_secure : Codec → ℕ → List ℕ → Codec × List ℕ
  unfolding next_nonce compute_hmac
  encode_secure c t payload =
      let (c', nonce) = next_nonce c in
      let size = length payload in
      let m0 = make (1 + nonce_size + size + hmac_size) in
      let m1 = copy_at m0 0 (t ∷ []) in
      let m2 = copy_at m1 1 (put_uint64 nonce) in
      let m3 = copy_at m2 9 payload in
      (c', copy_at m3 (9 + size) (compute_hmac c (take (9 + size) m3)))

  encode_plain : Codec → ℕ → List ℕ → Codec × List ℕ
  encode_plain c t payload = (c, copy_at (copy_at (make (1 + length payload)) 0 (t ∷ [])) 1 payload)

  pub encode : Codec → ℕ → List ℕ → Codec × List ℕ
  unfolding encode_secure encode_plain
  encode c t payload = if c.secure_mode then encode_secure c t payload else encode_plain c t payload

  -- The checks of the secure branch of `decode` on the parts of the message.
  pub check_message : Codec → ℕ → ℕ → List ℕ → List ℕ → List ℕ → Codec × Result (ℕ × List ℕ)
  unfolding verify_hmac
  check_message c t nonce payload signed sig =
      if not (verify_hmac c signed sig)
      then (c, err invalid_hmac)
      else if is_handshake t
      then (c, ok (t, payload))
      else if ltb 0 nonce && leb nonce c.recv_nonce
      then (c, err replay_detected)
      else (record c { recv_nonce = nonce }, ok (t, payload))

  pub decode_secure : Codec → List ℕ → Codec × Result (ℕ × List ℕ)
  decode_secure c bytes =
      let payload_end = length bytes - hmac_size in
      if ltb (length bytes) (1 + nonce_size + hmac_size)
      then (c, err message_too_short)
      else check_message c (get_or bytes 0 0) (uint_be 0 (slice 1 9 bytes))
          (slice 9 payload_end bytes) (take payload_end bytes) (drop payload_end bytes)

  pub decode : Codec → List ℕ → Codec × Result (ℕ × List ℕ)
  unfolding decode_secure
  decode c bytes =
      if ltb (length bytes) min_header_size
      then (c, err message_too_short)
      else if c.secure_mode
      then decode_secure c bytes
      else (c, ok (get_or bytes 0 0, drop 1 bytes))

  unfoldable pub encode_frame : Codec → List ℕ → Codec × Result (List ℕ)
  encode_frame c frame =
      if ltb (length frame) min_ethernet_frame || ltb max_frame_size (length frame)
      then (c, err frame_out_of_range)
      else let (c', m) = encode c msg_frame frame in (c', ok m)

  -- `random` is what `rand.Read` put into the 16 bytes, or `none` where it failed.
  unfoldable pub encode_hello : Codec → Option (List ℕ) → Codec × Result (List ℕ × List ℕ)
  encode_hello c none = (c, err challenge_not_generated)
  encode_hello c (some random) =
      let payload =
        copy_at (copy_at (make hello_payload_size) 0 (put_uint16 protocol_version)) 2 random in
      let (c', m) = encode c msg_hello payload in (c', ok (m, slice 2 (2 + challenge_size) payload))

  unfoldable pub hello_ack_payload : Codec → List ℕ → List ℕ
  hello_ack_payload c challenge =
      let payload = copy_at (make hello_ack_payload_size) 0 (put_uint16 protocol_version) in
      if c.secure_mode && length challenge == challenge_size
      then copy_at payload 2 (compute_hmac c challenge)
      else payload

  unfoldable pub encode_hello_ack : Codec → List ℕ → Codec × List ℕ
  unfolding hello_ack_payload
  encode_hello_ack c challenge = encode c msg_hello_ack (hello_ack_payload c challenge)

  unfoldable pub encode_ping : Codec → ℕ → Codec × List ℕ
  encode_ping c stamp =
      encode c msg_ping (copy_at (make ping_pong_payload_size) 0 (put_uint64 stamp))

  unfoldable pub encode_pong : Codec → ℕ → Codec × List ℕ
  encode_pong c stamp =
      encode c msg_pong (copy_at (make ping_pong_payload_size) 0 (put_uint64 stamp))

  unfoldable pub encode_bye : Codec → Codec × List ℕ
  encode_bye c = encode c msg_bye []

  unfoldable pub decode_message : Codec → List ℕ → Codec × Result Message
  unfolding parse_decoded
  decode_message c bytes = let (c', r) = decode c bytes in (c', parse_decoded r)

  unfoldable pub verify_challenge_response : Codec → List ℕ → List ℕ → Bool
  unfolding compute_hmac
  verify_challenge_response c challenge response =
      if not c.secure_mode
      then true
      else if not (length challenge == challenge_size)
          || not (length response == challenge_resp_len)
      then false
      else equal (compute_hmac c challenge) response
