-- ===== src/Transport/Connect.antt =====
-- What a successful handshake of the connector rests on, and the delays between its attempts.
pub mod Attempt
use xbslink_ng.Base.{
  ℕ, zero, suc, ◌≡◌, refl, ap, ap₂, sym, ◌∙◌, Bool, true, false, none, some, List, [], ◌∷◌, arith,
  inl, inr, not, if_false, Any, length, Bool-cases, equal→eq,
}
use xbslink_ng.Protocol.{
  Mac, Codec, Result, ok, err, Message, challenge_size, msg_hello_ack, decode_message,
  reset_recv_nonce, verify_challenge_response, compute_hmac,
}
use xbslink_ng.Protocol.Replay.{decode_keeps}
use xbslink_ng.Net.{UdpAddr, addr_equal}
use xbslink_ng.Protocol.RoundTrip.{after_sending}
use xbslink_ng.Transport.Handshake.{hello_written}
use xbslink_ng.Transport.{
  Transport, Round, Read, Exit, Turn, Write, timed_out, failed, got, success, accept_ack, on_reply,
  on_connect_read, ack_turn, ack_loop, attempt_handshake, after_turn, after_hello, connect_delay,
}

module _ (mac : Mac) where
  -- A round that brings a HELLO_ACK from the peer with the HMAC of the challenge under the key.
  pub record IsAnswer (t : Transport) (r : Round) : Type 0 where
    pub addr : UdpAddr
    pub bytes : List ℕ
    pub before : Codec
    pub after : Codec
    pub msg : Message
    pub arrived : r.read ≡ got addr bytes
    pub from_peer : addr_equal (some addr) t.peer_addr ≡ true
    pub same_key : before.key ≡ t.codec.key
    pub decoded : decode_message mac before bytes ≡ (after, ok msg)
    pub is_ack : msg.msg_type ≡ msg_hello_ack
    pub proof : msg.response ≡ mac.sum t.codec.key t.challenge

  decode_message_keeps :
      (c : Codec) (d : List ℕ)
      → ((decode_message mac c d).0.key ≡ c.key)
        × ((decode_message mac c d).0.secure_mode ≡ c.secure_mode)
  unfolding decode_message
  decode_message_keeps c d = let k = decode_keeps mac c d in (k.0, k.1)

  -- A turn that does not return keeps what the answer is judged by.
  pub record Keeps (t t' : Transport) : Type 0 where
    peer : t'.peer_addr ≡ t.peer_addr
    challenge : t'.challenge ≡ t.challenge
    key : t'.codec.key ≡ t.codec.key
    mode : t'.codec.secure_mode ≡ t.codec.secure_mode

  read_goes_on :
      (t t' : Transport) (rd : Read) (out : List Write)
      → on_connect_read mac t rd ≡ (t', out, none)
      → Keeps t t'
  unfolding on_connect_read
  read_goes_on t t' timed_out out h = ground arith
  read_goes_on t t' failed out h = ground arith
  read_goes_on t t' (got addr bytes) out h = ground (arith, decode_message_keeps t.codec bytes)

  pub turn_goes_on :
      (t t' : Transport) (r : Round) (out : List Write)
      → ack_turn mac t r ≡ (t', out, none)
      → Keeps t t'
  unfolding ack_turn
  turn_goes_on t t' r out h = ground (arith, read_goes_on t t' r.read out)

  reply_succeeds :
      (t t' : Transport) (m : Result Message) (out : List Write)
      → t.codec.secure_mode ≡ true
      → on_reply mac t m ≡ (t', out, some success)
      → (msg : Message) × (m ≡ ok msg)
        × (msg.msg_type ≡ msg_hello_ack)
        × (msg.response ≡ mac.sum t.codec.key t.challenge)
        × (t'.connected ≡ true)
        × (t'.codec.recv_nonce ≡ 0)
  unfolding on_reply accept_ack verify_challenge_response compute_hmac reset_recv_nonce
  reply_succeeds t t' (err e) out secure h = cc
  reply_succeeds t t' (ok msg) out secure h =
      let e = equal→eq (mac.sum t.codec.key t.challenge) msg.response in
      (msg, refl, ground arith, ground (arith, e), ground arith, ground arith)

  read_succeeds :
      (t t' : Transport) (r : Round) (rd : Read) (out : List Write)
      → t.codec.secure_mode ≡ true
      → r.read ≡ rd
      → on_connect_read mac t rd ≡ (t', out, some success)
      → IsAnswer t r × (t'.connected ≡ true) × (t'.codec.recv_nonce ≡ 0)
  unfolding on_connect_read
  read_succeeds t t' r timed_out out secure e h = cc
  read_succeeds t t' r failed out secure e h = cc
  read_succeeds t t' r (got addr bytes) out secure e h =
      elim (Bool-cases (addr_equal (some addr) t.peer_addr)) [
        | inr other ↦ absurd (ground arith)
        | inl same ↦
            let c = (decode_message mac t.codec bytes).0 in
            let m = (decode_message mac t.codec bytes).1 in
            let keeps = decode_message_keeps t.codec bytes in
            let (msg, decoded, is_ack, proof, up, fresh) =
              reply_succeeds (record t { codec = c }) t' m out (keeps.1 ∙ secure)
                (sym (if_false _ _ (ap not same)) ∙ h) in
            (
              record {
                addr = addr;
                bytes = bytes;
                before = t.codec;
                after = c;
                msg = msg;
                arrived = e;
                from_peer = same;
                same_key = refl;
                decoded = ap (λ (x : Result Message). (c, x)) decoded;
                is_ack = is_ack;
                proof = proof ∙ ap (λ (k : List ℕ). mac.sum k t.challenge) keeps.0;
              },
              up,
              fresh,
            )
      ]

  -- A successful end of a loop over those rounds, from that state.
  abbrev pub Succeeds : Transport → List Round → Transport → Type 0
  Succeeds t rounds t' = Any (IsAnswer t) rounds × (t'.connected ≡ true) × (t'.codec.recv_nonce ≡ 0)

  pub turn_succeeds :
      (t t' : Transport) (r : Round) (out : List Write)
      → t.codec.secure_mode ≡ true
      → ack_turn mac t r ≡ (t', out, some success)
      → IsAnswer t r × (t'.connected ≡ true) × (t'.codec.recv_nonce ≡ 0)
  unfolding ack_turn
  turn_succeeds t t' r out secure h = read_succeeds t t' r r.read out secure refl (ground arith)

-- The documented schedule: 1 s, 2 s, 5 s and then always 10 s.
abbrev pub schedule : ℕ → ℕ
schedule zero = 1
schedule (suc zero) = 2
schedule (suc (suc zero)) = 5
schedule (suc (suc (suc n))) = 10

pub connect_delay-schedule : (attempt : ℕ) → connect_delay attempt ≡ schedule attempt
unfolding connect_delay
connect_delay-schedule zero = refl
connect_delay-schedule (suc zero) = refl
connect_delay-schedule (suc (suc zero)) = refl
connect_delay-schedule (suc (suc (suc n))) = ground arith
