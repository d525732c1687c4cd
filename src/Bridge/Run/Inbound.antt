-- ===== src/Bridge/Run/Inbound.antt =====
-- internal/bridge/bridge.go: what the loops other than `recvLoop` and `injectLoop` leave alone.
use xbslink_ng.Base.{
  ℕ, ◌+◌, ◌%◌, ◌^◌, ◌≡◌, ◌⊎◌, refl, ◌∙◌, Bool, true, false, ◌&&◌, ◌==◌, Option, none, some, List,
  [], arith, leb, ltb, if◌then◌else◌,
}
use xbslink_ng.Protocol.{
  Mac, Codec, Message, Result, ok, err, msg_frame, msg_ping, msg_pong, msg_bye, encode_frame,
  decode_message, encode_ping, encode_pong, encode_bye,
}
use xbslink_ng.Protocol.Ear.{SameEar, refl-SameEar, encode-SameEar, encode_frame-SameEar}
use xbslink_ng.Transport.{got, SendError, send, send_bye, close}
use xbslink_ng.Net.{UdpAddr}
use xbslink_ng.Bridge.Rtt.{Float64}
use xbslink_ng.Bridge.{
  Bridge, Effect, recv_turn, on_decoded, max_missed_pongs, send_turn, send_ping, dispatch,
  handle_ping, handle_pong, take_pong, handle_bye, on_encoded, count_sent, sent_or, start_ping,
  give_up,
}
use xbslink_ng.Bridge.Forward.{with_codec}
use xbslink_ng.Bridge.Run.{say_bye}

-- The bridge accepts the same datagrams as before and holds the same frames to be injected.
pub record KeepsInbound (b b' : Bridge) : Type 0 where
  pub ear : SameEar b.transport.codec b'.transport.codec
  pub queue : b'.frames_to_inject ≡ b.frames_to_inject

pub refl-KeepsInbound : (b : Bridge) → KeepsInbound b b
refl-KeepsInbound b = record { ear = refl-SameEar b.transport.codec; queue = refl }

if-KeepsInbound :
    (b : Bridge) (c : Bool) (x y : Effect)
    → KeepsInbound b x.0
    → KeepsInbound b y.0
    → KeepsInbound b (if c then x else y).0
if-KeepsInbound b true x y p q = p
if-KeepsInbound b false x y p q = q

handle_pong-KeepsInbound :
    (f : Float64) (now : ℕ) (b : Bridge) (t : ℕ) → KeepsInbound b (handle_pong f now b t).0
unfolding handle_pong take_pong
handle_pong-KeepsInbound f now b t = record {
  ear = record { key = ground arith; mode = ground arith; nonce = ground arith };
  queue = ground arith;
}

handle_bye-KeepsInbound : (b : Bridge) → KeepsInbound b (handle_bye b).0
unfolding handle_bye
handle_bye-KeepsInbound b = record {
  ear = record { key = ground arith; mode = ground arith; nonce = ground arith };
  queue = ground arith;
}

pub closed-KeepsInbound :
    (b : Bridge) (n : ℕ)
    → KeepsInbound b (record b { done_closes = n; transport = close b.transport })
unfolding close
closed-KeepsInbound b n = record {
  ear = record { key = ground arith; mode = ground arith; nonce = ground arith };
  queue = refl;
}

counted :
    (b : Bridge) (frame : List ℕ) (e : Option SendError)
    → KeepsInbound b (sent_or e (count_sent b frame) b)
counted b frame none = record { ear = refl-SameEar b.transport.codec; queue = refl }
counted b frame (some e) = refl-KeepsInbound b

module _ (mac : Mac) where
  handle_ping-KeepsInbound :
      (write_ok : Bool) (b : Bridge) (t : ℕ) → KeepsInbound b (handle_ping mac write_ok b t).0
  unfolding handle_ping encode_pong
  handle_ping-KeepsInbound write_ok b t = record {
    ear = encode-SameEar mac b.transport.codec _ _;
    queue = refl;
  }

  -- A message that is no frame.
  pub dispatch-KeepsInbound :
      (f : Float64) (now : ℕ) (write_ok : Bool) (b : Bridge) (msg : Message)
      → (msg.msg_type == msg_frame) ≡ false
      → KeepsInbound b (dispatch mac f now write_ok b msg).0
  unfolding dispatch
  dispatch-KeepsInbound f now write_ok b msg e = rw e (
      if-KeepsInbound b (msg.msg_type == msg_ping) _ _
        (handle_ping-KeepsInbound write_ok b msg.timestamp)
        (if-KeepsInbound b (msg.msg_type == msg_pong) _ _
          (handle_pong-KeepsInbound f now b msg.timestamp)
          (if-KeepsInbound b (msg.msg_type == msg_bye) _ _ (handle_bye-KeepsInbound b)
            (refl-KeepsInbound b))))

  start_ping-KeepsInbound :
      (now : ℕ) (write_ok : Bool) (b : Bridge) → KeepsInbound b (start_ping mac now write_ok b).0
  unfolding start_ping encode_ping
  start_ping-KeepsInbound now write_ok b = record {
    ear = encode-SameEar mac b.transport.codec _ _;
    queue = refl;
  }

  give_up-KeepsInbound : (b : Bridge) (missed : ℕ) → KeepsInbound b (give_up mac b missed).0
  unfolding give_up
  give_up-KeepsInbound b missed = record {
    ear = record { key = ground arith; mode = ground arith; nonce = ground arith };
    queue = ground arith;
  }

  missed-KeepsInbound :
      (b : Bridge) (n : ℕ) (x : Bridge)
      → KeepsInbound (record b { missed_pongs = n }) x
      → KeepsInbound b x
  missed-KeepsInbound b n x h = record { ear = h.ear; queue = h.queue }

  pub send_ping-KeepsInbound :
      (now : ℕ) (write_ok : Bool) (b : Bridge) → KeepsInbound b (send_ping mac now write_ok b).0
  unfolding send_ping
  send_ping-KeepsInbound now write_ok b =
      let missed = (b.missed_pongs + 1) % 2 ^ 32 in
      let b' : Bridge = record b { missed_pongs = missed } in
      if-KeepsInbound b (b.pending_ping == 0) _ _ (start_ping-KeepsInbound now write_ok b) (
        if-KeepsInbound b (leb max_missed_pongs missed && ltb missed (2 ^ 31)) _ _
          (missed-KeepsInbound b missed _ (give_up-KeepsInbound b' missed))
          (missed-KeepsInbound b missed _ (start_ping-KeepsInbound now write_ok b')))

  on_encoded-KeepsInbound :
      (write_ok : Bool) (b : Bridge) (frame : List ℕ) (x : Codec × Result (List ℕ))
      → SameEar b.transport.codec x.0
      → KeepsInbound b (on_encoded write_ok b frame x).0
  unfolding on_encoded
  on_encoded-KeepsInbound write_ok b frame (c, err e) h = record { ear = h; queue = refl }
  on_encoded-KeepsInbound write_ok b frame (c, ok m) h =
      let kept = counted (with_codec b c) frame (send b.transport m write_ok).1 in
      record {
        ear = record {
          key = kept.ear.key ∙ h.key;
          mode = kept.ear.mode ∙ h.mode;
          nonce = kept.ear.nonce ∙ h.nonce;
        };
        queue = kept.queue;
      }

  pub send_turn-KeepsInbound :
      (write_ok : Bool) (b : Bridge) (frame : List ℕ)
      → KeepsInbound b (send_turn mac write_ok b frame).0
  unfolding send_turn
  send_turn-KeepsInbound write_ok b frame =
      on_encoded-KeepsInbound write_ok b frame (encode_frame mac b.transport.codec frame)
        (encode_frame-SameEar mac b.transport.codec frame)

  pub say_bye-KeepsInbound :
      (write_ok : Bool) (b : Bridge) → KeepsInbound b (say_bye write_ok mac b)
  unfolding say_bye send_bye encode_bye
  say_bye-KeepsInbound write_ok b =
      let e = encode-SameEar mac b.transport.codec msg_bye [] in
      record {
        ear = record {
          key = ground (arith, e.key);
          mode = ground (arith, e.mode);
          nonce = ground (arith, e.nonce);
        };
        queue = ground arith;
      }

  -- A datagram is ignored, or goes through the codec.
  pub read_or_ignored :
      (f : Float64) (now : ℕ) (write_ok : Bool) (peer : Option UdpAddr) (b : Bridge)
      (addr : UdpAddr) (d : List ℕ)
      → let (c, m) = decode_message mac b.transport.codec d in
        (recv_turn mac f now write_ok peer b (got addr d) ≡ (b, [], []))
        ⊎ (recv_turn mac f now write_ok peer b (got addr d)
            ≡ on_decoded mac f now write_ok (with_codec b c) m)
  unfolding recv_turn
  read_or_ignored f now write_ok peer b addr d = ground arith
