-- ===== src/Bridge/Run/Says.antt =====
-- internal/bridge/bridge.go: what a handler of a bridge sends: at most one message.
pub mod Handlers
use mathlib.Core.Path.{subst}
use xbslink_ng.Base.{
  ℕ, zero, suc, ◌+◌, ◌%◌, ◌^◌, ◌<◌, ◌≤◌, ◌≡◌, refl, sym, ap, ap₂, ◌∙◌, ◌⊎◌, inl, inr, Bool, true,
  false, ◌&&◌, ◌||◌, ◌==◌, not, Option, none, some, List, [], ◌∷◌, ◌++◌, arith, ltb, leb, All,
  All-map, Any, length, IsPart, nothing, keep, skip, refl-IsPart, put_uint64, length-put_uint64,
  put_uint64_wraps, if_true, if_false, if◌then◌else◌, Bool-cases,
}
use xbslink_ng.Protocol.{
  Mac, Codec, Result, ok, err, Message, msg_frame, msg_ping, msg_pong, msg_bye, min_ethernet_frame,
  max_frame_size, encode, encode_frame, encode_ping, encode_pong, encode_bye, decode_message,
}
use xbslink_ng.Protocol.Key.{decode_message-Hears}
use xbslink_ng.Protocol.Layout.{encode_secure_layout}
use xbslink_ng.Protocol.Accept.Datagrams.{authentic}
use xbslink_ng.Protocol.RoundTrip.{after_sending, encode_codec}
use xbslink_ng.Protocol.Messages.{
  Outgoing, frame, hello, hello_ack, ping, pong, bye, type_of, payload_of, fill, transmit_lem,
}
use xbslink_ng.Protocol.Messages.Decoded.{datagram}
use xbslink_ng.Protocol.Network.{at, IsCounted}
use xbslink_ng.Transport.{
  Transport, Write, SendError, Read, timed_out, failed, got, send, send_bye, close,
}
use xbslink_ng.Net.{UdpAddr}
use xbslink_ng.Bridge.Rtt.{Float64}
use xbslink_ng.Bridge.{
  Bridge, Effect, send_turn, send_ping, recv_turn, dispatch, on_decoded, handle_ping, handle_pong,
  handle_frame, handle_bye, take_pong, on_encoded, count_sent, sent_or, start_ping, give_up,
  max_missed_pongs,
}
use xbslink_ng.Bridge.Forward.{with_codec}
use xbslink_ng.Bridge.Run.Inbound.{read_or_ignored}
use xbslink_ng.Bridge.Run.Frames.{frames_in}
use xbslink_ng.Bridge.Run.{say_bye}
use xbslink_ng.Protocol.Voice.{
  SameVoice, refl-SameVoice, trans-SameVoice, at-SameVoice, datagram-SameVoice, receipt-SameVoice,
}

module _ (mac : Mac) where
  -- What a handler sends that leads from `b` to `b'` with the writes `out`: nothing, or one message.
  -- The writes, if there are any, hold its datagram; a frame that is sent has left the queue.
  pub record Says (b b' : Bridge) (out : List Write) : Type 0 where
    pub said : List Outgoing
    pub counted : All (IsCounted mac) said
    pub one : length said ≤ 1
    pub voice : SameVoice (at b.transport.codec (length said)) b'.transport.codec
    pub written :
        All (λ (w : Write). Any (λ (o : Outgoing). w.1 ≡ datagram mac b.transport.codec o) said) out
    pub frames : IsPart (frames_in said ++ b'.frames_to_send) b.frames_to_send

  -- A handler that sends nothing and leaves the queue alone.
  pub silent :
      (b b' : Bridge)
      → SameVoice b.transport.codec b'.transport.codec
      → b'.frames_to_send ≡ b.frames_to_send
      → Says b b' []
  silent b b' v q = record {
    said = [];
    counted = tt;
    one = omega arith;
    voice = v;
    written = tt;
    frames =
        subst (λ (x : List (List ℕ)). IsPart x b.frames_to_send) (sym q)
          (refl-IsPart b.frames_to_send);
  }

  -- What is sent behind a receipt.
  pub says_after :
      (b x b' : Bridge) (out : List Write)
      → b.transport.codec.secure_mode ≡ true
      → SameVoice b.transport.codec x.transport.codec
      → x.frames_to_send ≡ b.frames_to_send
      → Says x b' out
      → Says b b' out
  says_after b x b' out secure v q s = record {
    said = s.said;
    counted = s.counted;
    one = s.one;
    voice =
        trans-SameVoice (at b.transport.codec (length s.said))
          (at x.transport.codec (length s.said)) b'.transport.codec
          (at-SameVoice b.transport.codec x.transport.codec (length s.said) v) s.voice;
    written = All-map (λ (w : Write) p. heard w s.said s.counted p) out s.written;
    frames = subst (IsPart (frames_in s.said ++ b'.frames_to_send)) q s.frames;
  }
    where
      heard :
          (w : Write) (said : List Outgoing)
          → All (IsCounted mac) said
          → Any (λ (o : Outgoing). w.1 ≡ datagram mac x.transport.codec o) said
          → Any (λ (o : Outgoing). w.1 ≡ datagram mac b.transport.codec o) said
      heard w [] h p = p
      heard w (o ∷ os) h (inl e) =
          inl (e ∙ datagram-SameVoice mac b.transport.codec x.transport.codec o secure h.0 v)
      heard w (o ∷ os) h (inr p) = inr (heard w os h.1 p)

  -- A message that is encoded, with the codec behind it.
  pub encoded_voice :
      (c : Codec) (o : Outgoing)
      → SameVoice (after_sending c) (encode mac c (type_of o) (payload_of mac c o)).0
  encoded_voice c o =
      rw (encode_codec mac c (type_of o) (payload_of mac c o)) (refl-SameVoice (after_sending c))

  sends_one :
      (t : Transport) (c : Codec) (o : Outgoing) (write_ok : Bool)
      → All
          (λ (w : Write). Any (λ (x : Outgoing). w.1 ≡ datagram mac c x) (o ∷ []))
          (send t (datagram mac c o) write_ok).0
  unfolding send
  sends_one t c o write_ok = elim (Bool-cases t.closed) [
    | inl closed ↦ rw closed tt
    | inr up ↦ elim (Bool-cases t.connected) [
      | inl connected ↦ rw (up, connected) (inl refl, tt)
      | inr down ↦ rw (up, down) tt
    ]
  ]

  -- A handler that sends one message and leaves the queue alone.
  pub says_one :
      (b : Bridge) (o : Outgoing) (write_ok : Bool) (b' : Bridge)
      → IsCounted mac o
      → b'.transport.codec
        ≡ (encode mac b.transport.codec (type_of o) (payload_of mac b.transport.codec o)).0
      → IsPart (frames_in (o ∷ []) ++ b'.frames_to_send) b.frames_to_send
      → (t : Transport) → Says b b' (send t (datagram mac b.transport.codec o) write_ok).0
  says_one b o write_ok b' h e q t = record {
    said = o ∷ [];
    counted = (h, tt);
    one = omega arith;
    voice =
        subst (SameVoice (after_sending b.transport.codec))
          (sym (
            e
            ∙ encode_codec mac b.transport.codec (type_of o) (payload_of mac b.transport.codec o)))
          (refl-SameVoice (after_sending b.transport.codec));
    written = sends_one t b.transport.codec o write_ok;
    frames = q;
  }

  pub quiet : (b : Bridge) → Says b b []
  quiet b = silent b b (refl-SameVoice b.transport.codec) refl

  pub if_says :
      (b : Bridge) (c : Bool) (x y : Effect)
      → Says b x.0 x.1
      → Says b y.0 y.1
      → (let e = if c then x else y in Says b e.0 e.1)
  if_says b true x y p q = p
  if_says b false x y p q = q

  pub missed_says :
      (b : Bridge) (n : ℕ) (x : Bridge) (out : List Write)
      → Says (record b { missed_pongs = n }) x out
      → Says b x out
  missed_says b n x out s = record {
    said = s.said;
    counted = s.counted;
    one = s.one;
    voice = s.voice;
    written = s.written;
    frames = s.frames;
  }
