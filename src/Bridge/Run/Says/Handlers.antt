-- ===== src/Bridge/Run/Says/Handlers.antt =====
-- internal/bridge/bridge.go: the messages that each handler sends.
use mathlib.Core.Path.{subst}
use xbslink_ng.Base.{
  ℕ, ◌+◌, ◌%◌, ◌^◌, ◌<◌, ◌≤◌, ◌≡◌, refl, sym, ap, ◌∙◌, inl, inr, Bool, true, false, ◌&&◌, ◌||◌,
  ◌==◌, not, Option, none, some, List, [], ◌∷◌, arith, ltb, leb, length, IsPart, skip, refl-IsPart,
  put_uint64, length-put_uint64, put_uint64_wraps, Bool-cases,
}
use xbslink_ng.Protocol.{
  Mac, Codec, Result, ok, err, Message, msg_frame, msg_ping, msg_pong, msg_bye, min_ethernet_frame,
  max_frame_size, encode, encode_frame, encode_ping, encode_pong, encode_bye, decode_message,
}
use xbslink_ng.Protocol.Messages.{frame, ping, pong, bye, fill}
use xbslink_ng.Transport.{Transport, SendError, Read, timed_out, failed, got, send, send_bye, close}
use xbslink_ng.Net.{UdpAddr}
use xbslink_ng.Bridge.Rtt.{Float64}
use xbslink_ng.Bridge.{
  Bridge, Effect, send_turn, send_ping, recv_turn, dispatch, on_decoded, handle_ping, handle_pong,
  handle_frame, handle_bye, take_pong, on_encoded, count_sent, sent_or, start_ping, give_up,
  max_missed_pongs,
}
use xbslink_ng.Bridge.Forward.{with_codec}
use xbslink_ng.Bridge.Run.Inbound.{read_or_ignored}
use xbslink_ng.Bridge.Run.{say_bye}
use xbslink_ng.Protocol.Voice.{refl-SameVoice, receipt-SameVoice}
use xbslink_ng.Bridge.Run.Says.{
  Says, silent, says_after, encoded_voice, says_one, quiet, if_says, missed_says,
}

module _ (mac : Mac) where
  encode_pong_lem :
      (c : Codec) (stamp : ℕ)
      → encode_pong mac c stamp ≡ encode mac c msg_pong (put_uint64 (stamp % 2 ^ 64))
  unfolding encode_pong
  encode_pong_lem c stamp =
      ap (encode mac c msg_pong)
        (fill mac 8 (put_uint64 stamp) (length-put_uint64 stamp) ∙ put_uint64_wraps stamp)

  encode_ping_lem :
      (c : Codec) (stamp : ℕ)
      → encode_ping mac c stamp ≡ encode mac c msg_ping (put_uint64 (stamp % 2 ^ 64))
  unfolding encode_ping
  encode_ping_lem c stamp =
      ap (encode mac c msg_ping)
        (fill mac 8 (put_uint64 stamp) (length-put_uint64 stamp) ∙ put_uint64_wraps stamp)

  stamp_fits : (stamp : ℕ) → stamp % 2 ^ 64 < 2 ^ 64
  stamp_fits stamp = omega arith

  handle_ping_says :
      (write_ok : Bool) (b : Bridge) (stamp : ℕ)
      → let (b', out, events) = handle_ping mac write_ok b stamp in Says mac b b' out
  unfolding handle_ping
  handle_ping_says write_ok b stamp = rw (encode_pong_lem b.transport.codec stamp) (
      says_one mac b (pong (stamp % 2 ^ 64)) write_ok _ (stamp_fits stamp, refl) refl
        (refl-IsPart b.frames_to_send) b.transport)

  start_ping_says :
      (now : ℕ) (write_ok : Bool) (b : Bridge)
      → let (b', out, events) = start_ping mac now write_ok b in Says mac b b' out
  unfolding start_ping
  start_ping_says now write_ok b = rw (encode_ping_lem b.transport.codec now) (
      says_one mac b (ping (now % 2 ^ 64)) write_ok _ (stamp_fits now, refl) refl
        (refl-IsPart b.frames_to_send) b.transport)

  give_up_says :
      (b : Bridge) (missed : ℕ) → let (b', out, events) = give_up mac b missed in Says mac b b' out
  unfolding give_up
  give_up_says b missed =
      silent mac b _ (record { key = ground arith; mode = ground arith; nonce = ground arith })
        (ground arith)

  pub send_ping_says :
      (now : ℕ) (write_ok : Bool) (b : Bridge)
      → let (b', out, events) = send_ping mac now write_ok b in Says mac b b' out
  unfolding send_ping
  send_ping_says now write_ok b =
      let missed = (b.missed_pongs + 1) % 2 ^ 32 in
      let b' : Bridge = record b { missed_pongs = missed } in
      if_says mac b (b.pending_ping == 0) _ _ (start_ping_says now write_ok b) (
        if_says mac b (leb max_missed_pongs missed && ltb missed (2 ^ 31)) _ _
          (missed_says mac b missed _ _ (give_up_says b' missed))
          (missed_says mac b missed _ _ (start_ping_says now write_ok b')))

  handle_pong_says :
      (f : Float64) (now : ℕ) (b : Bridge) (t : ℕ)
      → let (b', out, events) = handle_pong f now b t in Says mac b b' out
  unfolding handle_pong take_pong
  handle_pong_says f now b t = if_says mac b (b.pending_ping == 0) _ _ (quiet mac b) (
      if_says mac b (not (t == b.pending_ping)) _ _ (quiet mac b)
        (silent mac b _ (refl-SameVoice b.transport.codec) refl))

  handle_bye_says : (b : Bridge) → let (b', out, events) = handle_bye b in Says mac b b' out
  unfolding handle_bye
  handle_bye_says b =
      silent mac b _ (record { key = ground arith; mode = ground arith; nonce = ground arith })
        (ground arith)

  pub closed_says :
      (b : Bridge) (n : ℕ)
      → Says mac b (record b { done_closes = n; transport = close b.transport }) []
  unfolding close
  closed_says b n =
      silent mac b _ (record { key = ground arith; mode = ground arith; nonce = ground arith }) refl

  pub say_bye_says :
      (write_ok : Bool) (b : Bridge)
      → Says mac b (say_bye write_ok mac b) (send_bye mac b.transport write_ok).1
  unfolding say_bye send_bye encode_bye
  say_bye_says write_ok b = elim (Bool-cases (not b.transport.connected || b.transport.closed)) [
    | inl e ↦ rw e (quiet mac b)
    | inr e ↦ rw e (record {
      said = bye ∷ [];
      counted = ((tt, refl), tt);
      one = omega arith;
      voice = encoded_voice mac b.transport.codec bye;
      written = (inl refl, tt);
      frames = refl-IsPart b.frames_to_send;
    })
  ]

  dispatch_says :
      (f : Float64) (now : ℕ) (write_ok : Bool) (b : Bridge) (msg : Message)
      → let (b', out, events) = dispatch mac f now write_ok b msg in Says mac b b' out
  unfolding dispatch handle_frame
  dispatch_says f now write_ok b msg =
      if_says mac b (msg.msg_type == msg_frame) _ _
        (silent mac b _ (refl-SameVoice b.transport.codec) refl)
        (if_says mac b (msg.msg_type == msg_ping) _ _ (handle_ping_says write_ok b msg.timestamp) (
          if_says mac b (msg.msg_type == msg_pong) _ _ (handle_pong_says f now b msg.timestamp)
            (if_says mac b (msg.msg_type == msg_bye) _ _ (handle_bye_says b) (quiet mac b))))

  on_decoded_says :
      (f : Float64) (now : ℕ) (write_ok : Bool) (b : Bridge) (m : Result Message)
      → let (b', out, events) = on_decoded mac f now write_ok b m in Says mac b b' out
  unfolding on_decoded
  on_decoded_says f now write_ok b (err e) = quiet mac b
  on_decoded_says f now write_ok b (ok msg) = dispatch_says f now write_ok b msg

  pub recv_turn_says :
      (f : Float64) (now : ℕ) (write_ok : Bool) (peer : Option UdpAddr) (b : Bridge) (r : Read)
      → b.transport.codec.secure_mode ≡ true
      → let (b', out, events) = recv_turn mac f now write_ok peer b r in Says mac b b' out
  unfolding recv_turn
  recv_turn_says f now write_ok peer b timed_out secure = quiet mac b
  recv_turn_says f now write_ok peer b failed secure = quiet mac b
  recv_turn_says f now write_ok peer b (got addr d) secure =
      let (c, m) = decode_message mac b.transport.codec d in
      elim (read_or_ignored mac f now write_ok peer b addr d) [
        | inl e ↦ subst (λ (x : Effect). Says mac b x.0 x.1) (sym e) (quiet mac b)
        | inr e ↦
            subst (λ (x : Effect). Says mac b x.0 x.1) (sym e)
              (says_after mac b (with_codec b c) _ _ secure
                (receipt-SameVoice mac b.transport.codec d) refl
                (on_decoded_says f now write_ok (with_codec b c) m))
      ]

  in_bounds :
      (x : List ℕ)
      → ltb (length x) min_ethernet_frame || ltb max_frame_size (length x) ≡ false
      → (min_ethernet_frame ≤ length x) × (length x ≤ max_frame_size)
  in_bounds x h = ground arith

  counted_transport :
      (b : Bridge) (x : List ℕ) (e : Option SendError)
      → (sent_or e (count_sent b x) b).transport ≡ b.transport
  counted_transport b x none = refl
  counted_transport b x (some e) = refl

  counted_queue :
      (b : Bridge) (x : List ℕ) (e : Option SendError)
      → (sent_or e (count_sent b x) b).frames_to_send ≡ b.frames_to_send
  counted_queue b x none = refl
  counted_queue b x (some e) = refl

  -- `sendLoop` on the frame that it has taken from the queue.
  pub send_turn_says :
      (write_ok : Bool) (b : Bridge) (x : List ℕ) (rest : List (List ℕ))
      → b.frames_to_send ≡ x ∷ rest
      → let b0 : Bridge = record b { frames_to_send = rest } in
        let (b', out, events) = send_turn mac write_ok b0 x in Says mac b b' out
  unfolding send_turn encode_frame on_encoded
  send_turn_says write_ok b x rest q =
      elim (Bool-cases (ltb (length x) min_ethernet_frame || ltb max_frame_size (length x))) [
        | inl bad ↦ rw bad (record {
          said = [];
          counted = tt;
          one = omega arith;
          voice = refl-SameVoice b.transport.codec;
          written = tt;
          frames = subst (IsPart rest) (sym q) (skip x (refl-IsPart rest));
        })
        | inr good ↦
            (let sent : Bridge = record b {
              transport = record (b.transport) {
                codec = (encode mac b.transport.codec msg_frame x).0;
              };
              frames_to_send = rest;
            } in
              let error =
                (send b.transport (encode mac b.transport.codec msg_frame x).1 write_ok).1 in
              rw good (
                says_one mac b (frame x) write_ok (sent_or error (count_sent sent x) sent)
                  (in_bounds x good, refl)
                  (ap (λ (t : Transport). t.codec) (counted_transport sent x error))
                  (subst (λ (q : List (List ℕ)). IsPart (x ∷ q) b.frames_to_send)
                    (sym (counted_queue sent x error))
                    (subst (IsPart (x ∷ rest)) (sym q) (refl-IsPart (x ∷ rest))))
                  b.transport))
      ]
