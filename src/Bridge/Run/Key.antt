-- ===== src/Bridge/Run/Key.antt =====
-- internal/bridge/bridge.go: the codec of a bridge keeps its key and its mode.
use xbslink_ng.Base.{
  ℕ, ◌+◌, refl, Bool, true, false, sym, subst, inl, inr, Bool-cases, Option, List, arith,
  if◌then◌else◌, ◌==◌,
}
use xbslink_ng.Protocol.{Mac, Codec, msg_frame, Message, Result, ok, err, decode_message}
use xbslink_ng.Protocol.Key.{SameKey, trans-SameKey, decode_message-SameKey}
use xbslink_ng.Net.{UdpAddr}
use xbslink_ng.Transport.Key.{wait_for_peer-SameKey, connect_to_peer-SameKey}
use xbslink_ng.Bridge.Begin.{begin_run, after_connecting}
use xbslink_ng.Transport.{
  Write, Round, Attempt, Exit, is_listen, Transport, Read, timed_out, failed, got, close,
}
use xbslink_ng.Bridge.Rtt.{Float64}
use xbslink_ng.Bridge.{
  Event, connecting, Effect, Bridge, set_state, capture_frame, recv_turn, dispatch, on_decoded,
  handle_frame,
}
use xbslink_ng.Bridge.Forward.{with_codec}
use xbslink_ng.Bridge.Run.Inbound.{
  KeepsInbound, dispatch-KeepsInbound, read_or_ignored, send_turn-KeepsInbound,
  send_ping-KeepsInbound, say_bye-KeepsInbound, closed-KeepsInbound,
}
use xbslink_ng.Bridge.Run.{
  started, System, Step, Reach, close_transport, close_done, finished, cancel, captured, no_capture,
  sending, receiving, injecting, pinging, stopping, disconnecting, shutting_down, closing,
  returning, here, next,
}

abbrev pub KeepsKey : Bridge → Bridge → Type 0
KeepsKey b b' = SameKey b.transport.codec b'.transport.codec

-- What leaves alone what a bridge accepts leaves alone the key.
kept : {b b' : Bridge} → KeepsInbound b b' → KeepsKey b b'
kept h = (h.ear.key, h.ear.mode)

either :
    (b : Bool) (c : Codec) (x y : Transport × List Write × Exit)
    → SameKey c x.0.codec
    → SameKey c y.0.codec
    → SameKey c (if b then x else y).0.codec
either true c x y p q = p
either false c x y p q = q

module _ (mac : Mac) where
  dispatch-KeepsKey :
      (f : Float64) (now : ℕ) (write_ok : Bool) (b : Bridge) (msg : Message)
      → KeepsKey b (dispatch mac f now write_ok b msg).0
  unfolding dispatch handle_frame
  dispatch-KeepsKey f now write_ok b msg = elim (Bool-cases (msg.msg_type == msg_frame)) [
    | inl e ↦ rw e (refl, refl)
    | inr e ↦ kept (dispatch-KeepsInbound mac f now write_ok b msg e)
  ]

  on_decoded-KeepsKey :
      (f : Float64) (now : ℕ) (write_ok : Bool) (b : Bridge) (m : Result Message)
      → KeepsKey b (on_decoded mac f now write_ok b m).0
  unfolding on_decoded
  on_decoded-KeepsKey f now write_ok b (err e) = (refl, refl)
  on_decoded-KeepsKey f now write_ok b (ok msg) = dispatch-KeepsKey f now write_ok b msg

  recv_turn-KeepsKey :
      (f : Float64) (now : ℕ) (write_ok : Bool) (peer : Option UdpAddr) (b : Bridge) (r : Read)
      → KeepsKey b (recv_turn mac f now write_ok peer b r).0
  unfolding recv_turn
  recv_turn-KeepsKey f now write_ok peer b timed_out = (refl, refl)
  recv_turn-KeepsKey f now write_ok peer b failed = (refl, refl)
  recv_turn-KeepsKey f now write_ok peer b (got addr bytes) =
      let (c, m) = decode_message mac b.transport.codec bytes in
      elim (read_or_ignored mac f now write_ok peer b addr bytes) [
        | inl e ↦ subst (λ (x : Effect). KeepsKey b x.0) (sym e) (refl, refl)
        | inr e ↦
            subst (λ (x : Effect). KeepsKey b x.0) (sym e)
              (trans-SameKey b.transport.codec c
                (on_decoded mac f now write_ok (with_codec b c) m).0.transport.codec
                (decode_message-SameKey mac b.transport.codec bytes)
                (on_decoded-KeepsKey f now write_ok (with_codec b c) m))
      ]

  step-KeepsKey : (f : Float64) {s t : System} → Step mac f s t → KeepsKey s.bridge t.bridge
  unfolding close_transport close_done finished close capture_frame set_state
  step-KeepsKey f cancel = (refl, refl)
  step-KeepsKey f (captured frame e) = (refl, refl)
  step-KeepsKey f (no_capture e) = (refl, refl)
  step-KeepsKey f {s = s} (sending w frame rest e q) =
      kept (send_turn-KeepsInbound mac w (record (s.bridge) { frames_to_send = rest }) frame)
  step-KeepsKey f {s = s} (receiving now w r e) = recv_turn-KeepsKey f now w s.peer s.bridge r
  step-KeepsKey f (injecting frame rest e q) = (refl, refl)
  step-KeepsKey f {s = s} (pinging now w e) = kept (send_ping-KeepsInbound mac now w s.bridge)
  step-KeepsKey f (stopping l e q) = (refl, refl)
  step-KeepsKey f {s = s} (disconnecting e q) =
      kept (closed-KeepsInbound s.bridge s.bridge.done_closes)
  step-KeepsKey f {s = s} (shutting_down w e q r) = kept (say_bye-KeepsInbound mac w s.bridge)
  step-KeepsKey f {s = s} (closing e) =
      kept (closed-KeepsInbound s.bridge (s.bridge.done_closes + 1))
  step-KeepsKey f (returning r e q) = (refl, refl)

  pub reach-KeepsKey : (f : Float64) {s t : System} → Reach mac f s t → KeepsKey s.bridge t.bridge
  reach-KeepsKey f here = (refl, refl)
  reach-KeepsKey f {s = s} {t = u} (next {t = t} r st) =
      trans-SameKey s.bridge.transport.codec t.bridge.transport.codec u.bridge.transport.codec
        (reach-KeepsKey f r) (step-KeepsKey f st)

  after_connecting-KeepsKey :
      (cancelled : Bool) (b b0 : Bridge) (events : List Event) (x : Transport × List Write × Exit)
      → SameKey b0.transport.codec x.0.codec
      → KeepsKey b0 (after_connecting cancelled b events x).0
  unfolding after_connecting set_state
  after_connecting-KeepsKey cancelled b b0 events (t, out, e) h = ground (arith, h)

  pub begin_run-KeepsKey :
      (cancelled : Bool) (b : Bridge) (rounds : List Round) (attempts : List Attempt)
      → KeepsKey b (begin_run mac cancelled b rounds attempts).0
  unfolding begin_run
  begin_run-KeepsKey cancelled b rounds attempts =
      after_connecting-KeepsKey cancelled (set_state b connecting).0 b (set_state b connecting).1 _
        (either (is_listen b.transport.mode) b.transport.codec _ _
          (wait_for_peer-SameKey mac b.transport rounds)
          (connect_to_peer-SameKey mac b.transport attempts))

  -- From the start of `Run` to any state of it, whatever arrives and in whatever order its loops take
  -- their turns, the codec keeps its key and its mode: with a key it signs what it sends and checks
  -- what it receives, throughout.
  pub run-KeepsKey :
      (f : Float64) (cancelled stats : Bool) (b : Bridge) (rounds : List Round)
      (attempts : List Attempt) (s : System)
      → Reach mac f (started (begin_run mac cancelled b rounds attempts).0 stats) s
      → KeepsKey b s.bridge
  run-KeepsKey f cancelled stats b rounds attempts s r =
      trans-SameKey b.transport.codec (begin_run mac cancelled b rounds attempts).0.transport.codec
        s.bridge.transport.codec (begin_run-KeepsKey cancelled b rounds attempts)
        (reach-KeepsKey f r)
