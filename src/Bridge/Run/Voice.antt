-- ===== src/Bridge/Run/Voice.antt =====
-- internal/bridge/bridge.go: all that a running bridge sends, as one series of messages.
use mathlib.Core.Path.{subst}
use xbslink_ng.Base.{
  append-nil, append_assoc, appends, sizes, ℕ, ◌+◌, ◌<◌, ◌≤◌, ◌≡◌, refl, sym, ap, ◌∙◌, inl, inr,
  true, Bool-cases, ltb, List, [], ◌∷◌, ◌++◌, arith, All, All-map, Any, All-append, length,
  length-append, get_or, get_or-append_left, get_or-append_right, IsPart, nothing, refl-IsPart,
  nil-IsPart, append-IsPart, trans-IsPart, if_true, if_false,
}
use xbslink_ng.Protocol.{Mac, Codec}
use xbslink_ng.Protocol.Messages.{Outgoing, bye}
use xbslink_ng.Protocol.Messages.Decoded.{datagram}
use xbslink_ng.Protocol.Network.{at, IsCounted}
use xbslink_ng.Transport.{Write, close}
use xbslink_ng.Bridge.Rtt.{Float64}
use xbslink_ng.Bridge.{Bridge, channel_buffer_size, capture_frame, set_state}
use xbslink_ng.Bridge.Run.Frames.{frames_in, frames_in-append}
use xbslink_ng.Protocol.Voice.{
  SameVoice, refl-SameVoice, trans-SameVoice, at-SameVoice, datagram-SameVoice, at-add,
}
use xbslink_ng.Bridge.Run.Says.{Says, silent, quiet as unheard}
use xbslink_ng.Bridge.Run.Says.Handlers.{
  send_ping_says, say_bye_says, recv_turn_says, send_turn_says, closed_says,
}
use xbslink_ng.Bridge.Run.Key.{reach-KeepsKey}
use xbslink_ng.Bridge.Run.Trace.{frames_captured_by, frames_captured, writes_by, writes, steps}
use xbslink_ng.Bridge.Run.{
  System, Step, Reach, cancel, captured, no_capture, sending, receiving, injecting, pinging,
  stopping, disconnecting, shutting_down, closing, returning, here, next, close_transport,
  close_done, finished,
}

module _ (mac : Mac) where
  -- The datagram of one of the messages that a codec sends, the first at `s`.
  abbrev pub IsSent : Codec → List Outgoing → Write → Type 0
  IsSent s os w = (i : ℕ) × (i < length os) × (w.1 ≡ datagram mac (at s i) (get_or os i bye))

  more-IsSent :
      (s : Codec) (os more : List Outgoing) (w : Write) → IsSent s os w → IsSent s (os ++ more) w
  more-IsSent s os more w (i, lt, e) =
      (i, grind sizes, e ∙ ap (datagram mac (at s i)) (sym (get_or-append_left os more i bye lt)))

  -- What a bridge has sent since its codec was `s`: a series of messages, not more than its steps; its
  -- writes hold their datagrams, and the frames among them, with those that wait, are some of the
  -- frames captured, in their order.
  pub record HasSaid (s : Codec) (n : ℕ) (out : List Write) (taken : List (List ℕ)) (b : Bridge)
      : Type 0 where
    pub os : List Outgoing
    pub counted : All (IsCounted mac) os
    pub few : length os ≤ n
    pub voice : SameVoice (at s (length os)) b.transport.codec
    pub written : All (IsSent s os) out
    pub frames : IsPart (frames_in os ++ b.frames_to_send) taken

  -- A step that sends at most one message.
  says-HasSaid :
      (s : Codec) (n : ℕ) (out more : List Write) (taken : List (List ℕ)) (b b' : Bridge)
      → b.transport.codec.secure_mode ≡ true
      → HasSaid s n out taken b
      → Says mac b b' more
      → HasSaid s (n + 1) (out ++ more) taken b'
  says-HasSaid s n out more taken b b' secure h say = record {
    os = h.os ++ say.said;
    counted = All-append (IsCounted mac) h.os say.said h.counted say.counted;
    few = grind (sizes, h.few, say.one);
    voice =
        subst (λ (c : Codec). SameVoice c b'.transport.codec) (sym (numbered h.os say.said))
          (trans-SameVoice (at (at s (length h.os)) (length say.said))
            (at b.transport.codec (length say.said)) b'.transport.codec
            (at-SameVoice (at s (length h.os)) b.transport.codec (length say.said) h.voice)
            say.voice);
    written =
        All-append (IsSent s (h.os ++ say.said)) out more
          (All-map (more-IsSent s h.os say.said) out h.written)
          (All-map (λ (w : Write) p. new_one w say.said say.counted say.one p) more say.written);
    frames =
        trans-IsPart
          (subst (λ (x : List (List ℕ)). IsPart x (frames_in h.os ++ b.frames_to_send))
            (regrouped h.os say.said b'.frames_to_send)
            (append-IsPart (refl-IsPart (frames_in h.os)) say.frames))
          h.frames;
  }
    where
      numbered :
          (os said : List Outgoing)
          → at s (length (os ++ said)) ≡ at (at s (length os)) (length said)
      numbered os said = ap (at s) (length-append os said) ∙ at-add s (length os) (length said)

      regrouped :
          (os said : List Outgoing) (q : List (List ℕ))
          → frames_in os ++ (frames_in said ++ q) ≡ frames_in (os ++ said) ++ q
      regrouped os said q = simp (appends, frames_in-append)

      new_one :
          (w : Write) (said : List Outgoing)
          → All (IsCounted mac) said
          → length said ≤ 1
          → Any (λ (o : Outgoing). w.1 ≡ datagram mac b.transport.codec o) said
          → IsSent s (h.os ++ said) w
      new_one w [] c one p = elim p [ ]
      new_one w (o ∷ []) c one (inr p) = elim p [ ]
      new_one w (o ∷ []) c one (inl e) = (
        length h.os,
        grind sizes,
        e
            ∙ datagram-SameVoice mac (at s (length h.os)) b.transport.codec o
                (sym h.voice.mode ∙ secure) c.0 h.voice
            ∙ ap (datagram mac (at s (length h.os))) (sym (get_or-append_right h.os o [] bye)),
      )
      new_one w (o ∷ x ∷ said) c one p = absurd (omega arith)

  -- A frame that the capture loop offers to the queue.
  captured-HasSaid :
      (s : Codec) (n : ℕ) (out : List Write) (taken : List (List ℕ)) (b : Bridge) (x : List ℕ)
      → HasSaid s n out taken b
      → HasSaid s (n + 1) (out ++ []) (taken ++ (x ∷ [])) (capture_frame b x)
  unfolding capture_frame
  captured-HasSaid s n out taken b x h = record {
    os = h.os;
    counted = h.counted;
    few = omega (arith, h.few);
    voice = h.voice;
    written = All-append (IsSent s h.os) out [] h.written tt;
    frames = elim (Bool-cases (ltb (length b.frames_to_send) channel_buffer_size)) [
      | inl e ↦
          subst (λ (q : List (List ℕ)). IsPart (frames_in h.os ++ q) (taken ++ (x ∷ [])))
            (sym (if_true _ _ e))
            (subst (λ (q : List (List ℕ)). IsPart q (taken ++ (x ∷ [])))
              (append_assoc (frames_in h.os) b.frames_to_send (x ∷ []))
              (append-IsPart h.frames (refl-IsPart (x ∷ []))))
      | inr e ↦
          subst (λ (q : List (List ℕ)). IsPart (frames_in h.os ++ q) (taken ++ (x ∷ [])))
            (sym (if_false _ _ e))
            (subst (λ (q : List (List ℕ)). IsPart q (taken ++ (x ∷ [])))
              (append-nil (frames_in h.os ++ b.frames_to_send))
              (append-IsPart h.frames (nil-IsPart (x ∷ []))))
    ];
  }

  -- The same with nothing captured.
  nothing_captured :
      (s : Codec) (n : ℕ) (out : List Write) (taken : List (List ℕ)) (b : Bridge)
      → HasSaid s n out taken b
      → HasSaid s n out (taken ++ []) b
  nothing_captured s n out taken b h =
      subst (λ (xs : List (List ℕ)). HasSaid s n out xs b) (sym (append-nil taken)) h

  -- What each step but that of the capture loop sends.
  step_says :
      (f : Float64) {x y : System} (st : Step mac f x y)
      → frames_captured_by st ≡ []
      → x.bridge.transport.codec.secure_mode ≡ true
      → Says mac x.bridge y.bridge (writes_by st)
  unfolding close_transport close_done finished close set_state
  step_says f (captured x e) none secure = absurd cc
  step_says f {x = a} (receiving now w r e) none secure =
      recv_turn_says mac f now w a.peer a.bridge r secure
  step_says f {x = a} (sending w x rest e q) none secure = send_turn_says mac w a.bridge x rest q
  step_says f {x = a} (pinging now w e) none secure = send_ping_says mac now w a.bridge
  step_says f {x = a} (shutting_down w e q r) none secure = say_bye_says mac w a.bridge
  step_says f {x = a} (disconnecting e q) none secure =
      closed_says mac a.bridge a.bridge.done_closes
  step_says f {x = a} (closing e) none secure = closed_says mac a.bridge (a.bridge.done_closes + 1)
  step_says f {x = a} cancel none secure = unheard mac a.bridge
  step_says f {x = a} (no_capture e) none secure = unheard mac a.bridge
  step_says f {x = a} (injecting x rest e q) none secure =
      silent mac a.bridge _ (refl-SameVoice a.bridge.transport.codec) refl
  step_says f {x = a} (stopping l e q) none secure = unheard mac a.bridge
  step_says f {x = a} (returning r e q) none secure =
      silent mac a.bridge _ (refl-SameVoice a.bridge.transport.codec) refl

  module _ (f : Float64) (s : Codec) where
    step-HasSaid :
        (n : ℕ) (out : List Write) (taken : List (List ℕ)) {x y : System} (st : Step mac f x y)
        → x.bridge.transport.codec.secure_mode ≡ true
        → HasSaid s n out taken x.bridge
        → HasSaid s (n + 1) (out ++ writes_by st) (taken ++ frames_captured_by st) y.bridge
    unfolding close_transport close_done finished close set_state
    step-HasSaid n out taken {x = a} (captured x e) secure h =
        captured-HasSaid s n out taken a.bridge x h
    step-HasSaid n out taken {x = a} {y = y} st secure h =
        nothing_captured s (n + 1) (out ++ writes_by st) taken y.bridge (
          says-HasSaid s n out (writes_by st) taken a.bridge y.bridge secure h
            (step_says f st refl secure))

    reach-HasSaid :
        {x y : System} (r : Reach mac f x y)
        → x.bridge.transport.codec.secure_mode ≡ true
        → HasSaid s 0 [] [] x.bridge
        → HasSaid s (steps r) (writes r) (frames_captured r) y.bridge
    reach-HasSaid here secure h = h
    reach-HasSaid (next {t = t} r st) secure h =
        step-HasSaid (steps r) (writes r) (frames_captured r) st
          ((reach-KeepsKey mac f r).1 ∙ secure) (reach-HasSaid r secure h)

  -- From a state with nothing to send on, in secure mode: all that a running bridge writes are the
  -- datagrams of one series of messages, at most one for each step, and the frames among these are
  -- some of the frames captured, in their order.
  pub run-HasSaid :
      (f : Float64) {x y : System} (r : Reach mac f x y)
      → x.bridge.transport.codec.secure_mode ≡ true
      → x.bridge.frames_to_send ≡ []
      → HasSaid x.bridge.transport.codec (steps r) (writes r) (frames_captured r) y.bridge
  run-HasSaid f {x = a} r secure empty = reach-HasSaid f a.bridge.transport.codec r secure (record {
    os = [];
    counted = tt;
    few = omega arith;
    voice = refl-SameVoice a.bridge.transport.codec;
    written = tt;
    frames = subst (λ (q : List (List ℕ)). IsPart q []) (sym empty) nothing;
  })
