-- ===== src/Bridge/Run/Tunnel.antt =====
-- internal/bridge/bridge.go and internal/protocol/protocol.go: two running bridges and the network
-- between them. The frames that leave one bridge are values at the time at which they are queued; what
-- becomes of the read buffer behind them is in Bridge/Buffer.
pub mod ColdStart
mod Tests
use xbslink_ng.Base.{
  ℕ, ◌+◌, ◌^◌, ◌<◌, ◌≤◌, ◌≡◌, refl, sym, ◌∙◌, ◌++◌, subst, ◌⊎◌, inl, inr, true, List, [], ◌∷◌,
  arith, All, Any, length, IsPart, trans-IsPart, prefix-IsPart,
}
use xbslink_ng.Protocol.{Mac, Codec, err, Error, decode}
use xbslink_ng.Protocol.Messages.{Outgoing}
use xbslink_ng.Protocol.Network.{Arrival, sent, forged, wire_lem, IsCounted}
use xbslink_ng.Transport.{Write}
use xbslink_ng.Bridge.Rtt.{Float64}
use xbslink_ng.Bridge.Run.Frames.{frames_in}
use xbslink_ng.Bridge.Run.Feed.{IsOnWire, frames_queued-IsPart}
use xbslink_ng.Bridge.Run.Trace.{
  frames_captured, frames_queued, writes, steps, ReadsOnly, map-ReadsOnly,
}
use xbslink_ng.Bridge.Run.Voice.{IsSent, HasSaid, run-HasSaid}
use xbslink_ng.Bridge.Run.{System, Reach}

module _ (mac : Mac) where
  -- A datagram of one of the writes, or one that no codec with the key accepts.
  abbrev pub IsCarried : List ℕ → List Write → List ℕ → Type 0
  IsCarried key out d =
      Any (λ (w : Write). w.1 ≡ d) out
      ⊎ ((x : Codec)
          → x.key ≡ key
          → x.secure_mode ≡ true
          → (e : Error) × (decode mac x d ≡ (x, err e)))

  written-IsOnWire :
      (s : Codec) (os : List Outgoing) (out : List Write) (d : List ℕ)
      → All (IsCounted mac) os
      → All (IsSent mac s os) out
      → Any (λ (w : Write). w.1 ≡ d) out
      → IsOnWire mac s os d
  written-IsOnWire s os [] d counted h p = elim p [ ]
  written-IsOnWire s os (w ∷ out) d counted h (inl e) =
      let (i, lt, made) = h.0 in (sent i, lt, sym e ∙ made ∙ sym (wire_lem mac s os i counted lt))
  written-IsOnWire s os (w ∷ out) d counted h (inr p) = written-IsOnWire s os out d counted h.1 p

  carried-IsOnWire :
      (s : Codec) (os : List Outgoing) (out : List Write) (d : List ℕ)
      → All (IsCounted mac) os
      → All (IsSent mac s os) out
      → IsCarried s.key out d
      → IsOnWire mac s os d
  carried-IsOnWire s os out d counted h (inl p) = written-IsOnWire s os out d counted h p
  carried-IsOnWire s os out d counted h (inr p) = (forged d, p, refl)

  -- Two running bridges with the same key, and a network that may lose, repeat and reorder the
  -- datagrams of the first and add any that no codec with the key accepts: whatever arrives at both and
  -- in whatever order their loops take their turns, the frames that the second queues for injection
  -- are some of those that the first has captured, in their order, and none of them twice. At first the
  -- queue of the first is empty and the last nonce of the second not above the first's counter, as a
  -- handshake leaves them, and the steps of the first do not carry its counter to 2^64.
  pub queued-IsPart-captured :
      (f g : Float64) (a a' b b' : System) (sender : Reach mac f a a') (receiver : Reach mac g b b')
      → a.bridge.transport.codec.key ≡ b.bridge.transport.codec.key
      → a.bridge.transport.codec.secure_mode ≡ true
      → b.bridge.transport.codec.secure_mode ≡ true
      → b.bridge.transport.codec.recv_nonce ≤ a.bridge.transport.codec.send_nonce
      → a.bridge.transport.codec.send_nonce + steps sender + 1 < 2 ^ 64
      → a.bridge.frames_to_send ≡ []
      → ReadsOnly (IsCarried a.bridge.transport.codec.key (writes sender)) receiver
      → IsPart (frames_queued receiver) (frames_captured sender)
  queued-IsPart-captured f g a a' b b' sender receiver key sa sb le room empty carried =
      let s = a.bridge.transport.codec in
      let h = run-HasSaid mac f sender sa empty in
      trans-IsPart
        (frames_queued-IsPart mac s h.os g b b' receiver key sa sb le (omega (arith, h.few, room))
          h.counted
          (map-ReadsOnly (λ d. carried-IsOnWire s h.os (writes sender) d h.counted h.written)
            receiver carried))
        (trans-IsPart (prefix-IsPart (frames_in h.os) a'.bridge.frames_to_send) h.frames)
