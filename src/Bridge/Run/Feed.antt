-- ===== src/Bridge/Run/Feed.antt =====
-- internal/bridge/bridge.go: what a bridge queues for injection, against what the other end has sent. The sender's
-- messages and the network are those of `receive_stream-IsPart`.
use mathlib.Core.Path.{subst}
use xbslink_ng.Base.{
  append-nil, ℕ, suc, ◌+◌, ◌^◌, ◌<◌, ◌≤◌, ◌≡◌, refl, sym, ap, ◌∙◌, ◌⊎◌, inl, inr, Bool, true,
  Option, List, [], ◌++◌, arith, All, length, get_or, take, drop-append, drop_all, drop, IsPart,
  nothing,
}
use xbslink_ng.Protocol.{Mac, Codec, decode_message}
use xbslink_ng.Protocol.Messages.{Outgoing, bye}
use xbslink_ng.Protocol.Network.{
  Arrival, sent, forged, wire, IsPossible, IsCounted, Listens, unread, All-at,
}
use xbslink_ng.Protocol.Network.Delivery.{one_sent}
use xbslink_ng.Net.{UdpAddr}
use xbslink_ng.Transport.{Read, timed_out, failed, got, close}
use xbslink_ng.Bridge.Rtt.{Float64}
use xbslink_ng.Bridge.{Bridge, Effect, recv_turn, on_decoded, capture_frame, set_state}
use xbslink_ng.Bridge.Forward.{with_codec}
use xbslink_ng.Bridge.Run.{
  System, Step, Reach, cancel, captured, no_capture, sending, receiving, injecting, pinging,
  stopping, disconnecting, shutting_down, closing, returning, here, next, close_transport,
  close_done, finished,
}
use xbslink_ng.Protocol.Ear.{SameEar, refl-SameEar}
use xbslink_ng.Bridge.Run.Inbound.{
  read_or_ignored, send_ping-KeepsInbound, send_turn-KeepsInbound, say_bye-KeepsInbound,
  closed-KeepsInbound,
}
use xbslink_ng.Bridge.Run.Frames.{frames_in, grown, all_of}
use xbslink_ng.Bridge.Run.Adds.{Adds, dispatch-Adds}
use xbslink_ng.Bridge.Run.Trace.{
  newly_queued, Holds, ReadsOnlyBy, ReadsOnly, frames_queued_by, frames_queued,
}

-- A datagram that the network can deliver: one of those that the sender has made, or one that no
-- codec with the key accepts.
abbrev pub IsOnWire : Mac → Codec → List Outgoing → List ℕ → Type 0
IsOnWire mac s os d = (a : Arrival) × IsPossible mac s.key os a × (d ≡ wire mac s os a)

-- The bridge has taken the message before the k-th; `done` has been queued.
record IsFed (mac : Mac) (s : Codec) (os : List Outgoing) (done : List (List ℕ)) (b : Bridge)
    : Type 0 where
  k : ℕ
  listens : Listens mac s b.transport.codec k
  part : IsPart done (frames_in (take k os))

module _ (mac : Mac) (s : Codec) (os : List Outgoing) where
  kept-IsFed :
      (done : List (List ℕ)) (b b' : Bridge)
      → IsFed mac s os done b
      → SameEar b.transport.codec b'.transport.codec
      → IsFed mac s os (done ++ []) b'
  kept-IsFed done b b' h ear = record {
    k = h.k;
    listens = record {
      same_key = h.listens.same_key ∙ sym ear.key;
      secure = ear.mode ∙ h.listens.secure;
      low = omega (arith, h.listens.low, ear.nonce);
      high = subst (λ (n : ℕ). (h.k ≡ 0) ⊎ (s.send_nonce + h.k ≤ n)) (sym ear.nonce) h.listens.high;
    };
    part =
        subst (λ (xs : List (List ℕ)). IsPart xs (frames_in (take h.k os))) (sym (append-nil done))
          h.part;
  }

  -- A bridge with the codec and the queue of another one.
  same-IsFed :
      (done : List (List ℕ)) (b b' : Bridge)
      → IsFed mac s os done b
      → b' ≡ b
      → IsFed mac s os (done ++ newly_queued b b') b'
  same-IsFed done b b' h e =
      subst (λ (x : Bridge). IsFed mac s os (done ++ newly_queued b x) x) (sym e)
        (subst (λ (xs : List (List ℕ)). IsFed mac s os (done ++ xs) b)
          (sym (drop_all b.frames_to_inject))
          (kept-IsFed done b b h (refl-SameEar b.transport.codec)))

  -- The i-th message, where those before the k-th have been dealt with.
  new-IsFed :
      (done : List (List ℕ)) (b b' : Bridge) (k i : ℕ)
      → k ≤ i
      → i < length os
      → Listens mac s b.transport.codec k
      → IsPart done (frames_in (take k os))
      → Adds
          (with_codec b (record (b.transport.codec) { recv_nonce = s.send_nonce + i + 1 }))
          b'
          (get_or os i bye)
      → IsFed mac s os (done ++ newly_queued b b') b'
  new-IsFed done b b' k i le lt l p a = record {
    k = suc i;
    listens = record {
      same_key = l.same_key ∙ sym a.ear.key;
      secure = a.ear.mode ∙ l.secure;
      low = omega (arith, a.ear.nonce);
      high = inr (omega (arith, a.ear.nonce));
    };
    part =
        subst (λ (xs : List (List ℕ)). IsPart (done ++ xs) (frames_in (take (suc i) os)))
          (sym (
            ap (drop (length b.frames_to_inject)) a.queue
            ∙ drop-append (length b.frames_to_inject) b.frames_to_inject a.added refl))
          (grown os k i le lt p a.part);
  }

  -- A datagram that `recvLoop` decodes.
  decoded-IsFed :
      (f : Float64) (now : ℕ) (write_ok : Bool) (done : List (List ℕ)) (b : Bridge) (d : List ℕ)
      → s.secure_mode ≡ true
      → s.send_nonce + length os + 1 < 2 ^ 64
      → All (IsCounted mac) os
      → IsOnWire mac s os d
      → IsFed mac s os done b
      → let (c, m) = decode_message mac b.transport.codec d in
        let b' = (on_decoded mac f now write_ok (with_codec b c) m).0 in
        IsFed mac s os (done ++ newly_queued b b') b'
  unfolding on_decoded
  decoded-IsFed f now write_ok done b d ss room counted (forged x, possible, e) h =
      let (error, refused) = possible b.transport.codec (sym h.listens.same_key) h.listens.secure in
      rw (e, unread mac b.transport.codec x error refused) (same-IsFed done b b h refl)
  decoded-IsFed f now write_ok done b d ss room counted (sent i, lt, e) h =
      let o = get_or os i bye in
      rw e (elim (one_sent mac s os ss room counted b.transport.codec h.k i h.listens lt) [
        | inl (new, read) ↦ rw read (
            new-IsFed done b _ h.k i new lt h.listens h.part (
              dispatch-Adds mac s f now write_ok
                (with_codec b (record (b.transport.codec) { recv_nonce = s.send_nonce + i + 1 })) o
                (All-at mac os i counted lt)))
        | inr old ↦ rw old (same-IsFed done b b h refl)
      ])

  recv_turn-IsFed :
      (f : Float64) (now : ℕ) (write_ok : Bool) (peer : Option UdpAddr) (done : List (List ℕ))
      (b : Bridge) (r : Read)
      → s.secure_mode ≡ true
      → s.send_nonce + length os + 1 < 2 ^ 64
      → All (IsCounted mac) os
      → Holds (IsOnWire mac s os) r
      → IsFed mac s os done b
      → let b' = (recv_turn mac f now write_ok peer b r).0 in
        IsFed mac s os (done ++ newly_queued b b') b'
  unfolding recv_turn
  recv_turn-IsFed f now write_ok peer done b timed_out ss room counted heard h =
      same-IsFed done b b h refl
  recv_turn-IsFed f now write_ok peer done b failed ss room counted heard h =
      same-IsFed done b b h refl
  recv_turn-IsFed f now write_ok peer done b (got addr d) ss room counted heard h =
      elim (read_or_ignored mac f now write_ok peer b addr d) [
        | inl e ↦ same-IsFed done b _ h (ap (λ (x : Effect). x.0) e)
        | inr e ↦
            subst (λ (x : Effect). IsFed mac s os (done ++ newly_queued b x.0) x.0) (sym e)
              (decoded-IsFed f now write_ok done b d ss room counted heard h)
      ]

  module _ (f : Float64) (ss : s.secure_mode ≡ true) (room : s.send_nonce + length os + 1 < 2 ^ 64)
      (counted : All (IsCounted mac) os) where
    step-IsFed :
        (done : List (List ℕ)) {x y : System} (st : Step mac f x y)
        → ReadsOnlyBy (IsOnWire mac s os) st
        → IsFed mac s os done x.bridge
        → IsFed mac s os (done ++ frames_queued_by st) y.bridge
    unfolding close_transport close_done finished close capture_frame set_state
    step-IsFed done {x = a} (receiving now w r e) heard h =
        recv_turn-IsFed f now w a.peer done a.bridge r ss room counted heard h
    step-IsFed done {x = a} (sending w x rest e q) heard h =
        kept-IsFed done a.bridge _ h
          (send_turn-KeepsInbound mac w (record (a.bridge) { frames_to_send = rest }) x).ear
    step-IsFed done {x = a} (pinging now w e) heard h =
        kept-IsFed done a.bridge _ h (send_ping-KeepsInbound mac now w a.bridge).ear
    step-IsFed done {x = a} (shutting_down w e q r) heard h =
        kept-IsFed done a.bridge _ h (say_bye-KeepsInbound mac w a.bridge).ear
    step-IsFed done {x = a} (disconnecting e q) heard h =
        kept-IsFed done a.bridge _ h (closed-KeepsInbound a.bridge a.bridge.done_closes).ear
    step-IsFed done {x = a} (closing e) heard h =
        kept-IsFed done a.bridge _ h (closed-KeepsInbound a.bridge (a.bridge.done_closes + 1)).ear
    step-IsFed done {x = a} cancel heard h =
        kept-IsFed done a.bridge _ h (refl-SameEar a.bridge.transport.codec)
    step-IsFed done {x = a} (captured x e) heard h =
        kept-IsFed done a.bridge _ h (refl-SameEar a.bridge.transport.codec)
    step-IsFed done {x = a} (no_capture e) heard h =
        kept-IsFed done a.bridge _ h (refl-SameEar a.bridge.transport.codec)
    step-IsFed done {x = a} (injecting x rest e q) heard h =
        kept-IsFed done a.bridge _ h (refl-SameEar a.bridge.transport.codec)
    step-IsFed done {x = a} (stopping l e q) heard h =
        kept-IsFed done a.bridge _ h (refl-SameEar a.bridge.transport.codec)
    step-IsFed done {x = a} (returning r e q) heard h =
        kept-IsFed done a.bridge _ h (refl-SameEar a.bridge.transport.codec)

    reach-IsFed :
        {x y : System} (r : Reach mac f x y)
        → ReadsOnly (IsOnWire mac s os) r
        → IsFed mac s os [] x.bridge
        → IsFed mac s os (frames_queued r) y.bridge
    reach-IsFed here heard h = h
    reach-IsFed (next r st) heard h =
        step-IsFed (frames_queued r) st heard.1 (reach-IsFed r heard.0 h)

  -- With a key, whatever the network does with the datagrams of the other end (it may lose, repeat and
  -- reorder them, and add datagrams that no codec with the key accepts), and in whatever order the
  -- loops take their turns, the frames that a running bridge queues for injection are some of those
  -- that the other end has sent, in their order, and none of them twice. The last nonce is at first not
  -- above the other's, and the other's counter does not reach 2^64.
  pub frames_queued-IsPart :
      (f : Float64) (x y : System) (r : Reach mac f x y)
      → s.key ≡ x.bridge.transport.codec.key
      → s.secure_mode ≡ true
      → x.bridge.transport.codec.secure_mode ≡ true
      → x.bridge.transport.codec.recv_nonce ≤ s.send_nonce
      → s.send_nonce + length os + 1 < 2 ^ 64
      → All (IsCounted mac) os
      → ReadsOnly (IsOnWire mac s os) r
      → IsPart (frames_queued r) (frames_in os)
  frames_queued-IsPart f x y r key ss rs le room counted heard =
      let fed : IsFed mac s os [] x.bridge = record {
        k = 0;
        listens = record { same_key = key; secure = rs; low = omega (arith, le); high = inl refl };
        part = nothing;
      } in
      let last = reach-IsFed f ss room counted r heard fed in all_of os last.k last.part
