-- ===== src/Protocol/Network/Delivery.antt =====
-- What is read of a stream that such a network has carried.
use native.Mathlib.Decide.{dec_lt}
use xbslink_ng.Base.{
  ℕ, suc, ◌+◌, ◌^◌, ◌<◌, ◌≤◌, ◌≡◌, refl, ap, ap₂, sym, ◌∙◌, ◌⊎◌, inl, inr, true, List, [], ◌∷◌,
  arith, All, length, get_or, drop, IsPart, nil-IsPart, keep_at,
}
use xbslink_ng.Protocol.{Mac, Codec, ok, err, replay_detected, Message, decode_message}
use xbslink_ng.Protocol.Messages.{Outgoing, bye, meaning}
use xbslink_ng.Protocol.Stream.{receive_stream}
use xbslink_ng.Protocol.Network.{
  Arrival, sent, forged, at, oks, at-lem, wire, wires, IsPossible, IsCounted, wire_lem, taken,
  refused, meaning-at, said, All-at, Listens, Delivers, unread, step_to,
}

module _ (mac : Mac) where
  module _ (s : Codec) (os : List Outgoing) (ss : s.secure_mode ≡ true)
      (room : s.send_nonce + length os + 1 < 2 ^ 64) (h : All (IsCounted mac) os) where
    pub one_sent :
        (r : Codec) (k i : ℕ)
        → Listens mac s r k
        → i < length os
        → ((k ≤ i)
            × (decode_message mac r (wire mac s os (sent i)) ≡ (
              record r { recv_nonce = s.send_nonce + i + 1 },
              ok (meaning mac s (get_or os i bye)),
            )))
          ⊎ (decode_message mac r (wire mac s os (sent i)) ≡ (r, err replay_detected))
    one_sent r k i l lt =
        let o = get_or os i bye in
        let counted = All-at mac os i h lt in
        let (n, key, mode) = at-lem s i ss (omega (arith, room)) in
        let w = ap (decode_message mac r) (wire_lem mac s os i h lt) in
        let room' : (at s i).send_nonce + 1 < 2 ^ 64 = omega (arith, n, room) in
        elim (dec_lt i k) [
          | yes old ↦ inr (
              w
              ∙ refused mac (at s i) r o (key ∙ l.same_key) mode l.secure room' counted
                  (ground (arith, n, l.high, old)))
          | no new ↦ inl (
            omega (arith, new),
            w
                ∙ taken mac (at s i) r o (key ∙ l.same_key) mode l.secure room' counted
                    (omega (arith, n, l.low, new))
                ∙ ap₂ (λ (n : ℕ) (m : Message). (record r { recv_nonce = n + 1 }, ok m)) n
                    (meaning-at mac s i o),
          )
        ]

    delivers :
        (r : Codec) (k : ℕ) (arrivals : List Arrival)
        → Listens mac s r k
        → All (IsPossible mac s.key os) arrivals
        → Delivers mac s os k (receive_stream mac r (wires mac s os arrivals))
    unfolding receive_stream
    delivers r k [] l p = ([], nil-IsPart (drop k os), refl)
    delivers r k (forged d ∷ later) l p =
        let (e, x) = p.0 r (sym l.same_key) l.secure in
        step_to mac s os k r r d (wires mac s os later) (err e) (unread mac r d e x)
          (delivers r k later l p.1)
    delivers r k (sent i ∷ later) l p = elim (one_sent r k i l p.0) [
      | inl (new, e) ↦
          (let r' = record r { recv_nonce = s.send_nonce + i + 1 } in
            let listens : Listens mac s r' (suc i) = record {
              same_key = l.same_key;
              secure = l.secure;
              low = omega arith;
              high = inr (omega arith);
            } in
            let (rest, part, read) = delivers r' (suc i) later listens p.1 in
            step_to mac s os k r r' (wire mac s os (sent i)) (wires mac s os later) _ e (
              get_or os i bye ∷ rest,
              keep_at os k i bye new p.0 part,
              ap (λ (ms : List Message). meaning mac s (get_or os i bye) ∷ ms) read,
            ))
      | inr e ↦
          step_to mac s os k r r (wire mac s os (sent i)) (wires mac s os later) _ e
            (delivers r k later l p.1)
    ]

  -- With a key, whatever the network does with the datagrams of a sender (it may lose, repeat and
  -- reorder them, and add datagrams that no codec with the key accepts), the messages that the
  -- receiver reads are some of the frames, pings, pongs and byes that were sent, in the order in which
  -- they were sent, and none of them twice; its last nonce is at first not above the sender's, and the
  -- sender's counter does not reach 2^64.
  pub receive_stream-IsPart :
      (s r : Codec) (os : List Outgoing) (arrivals : List Arrival)
      → s.key ≡ r.key
      → s.secure_mode ≡ true
      → r.secure_mode ≡ true
      → r.recv_nonce ≤ s.send_nonce
      → s.send_nonce + length os + 1 < 2 ^ 64
      → All (IsCounted mac) os
      → All (IsPossible mac s.key os) arrivals
      → (taken : List Outgoing) × IsPart taken os
        × (oks (receive_stream mac r (wires mac s os arrivals)) ≡ said mac s taken)
  receive_stream-IsPart s r os arrivals key ss rs le room h p =
      delivers s os ss room h r 0 arrivals
        (record { same_key = key; secure = rs; low = omega (arith, le); high = inl refl }) p
