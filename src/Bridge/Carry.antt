-- ===== src/Bridge/Carry.antt =====
-- internal/bridge/bridge.go: a series of frames from one bridge through the read buffer of the other to
-- its capture.
mod Tests
use xbslink_ng.Base.{
  ℕ, suc, ◌+◌, ◌%◌, ◌^◌, ◌<◌, ◌≤◌, ◌≡◌, refl, sym, ap, ◌∙◌, Bool, true, false, Option, none, some,
  List, [], ◌∷◌, ◌++◌, arith, All, length, drop, offer, add64, add64-lt, IsU64, overwrite,
  length-overwrite,
}
use xbslink_ng.Protocol.{Mac, Codec, ok, msg_frame, min_ethernet_frame, max_frame_size}
use xbslink_ng.Protocol.RoundTrip.{
  Paired, after_sending, after_sending-le, after_receipt, after_sending-Paired,
  after_receipt-Paired, encode_codec, decode-encode,
}
use xbslink_ng.Protocol.Messages.{frame, transmit, transmit_lem, meaning, type_of, payload_of}
use xbslink_ng.Protocol.Messages.Decoded.{decode_message-datagram}
use xbslink_ng.Net.{UdpAddr, addr_equal}
use xbslink_ng.Transport.{Write, got}
use xbslink_ng.Bridge.Rtt.{Float64}
use xbslink_ng.Bridge.{
  Bridge, Effect, channel_buffer_size, send_turn, recv_turn, dispatch, handle_frame, count_sent,
}
use xbslink_ng.Bridge.Buffer.{Inbox, receive, inject}
use xbslink_ng.Bridge.Buffer.Reuse.{empty_inbox, wire, inject-receive}
use xbslink_ng.Bridge.Forward.{IsUp, with_codec, frame_sent, recv_decoded}

-- A frame of 14 to 1514 bytes, and whether its datagram arrives.
abbrev pub IsFrame : List ℕ × Bool → Type 0
IsFrame x = (min_ethernet_frame ≤ length x.0) × (length x.0 ≤ max_frame_size)

abbrev pub arriving : List (List ℕ × Bool) → List (List ℕ)
arriving [] = []
arriving ((x, true) ∷ xs) = x ∷ arriving xs
arriving ((x, false) ∷ xs) = arriving xs

add64-zero : (x : ℕ) → IsU64 x → x ≡ add64 x 0
unfolding add64
add64-zero x h = omega arith

add64_again : (x n : ℕ) → add64 (add64 x 1) n ≡ add64 x (suc n)
unfolding add64
add64_again x n = omega arith

-- What `injectLoop` has handed to `WritePacket`.
abbrev injected : Option (List ℕ) → List (List ℕ)
injected none = []
injected (some x) = x ∷ []

-- The bridge whose `injectLoop` has taken the next frame from the channel.
abbrev taken : Bridge → Bridge
taken b = record b { frames_to_inject = drop 1 b.frames_to_inject }

-- The two bridges, the queue of the second as slices of its read buffer, and what it has injected.
abbrev pub Line : Type 0
Line = Bridge × Bridge × Inbox × List (List ℕ)

abbrev injected_first : List (List ℕ) → Line → Line
injected_first x (a, b, s, xs) = (a, b, s, x ++ xs)

first_taken :
    (q : List (List ℕ)) (x : List ℕ) → q ≡ [] → drop 1 (offer channel_buffer_size q x) ≡ []
first_taken q x e = rw e refl

module _ (mac : Mac) (f : Float64) (now : ℕ) (peer addr : UdpAddr) where
  -- A datagram that arrives is read and its frame queued, and `injectLoop` takes its turn before the
  -- next one is read.
  abbrev deliver : Bool → List Write → Bridge → Inbox → Bridge × Inbox × List (List ℕ)
  deliver true (w ∷ out) b s =
      let (x, s') = inject (receive mac s w.1) in
      (taken (recv_turn mac f now true (some peer) b (got addr w.1)).0, s', injected x)
  deliver _ _ b s = (b, s, [])

  -- The turns of the loops, frame by frame.
  abbrev pub carry : Bridge → Bridge → Inbox → List (List ℕ × Bool) → Line
  carry a b s [] = (a, b, s, [])
  carry a b s ((x, arrives) ∷ xs) =
      let (a', out, events) = send_turn mac true a x in
      let (b', s', done) = deliver arrives out b s in injected_first done (carry a' b' s' xs)

  -- Both bridges behind a frame that arrives.
  abbrev sender_after : Bridge → List ℕ → Bridge
  sender_after a x = count_sent (with_codec a (after_sending a.transport.codec)) x

  abbrev receiver_after : Bridge → Bridge → List ℕ → Bridge
  receiver_after a b x =
      taken
        (handle_frame (with_codec b (after_receipt a.transport.codec b.transport.codec msg_frame))
          x).0

  one_sent :
      (a : Bridge) (x : List ℕ)
      → IsUp a
      → IsFrame (x, true)
      → send_turn mac true a x
        ≡ (sender_after a x, (a.transport.peer_addr, wire mac a.transport.codec x) ∷ [], [])
  unfolding transmit
  one_sent a x ua size =
      let c = a.transport.codec in
      frame_sent mac a x (wire mac c x) (after_sending c) ua (
        transmit_lem mac c (frame x) size
        ∙ ap (λ (d : Codec). (d, ok (wire mac c x)))
            (encode_codec mac c (type_of (frame x)) (payload_of mac c (frame x))))

  one_read :
      (a b : Bridge) (x : List ℕ)
      → IsUp b
      → Paired a.transport.codec b.transport.codec
      → IsFrame (x, true)
      → addr_equal (some addr) (some peer) ≡ true
      → taken (recv_turn mac f now true (some peer) b (got addr (wire mac a.transport.codec x))).0
        ≡ receiver_after a b x
  unfolding dispatch
  one_read a b x ub p size same =
      let s = a.transport.codec in
      let r = b.transport.codec in
      ap (λ (e : Effect). taken e.0)
        (recv_decoded mac f now true b peer addr (wire mac s x) (after_receipt s r msg_frame)
          (meaning mac s (frame x)) ub.open_socket same
          (decode_message-datagram mac s r (after_receipt s r msg_frame) (frame x) size
            (decode-encode mac s r msg_frame x p)))

  -- A series of frames of 14 to 1514 bytes between two connected bridges with the same key and mode, the
  -- receiver's last nonce not above the sender's, over a link that loses some of their datagrams, where
  -- no write fails, the datagrams come from the peer's address, each frame that arrives is injected
  -- before the next datagram is read, and none waits at first: through the read buffer exactly the
  -- frames that arrive are injected, in their order, as they were sent, none waits in the end, and both
  -- sides have counted their frames modulo 2^64, on counters of 64 bits. The sender's nonce does not reach 2^64, and the
  -- buffer holds at least 1555 bytes.
  pub carries_all :
      (a b : Bridge) (buf : List ℕ) (xs : List (List ℕ × Bool))
      → IsUp a
      → IsUp b
      → Paired a.transport.codec b.transport.codec
      → a.transport.codec.send_nonce + length xs + 1 < 2 ^ 64
      → addr_equal (some addr) (some peer) ≡ true
      → All IsFrame xs
      → b.frames_to_inject ≡ []
      → 1_555 ≤ length buf
      → IsU64 a.stats.tx_packets
      → IsU64 b.stats.rx_packets
      → let (a', b', s', done) = carry a b (empty_inbox b.transport.codec buf) xs in
        (done ≡ arriving xs)
        × (s'.queue ≡ [])
        × (b'.frames_to_inject ≡ [])
        × (a'.stats.tx_packets ≡ add64 a.stats.tx_packets (length xs))
        × (b'.stats.rx_packets ≡ add64 b.stats.rx_packets (length (arriving xs)))
  unfolding handle_frame
  carries_all a b buf [] ua ub p room same sizes none_first big tx rx =
      (refl, refl, none_first, add64-zero _ tx, add64-zero _ rx)
  carries_all a b buf ((x, true) ∷ xs) ua ub p room same sizes none_first big tx rx =
      let m = wire mac a.transport.codec x in
      let a' = sender_after a x in
      let b' = receiver_after a b x in
      let s = empty_inbox b.transport.codec buf in
      let buf' = overwrite buf m in
      let (all, none_left, none_kept, sent_all, got_all) =
        carries_all a' b' buf' xs
          (record { connected = ua.connected; open_socket = ua.open_socket })
          (record { connected = ub.connected; open_socket = ub.open_socket })
          (after_receipt-Paired a.transport.codec b.transport.codec msg_frame p (omega arith))
          (omega (arith, after_sending-le a.transport.codec)) same sizes.1
          (first_taken b.frames_to_inject x none_first) (omega (arith, big, length-overwrite buf m))
          (add64-lt _ _) (add64-lt _ _) in
      let e : carry a b s ((x, true) ∷ xs)
          ≡ injected_first (x ∷ []) (carry a' b' (empty_inbox b'.transport.codec buf') xs) =
        ap
          (λ (e : Effect).
            let (b1, s1, done) = deliver true e.1 b s in injected_first done (carry e.0 b1 s1 xs))
          (one_sent a x ua sizes.0)
        ∙ ap
            (λ (y : Option (List ℕ) × Inbox).
              injected_first (injected y.0)
                (carry a' (taken (recv_turn mac f now true (some peer) b (got addr m)).0) y.1 xs))
            (inject-receive mac a.transport.codec b.transport.codec buf x p sizes.0 big)
        ∙ ap
            (λ (c : Bridge).
              injected_first (x ∷ []) (carry a' c (empty_inbox b'.transport.codec buf') xs))
            (one_read a b x ub p sizes.0 same) in
      (
        ap (λ (c : Line). c.3) e ∙ ap (◌∷◌ x) all,
        ap (λ (c : Line). c.2.queue) e ∙ none_left,
        ap (λ (c : Line). c.1.frames_to_inject) e ∙ none_kept,
        ap (λ (c : Line). c.0.stats.tx_packets) e ∙ sent_all ∙ add64_again _ _,
        ap (λ (c : Line). c.1.stats.rx_packets) e ∙ got_all ∙ add64_again _ _,
      )
  carries_all a b buf ((x, false) ∷ xs) ua ub p room same sizes none_first big tx rx =
      let a' = sender_after a x in
      let s = empty_inbox b.transport.codec buf in
      let (all, none_left, none_kept, sent_all, got_all) =
        carries_all a' b buf xs (record { connected = ua.connected; open_socket = ua.open_socket })
          ub (after_sending-Paired a.transport.codec b.transport.codec p (omega arith))
          (omega (arith, after_sending-le a.transport.codec)) same sizes.1 none_first big
          (add64-lt _ _) rx in
      let e : carry a b s ((x, false) ∷ xs) ≡ carry a' b s xs =
        ap
          (λ (e : Effect).
            let (b1, s1, done) = deliver false e.1 b s in injected_first done (carry e.0 b1 s1 xs))
          (one_sent a x ua sizes.0) in
      (
        ap (λ (c : Line). c.3) e ∙ all,
        ap (λ (c : Line). c.2.queue) e ∙ none_left,
        ap (λ (c : Line). c.1.frames_to_inject) e ∙ none_kept,
        ap (λ (c : Line). c.0.stats.tx_packets) e ∙ sent_all ∙ add64_again _ _,
        ap (λ (c : Line). c.1.stats.rx_packets) e ∙ got_all,
      )
