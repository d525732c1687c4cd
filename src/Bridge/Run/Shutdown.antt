-- ===== src/Bridge/Run/Shutdown.antt =====
-- The ends of a run whose context is cancelled.
use xbslink_ng.Base.{
  ℕ, All, All-map, ◌+◌, ◌<◌, ◌≡◌, refl, ap, ◌∙◌, Bool, true, false, ◌⊎◌, inl, inr, ◌||◌, Option,
  none, some, List, [], ◌∷◌, arith, if_false, Bool-cases, not,
}
use native.Mathlib.Decide.{ℕ_discrete}
use xbslink_ng.Protocol.{Mac, Codec, msg_bye, encode_bye}
use mathlib.Core.Path.{subst}
use xbslink_ng.Protocol.RoundTrip.{encode_codec, Paired, after_sending, after_receipt}
use xbslink_ng.Protocol.Messages.{bye, meaning}
use xbslink_ng.Protocol.Messages.Decoded.{decode_message-transmit}
use xbslink_ng.Net.{UdpAddr, addr_equal}
use xbslink_ng.Transport.{Transport, Write, SendError, got, send_bye}
use xbslink_ng.Bridge.Rtt.{Float64}
use xbslink_ng.Bridge.{Bridge, Effect, dispatch, recv_turn, handle_bye, close_done_once}
use xbslink_ng.Bridge.Forward.{IsUp, with_codec, recv_decoded}
use xbslink_ng.Bridge.Run.{
  Loop, capture_loop, send_loop, recv_loop, inject_loop, ping_loop, stats_loop, stdin_loop, stopped,
  System, Reach, running, leaving, waiting, returned, Reason, peer_disconnected, shut_down,
  close_transport, say_bye, close_done, finished, receiving, stopping, disconnecting, shutting_down,
  closing, returning, here, next,
}

-- What follows from a step that stops one loop.
abbrev Quiet : (Loop → Bool) → Loop → Type 0
Quiet live l = live l ≡ false

abbrev every_loop : List Loop
every_loop =
    capture_loop ∷ send_loop ∷ recv_loop ∷ inject_loop ∷ ping_loop ∷ stats_loop ∷ stdin_loop ∷ []

abbrev with_live : System → (Loop → Bool) → System
with_live s live = record s { live = live }

stopped_off : (l : Loop) (live : Loop → Bool) (k : Loop) → Quiet live k → Quiet (stopped l live) k
stopped_off l live k h = ground (arith, h)

stopped_self : (l : Loop) (live : Loop → Bool) → Quiet (stopped l live) l
stopped_self capture_loop live = refl
stopped_self send_loop live = refl
stopped_self recv_loop live = refl
stopped_self inject_loop live = refl
stopped_self ping_loop live = refl
stopped_self stats_loop live = refl
stopped_self stdin_loop live = refl

say_bye_lem :
    (mac : Mac) (b : Bridge)
    → IsUp b
    → say_bye true mac b ≡ with_codec b (after_sending b.transport.codec)
unfolding say_bye send_bye encode_bye
say_bye_lem mac b up =
    ap (λ (x : Transport × List Write × Option SendError). record b { transport = x.0 })
      (if_false {b = not b.transport.connected || b.transport.closed} (b.transport, [], none) _
        (ground (arith, up.connected, up.open_socket)))
    ∙ ap (λ (c : Codec). with_codec b c) (encode_codec mac b.transport.codec msg_bye [])

bye_closes : (b : Bridge) → b.done_once ≡ false → (handle_bye b).0.done_closes ≡ b.done_closes + 1
unfolding handle_bye close_done_once
bye_closes b o = ground arith

module _ {mac : Mac} {f : Float64} where
  -- A reachable system whose loops are those of `s` or fewer, and do not include `l`.
  stop_one :
      (s t : System) (l : Loop)
      → t.cancelled ≡ true
      → Reach mac f s t
      → (live : Loop → Bool) × Reach mac f s (with_live t live)
        × Quiet live l
        × ((k : Loop) → Quiet t.live k → Quiet live k)
  stop_one s t l c r = elim (Bool-cases (t.live l)) [
    | inl on ↦
        (stopped l t.live, next r (stopping l c on), stopped_self l t.live, stopped_off l t.live)
    | inr off ↦ (t.live, r, off, λ k h. h)
  ]

  stop_list :
      (s t : System) (ls : List Loop)
      → t.cancelled ≡ true
      → Reach mac f s t
      → (live : Loop → Bool) × Reach mac f s (with_live t live) × All (Quiet live) ls
  stop_list s t [] c r = (t.live, r, tt)
  stop_list s t (l ∷ ls) c r =
      let (live, r', q) = stop_list s t ls c r in
      let (live', r'', off, keep) = stop_one s (with_live t live) l c r' in
      (live', r'', (off, All-map keep ls q))

  stop_all :
      (s t : System)
      → t.cancelled ≡ true
      → Reach mac f s t
      → (live : Loop → Bool) × Reach mac f s (with_live t live) × ((l : Loop) → Quiet live l)
  stop_all s t c r =
      let (live, r', q) = stop_list s t every_loop c r in
      (
        live,
        r',
        elim [
          | capture_loop ↦ q.0
          | send_loop ↦ q.1.0
          | recv_loop ↦ q.1.1.0
          | inject_loop ↦ q.1.1.1.0
          | ping_loop ↦ q.1.1.1.1.0
          | stats_loop ↦ q.1.1.1.1.1.0
          | stdin_loop ↦ q.1.1.1.1.1.1.0
        ],
      )

  pub from_waiting :
      (s t : System) (r : Reason)
      → t.cancelled ≡ true
      → t.phase ≡ waiting r
      → Reach mac f s t
      → (u : System) × Reach mac f s u × (u.phase ≡ returned r)
  from_waiting s t r c p reach =
      let (live, reach', dead) = stop_all s t c reach in
      (
        record t { live = live; bridge = finished t.bridge; phase = returned r },
        next reach' (returning r p dead),
        refl,
      )

  -- Once the context is cancelled a running bridge can always return: with the error of a lost peer
  -- where `done` has been closed, and without an error where it has not.
  pub cancelled_returns :
      (s : System)
      → s.phase ≡ running
      → s.cancelled ≡ true
      → (t : System) × Reach mac f s t
        × (((0 < s.bridge.done_closes) × (t.phase ≡ returned peer_disconnected))
            ⊎ ((s.bridge.done_closes ≡ 0) × (t.phase ≡ returned shut_down)))
  cancelled_returns s p c = elim (ℕ_discrete s.bridge.done_closes 0) [
    | yes z ↦
        (let t = record s {
          bridge = close_done (say_bye true mac s.bridge);
          phase = waiting shut_down;
        } in
          let reach : Reach mac f s t =
            next (next here (shutting_down true p c z)) (closing refl) in
          let (u, reach', e) = from_waiting s t shut_down c refl reach in (u, reach', inr (z, e)))
    | no lost ↦
        (let t = record s {
          bridge = close_transport s.bridge;
          phase = waiting peer_disconnected;
        } in
          let n : 0 < s.bridge.done_closes = omega (arith, lost) in
          let (u, reach', e) =
            from_waiting s t peer_disconnected c refl (next here (disconnecting p n)) in
          (u, reach', inl (n, e)))
  ]

  -- A running bridge that the context has cancelled and whose peer says BYE at that moment, in a
  -- datagram read before the socket is closed: the BYE closes `done` through `doneOnce`, and `Run`,
  -- which has already chosen to shut down, closes it a second time, which is a panic.
  pub bye_at_shutdown :
      (s : System) (peer addr : UdpAddr) (other : Codec)
      → s.phase ≡ running
      → s.cancelled ≡ true
      → s.bridge.done_closes ≡ 0
      → s.bridge.done_once ≡ false
      → IsUp s.bridge
      → s.live recv_loop ≡ true
      → s.peer ≡ some peer
      → addr_equal (some addr) (some peer) ≡ true
      → Paired other s.bridge.transport.codec
      → (t : System) × Reach mac f s t × (t.bridge.done_closes ≡ 2)
  unfolding dispatch close_done
  bye_at_shutdown s peer addr other p c d o up on sp same pair =
      let mine = s.bridge.transport.codec in
      let b = with_codec s.bridge (after_sending mine) in
      let pair' : Paired other (after_sending mine) = ground (arith, pair) in
      let (m, made, taken) = decode_message-transmit mac other (after_sending mine) bye pair' tt in
      let r =
        recv_decoded mac f 0 true b peer addr m (after_receipt other (after_sending mine) msg_bye)
          (meaning mac other bye) up.open_socket same taken in
      let left : Reach mac f s (record s { bridge = b; phase = leaving }) =
        subst (λ x. Reach mac f s (record s { bridge = x; phase = leaving }))
          (say_bye_lem mac s.bridge up) (next here (shutting_down true p c d)) in
      let b' = (recv_turn mac f 0 true s.peer b (got addr m)).0 in
      (
        record s { bridge = close_done b'; phase = waiting shut_down },
        next (next left (receiving 0 true (got addr m) on)) (closing refl),
        ap (λ (x : Option UdpAddr). (recv_turn mac f 0 true x b (got addr m)).0.done_closes + 1) sp
            ∙ ap (λ (x : Effect). x.0.done_closes + 1) r
            ∙ ap (λ (n : ℕ). n + 1)
                (bye_closes (with_codec b (after_receipt other (after_sending mine) msg_bye)) o)
            ∙ ap (λ (n : ℕ). n + 1 + 1) d,
      )
