-- ===== src/Bridge/Run/Disconnect.antt =====
-- A peer that is lost while the context goes on.
use xbslink_ng.Base.{
  ℕ, ◌+◌, ◌<◌, ◌≤◌, ◌≡◌, refl, Bool, true, false, ◌⊎◌, inl, Option, none, some, List, arith,
  if◌then◌else◌,
}
use mathlib.Core.Path.{subst}
use xbslink_ng.Protocol.{Mac, Codec, Message, Result, ok, err, decode_message, encode_frame}
use xbslink_ng.Net.{UdpAddr}
use xbslink_ng.Transport.{Transport, Read, timed_out, failed, got, SendError, send, close}
use xbslink_ng.Bridge.Rtt.{Float64}
use xbslink_ng.Bridge.{
  Bridge, disconnected, set_state, capture_frame, send_turn, recv_turn, send_ping, dispatch,
  on_decoded, handle_frame, handle_ping, handle_pong, take_pong, handle_bye, on_encoded, count_sent,
  sent_or,
}
use xbslink_ng.Bridge.Forward.{with_codec}
use xbslink_ng.Bridge.Run.{
  Loop, capture_loop, send_loop, recv_loop, inject_loop, ping_loop, stopped, System, Step, Reach,
  Phase, running, leaving, waiting, returned, Reason, started, close_transport, say_bye, close_done,
  finished, cancel, captured, no_capture, sending, receiving, injecting, pinging, stopping,
  disconnecting, shutting_down, closing, returning, here, next,
}

-- What the turns of the loops keep: the transport stays open or closed, and `done` is closed at most
-- through `doneOnce`.
abbrev pub Kept : Bridge → Bridge → Type 0
Kept b b' =
    (b'.transport.closed ≡ b.transport.closed)
    × (((b'.done_closes ≡ b.done_closes) × (b'.done_once ≡ b.done_once))
        ⊎ ((b'.done_closes ≡ b.done_closes + 1) × (b.done_once ≡ false) × (b'.done_once ≡ true)))

handle_pong-Kept : (f : Float64) (now : ℕ) (b : Bridge) (t : ℕ) → Kept b (handle_pong f now b t).0
unfolding handle_pong take_pong
handle_pong-Kept f now b t = ground arith

count_or :
    (b : Bridge) (frame : List ℕ) (e : Option SendError) → Kept b (sent_or e (count_sent b frame) b)
count_or b frame none = (refl, inl (refl, refl))
count_or b frame (some e) = (refl, inl (refl, refl))

module _ (mac : Mac) where
  dispatch-Kept :
      (f : Float64) (now : ℕ) (write_ok : Bool) (b : Bridge) (msg : Message)
      → Kept b (dispatch mac f now write_ok b msg).0
  unfolding dispatch handle_frame handle_ping handle_bye
  dispatch-Kept f now write_ok b msg = ground (arith, handle_pong-Kept f now b msg.timestamp)

  on_decoded-Kept :
      (f : Float64) (now : ℕ) (write_ok : Bool) (b : Bridge) (m : Result Message)
      → Kept b (on_decoded mac f now write_ok b m).0
  unfolding on_decoded
  on_decoded-Kept f now write_ok b (err e) = (refl, inl (refl, refl))
  on_decoded-Kept f now write_ok b (ok msg) = dispatch-Kept f now write_ok b msg

  pub recv_turn-Kept :
      (f : Float64) (now : ℕ) (write_ok : Bool) (peer : Option UdpAddr) (b : Bridge) (r : Read)
      → Kept b (recv_turn mac f now write_ok peer b r).0
  unfolding recv_turn
  recv_turn-Kept f now write_ok peer b timed_out = (refl, inl (refl, refl))
  recv_turn-Kept f now write_ok peer b failed = (refl, inl (refl, refl))
  recv_turn-Kept f now write_ok peer b (got addr bytes) =
      let c = decode_message mac b.transport.codec bytes in
      ground (arith, on_decoded-Kept f now write_ok (with_codec b c.0) c.1)

  pub send_ping-Kept :
      (now : ℕ) (write_ok : Bool) (b : Bridge) → Kept b (send_ping mac now write_ok b).0
  unfolding send_ping
  send_ping-Kept now write_ok b = ground arith

  on_encoded-Kept :
      (write_ok : Bool) (b : Bridge) (frame : List ℕ) (x : Codec × Result (List ℕ))
      → Kept b (on_encoded write_ok b frame x).0
  unfolding on_encoded
  on_encoded-Kept write_ok b frame (c, err e) = (refl, inl (refl, refl))
  on_encoded-Kept write_ok b frame (c, ok m) =
      count_or (with_codec b c) frame (send b.transport m write_ok).1

  pub send_turn-Kept :
      (write_ok : Bool) (b : Bridge) (frame : List ℕ) → Kept b (send_turn mac write_ok b frame).0
  unfolding send_turn
  send_turn-Kept write_ok b frame =
      on_encoded-Kept write_ok b frame (encode_frame mac b.transport.codec frame)

-- What holds of the phases of a reachable system.
abbrev IsPhase : System → Phase → Type 0
IsPhase s running = Unit
IsPhase s leaving = s.cancelled ≡ true
IsPhase s (waiting r) = (s.bridge.transport.closed ≡ true) × (0 < s.bridge.done_closes)
IsPhase s (returned r) =
    (s.bridge.transport.closed ≡ true)
    × (s.bridge.state ≡ disconnected)
    × (0 < s.bridge.done_closes)
    × ((l : Loop) → s.live l ≡ false)

-- While the context goes on the send loop lives, `Run` does not shut down, and `done` has been closed
-- as often as `doneOnce` says.
abbrev bit : Bool → ℕ
bit b = if b then 1 else 0

abbrev GoesOn : System → Type 0
GoesOn s = (s.live send_loop ≡ true) × (s.bridge.done_closes ≡ bit s.bridge.done_once)

abbrev IsRun : System → Type 0
IsRun s = ((s.cancelled ≡ true) ⊎ GoesOn s) × IsPhase s s.phase

turn_phase :
    (s : System) (b : Bridge) (l : Loop) (p : Phase)
    → s.live l ≡ true
    → Kept s.bridge b
    → IsPhase s p
    → IsPhase (record s { bridge = b }) p
turn_phase s b l running on k h = tt
turn_phase s b l leaving on k h = h
turn_phase s b l (waiting r) on k h = ground arith
turn_phase s b l (returned r) on k (c, d, e, dead) = ground (arith, dead l)

turn_going :
    (s : System) (b : Bridge)
    → Kept s.bridge b
    → (s.cancelled ≡ true) ⊎ GoesOn s
    → (s.cancelled ≡ true) ⊎ GoesOn (record s { bridge = b })
turn_going s b k g = ground arith

turn_IsRun :
    (s : System) (b : Bridge) (l : Loop)
    → s.live l ≡ true
    → Kept s.bridge b
    → IsRun s
    → IsRun (record s { bridge = b })
turn_IsRun s b l on k (g, h) = (turn_going s b k g, turn_phase s b l s.phase on k h)

-- A loop that has stopped changes nothing that a phase needs.
stop_phase :
    (s : System) (l : Loop) (p : Phase)
    → IsPhase s p
    → IsPhase (record s { live = stopped l s.live }) p
stop_phase s l running h = tt
stop_phase s l leaving h = h
stop_phase s l (waiting r) h = h
stop_phase s l (returned r) (c, d, e, dead) = (c, d, e, λ k. ground (arith, dead k))

cancel_phase : (s : System) (p : Phase) → IsPhase s p → IsPhase (record s { cancelled = true }) p
cancel_phase s running h = tt
cancel_phase s leaving h = refl
cancel_phase s (waiting r) h = h
cancel_phase s (returned r) h = h

at_phase : (s : System) (p : Phase) → s.phase ≡ p → IsPhase s s.phase → IsPhase s p
at_phase s p e h = subst (IsPhase s) e h

close_closed : (t : Transport) → (close t).closed ≡ true
unfolding close
close_closed t = ground arith

Step-IsRun : {mac : Mac} {f : Float64} {s t : System} → Step mac f s t → IsRun s → IsRun t
unfolding capture_frame close_transport say_bye close_done finished set_state close
Step-IsRun {s} cancel (g, h) = (inl refl, cancel_phase s s.phase h)
Step-IsRun {s} (captured frame on) h =
    turn_IsRun s (capture_frame s.bridge frame) capture_loop on (refl, inl (refl, refl)) h
Step-IsRun {s} (no_capture on) (g, h) = (ground (arith, g), stop_phase s capture_loop s.phase h)
Step-IsRun {mac} {s} (sending write_ok frame rest on e) h =
    let b = record (s.bridge) { frames_to_send = rest } in
    turn_IsRun s (send_turn mac write_ok b frame).0 send_loop on
      (send_turn-Kept mac write_ok b frame) h
Step-IsRun {mac} {f} {s} (receiving now write_ok read on) h =
    turn_IsRun s (recv_turn mac f now write_ok s.peer s.bridge read).0 recv_loop on
      (recv_turn-Kept mac f now write_ok s.peer s.bridge read) h
Step-IsRun {s} (injecting frame rest on e) h =
    turn_IsRun s (record (s.bridge) { frames_to_inject = rest }) inject_loop on
      (refl, inl (refl, refl)) h
Step-IsRun {mac} {s} (pinging now write_ok on) h =
    turn_IsRun s (send_ping mac now write_ok s.bridge).0 ping_loop on
      (send_ping-Kept mac now write_ok s.bridge) h
Step-IsRun {s} (stopping l c on) (g, h) = (inl c, stop_phase s l s.phase h)
Step-IsRun {s} (disconnecting e d) (g, h) = (g, (close_closed s.bridge.transport, d))
Step-IsRun {s} (shutting_down write_ok e c d) (g, h) = (inl c, c)
Step-IsRun {s} (closing e) (g, h) =
    (inl (at_phase s leaving e h), (close_closed s.bridge.transport, omega arith))
Step-IsRun {s} (returning r e dead) (g, h) =
    let (c, d) = at_phase s (waiting r) e h in
    (ground (arith, g, dead send_loop), (c, refl, d, dead))

started-IsRun :
    (b : Bridge) (stats : Bool) → b.done_closes ≡ 0 → b.done_once ≡ false → IsRun (started b stats)
started-IsRun b true d o = (ground arith, tt)
started-IsRun b false d o = (ground arith, tt)

Reach-IsRun : {mac : Mac} {f : Float64} {s t : System} → Reach mac f s t → IsRun s → IsRun t
Reach-IsRun here h = h
Reach-IsRun (next r st) h = Step-IsRun st (Reach-IsRun r h)

-- Once `Run` has started its goroutines, on a bridge whose `done` is open, it returns, whatever the
-- reason, only where the context has been cancelled: with the peer gone alone it waits for its loops
-- for ever. Where it does return from there, every loop has, the transport is closed, the state is
-- disconnected and `done` is closed.
pub returned_cancelled :
    {mac : Mac} {f : Float64} (b : Bridge) (stats : Bool) {t : System} (r : Reason)
    → b.done_closes ≡ 0
    → b.done_once ≡ false
    → Reach mac f (started b stats) t
    → t.phase ≡ returned r
    → (t.cancelled ≡ true)
      × (t.bridge.transport.closed ≡ true)
      × (t.bridge.state ≡ disconnected)
      × (0 < t.bridge.done_closes)
      × ((l : Loop) → t.live l ≡ false)
returned_cancelled b stats {t} r d o reach e =
    let (g, h) = Reach-IsRun reach (started-IsRun b stats d o) in
    let (c, s, n, dead) = at_phase t (returned r) e h in
    (ground (arith, g, dead send_loop), c, s, n, dead)

-- From the start of the goroutines of `Run` on a bridge whose `done` is open: while the context goes on
-- the channel `done` is closed at most once, whatever the loops receive and however many pongs they
-- miss: a second close would be a panic.
pub done_closed_once :
    {mac : Mac} {f : Float64} (b : Bridge) (stats : Bool) {t : System}
    → b.done_closes ≡ 0
    → b.done_once ≡ false
    → Reach mac f (started b stats) t
    → t.cancelled ≡ false
    → t.bridge.done_closes ≤ 1
done_closed_once b stats {t} d o reach c =
    let (g, h) = Reach-IsRun reach (started-IsRun b stats d o) in ground (arith, g)
