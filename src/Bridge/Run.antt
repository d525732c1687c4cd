-- ===== src/Bridge/Run.antt =====
-- internal/bridge/bridge.go: `Run` once it is connected, with its goroutines, as a step relation. The
-- steps of the loops are the turns of the handlers; a loop returns where it finds the context
-- cancelled, and `Run` returns once all of them have.
pub mod Disconnect
pub mod Shutdown
pub mod Key
pub mod Inbound
pub mod Frames
pub mod Trace
pub mod Adds
pub mod Feed
pub mod Says
pub mod Voice
pub mod Tunnel
pub mod Guarded
mod Tests
use xbslink_ng.Base.{
  ℕ, ◌+◌, ◌<◌, ◌≡◌, Bool, true, false, ◌&&◌, Option, List, [], ◌∷◌, ◌==◌, if◌then◌else◌,
}
use xbslink_ng.Protocol.{Mac}
use xbslink_ng.Net.{UdpAddr}
use xbslink_ng.Transport.{Read, close, send_bye}
use xbslink_ng.Bridge.Rtt.{Float64}
use xbslink_ng.Bridge.{
  Bridge, State, disconnected, set_state, capture_frame, send_turn, recv_turn, send_ping,
}

-- The goroutines of `Run`, in the order in which it starts them.
pub data Loop : Type 0 where
  capture_loop send_loop recv_loop inject_loop ping_loop stats_loop stdin_loop : Loop

abbrev number : Loop → ℕ
number capture_loop = 1
number send_loop = 2
number recv_loop = 3
number inject_loop = 4
number ping_loop = 5
number stats_loop = 6
number stdin_loop = 7

abbrev pub stopped : Loop → (Loop → Bool) → Loop → Bool
stopped l live k = if number k == number l then false else live k

-- `ErrPeerDisconnected` or nil.
pub data Reason : Type 0 where
  peer_disconnected shut_down : Reason

-- `Run` waits in its `select`; it has chosen to shut down and is about to close `done`; it waits for
-- the goroutines; it has returned.
pub data Phase : Type 0 where
  running leaving : Phase
  waiting returned : Reason → Phase

-- `peer` is the address that `recvLoop` has read.
pub record System : Type 0 where
  pub bridge : Bridge
  pub peer : Option UdpAddr
  pub cancelled : Bool
  pub phase : Phase
  pub live : Loop → Bool

-- `Run` has started its goroutines; `statsLoop` only where the interval is positive.
abbrev pub started : Bridge → Bool → System
started b stats = record {
  bridge = b;
  peer = b.transport.peer_addr;
  cancelled = false;
  phase = running;
  live = if stats then (λ l. true) else stopped stats_loop (λ l. true);
}

-- The step that `Run` takes when it finds `done` open.
unfoldable pub say_bye : Bool → Mac → Bridge → Bridge
say_bye write_ok mac b = record b { transport = (send_bye mac b.transport write_ok).0 }

-- `close(b.done)` and `b.transport.Close()`.
unfoldable pub close_done : Bridge → Bridge
close_done b = record b { done_closes = b.done_closes + 1; transport = close b.transport }

unfoldable pub close_transport : Bridge → Bridge
close_transport b = record b { transport = close b.transport }

unfoldable pub finished : Bridge → Bridge
unfolding set_state
finished b = (set_state b disconnected).0

-- A capture that goes missing (`cap == nil`) ends the capture loop at any time.
pub data Step (mac : Mac) (f : Float64) (s : System) : System → Type 0 where
  cancel : Step mac f s (record s { cancelled = true })
  captured :
      (frame : List ℕ)
      → s.live capture_loop ≡ true
      → Step mac f s (record s { bridge = capture_frame s.bridge frame })
  no_capture :
      s.live capture_loop ≡ true → Step mac f s (record s { live = stopped capture_loop s.live })
  sending :
      (write_ok : Bool) (frame : List ℕ) (rest : List (List ℕ))
      → s.live send_loop ≡ true
      → s.bridge.frames_to_send ≡ frame ∷ rest
      → Step mac f s (record s {
        bridge = (send_turn mac write_ok (record (s.bridge) { frames_to_send = rest }) frame).0;
      })
  receiving :
      (now : ℕ) (write_ok : Bool) (read : Read)
      → s.live recv_loop ≡ true
      → Step mac f s (record s { bridge = (recv_turn mac f now write_ok s.peer s.bridge read).0 })
  injecting :
      (frame : List ℕ) (rest : List (List ℕ))
      → s.live inject_loop ≡ true
      → s.bridge.frames_to_inject ≡ frame ∷ rest
      → Step mac f s (record s { bridge = record (s.bridge) { frames_to_inject = rest } })
  pinging :
      (now : ℕ) (write_ok : Bool)
      → s.live ping_loop ≡ true
      → Step mac f s (record s { bridge = (send_ping mac now write_ok s.bridge).0 })
  stopping :
      (l : Loop)
      → s.cancelled ≡ true
      → s.live l ≡ true
      → Step mac f s (record s { live = stopped l s.live })
  disconnecting :
      s.phase ≡ running
      → 0 < s.bridge.done_closes
      → Step mac f s
          (record s { bridge = close_transport s.bridge; phase = waiting peer_disconnected })
  shutting_down :
      (write_ok : Bool)
      → s.phase ≡ running
      → s.cancelled ≡ true
      → s.bridge.done_closes ≡ 0
      → Step mac f s (record s { bridge = say_bye write_ok mac s.bridge; phase = leaving })
  closing :
      s.phase ≡ leaving
      → Step mac f s (record s { bridge = close_done s.bridge; phase = waiting shut_down })
  returning :
      (r : Reason)
      → s.phase ≡ waiting r
      → ((l : Loop) → s.live l ≡ false)
      → Step mac f s (record s { bridge = finished s.bridge; phase = returned r })

pub data Reach (mac : Mac) (f : Float64) (s : System) : System → Type 0 where
  here : Reach mac f s s
  next : {t u : System} → Reach mac f s t → Step mac f t u → Reach mac f s u
