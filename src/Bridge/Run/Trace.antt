-- ===== src/Bridge/Run/Trace.antt =====
-- internal/bridge/bridge.go: what a run of a bridge reads and writes.
use xbslink_ng.Base.{ℕ, ◌+◌, List, [], ◌∷◌, ◌++◌, length, drop}
use xbslink_ng.Protocol.{Mac}
use xbslink_ng.Transport.{Write, Read, send_bye, got}
use xbslink_ng.Bridge.Rtt.{Float64}
use xbslink_ng.Bridge.{Bridge, recv_turn, send_turn, send_ping}
use xbslink_ng.Bridge.Run.{
  System, Step, Reach, captured, sending, receiving, pinging, shutting_down, here, next,
}

-- What a handler has put behind the frames that wait to be injected.
abbrev pub newly_queued : Bridge → Bridge → List (List ℕ)
newly_queued b b' = drop (length b.frames_to_inject) b'.frames_to_inject

-- The frames that `recvLoop` queues for injection, in a step and in a series of steps.
abbrev pub frames_queued_by :
    {mac : Mac} {f : Float64} {s t : System} → Step mac f s t → List (List ℕ)
frames_queued_by {mac} {f} {s} (receiving now w r e) =
    newly_queued s.bridge (recv_turn mac f now w s.peer s.bridge r).0
frames_queued_by _ = []

abbrev pub frames_queued :
    {mac : Mac} {f : Float64} {s t : System} → Reach mac f s t → List (List ℕ)
frames_queued here = []
frames_queued (next r st) = frames_queued r ++ frames_queued_by st

-- What the capture loop reads.
abbrev pub frames_captured_by :
    {mac : Mac} {f : Float64} {s t : System} → Step mac f s t → List (List ℕ)
frames_captured_by (captured x e) = x ∷ []
frames_captured_by _ = []

abbrev pub frames_captured :
    {mac : Mac} {f : Float64} {s t : System} → Reach mac f s t → List (List ℕ)
frames_captured here = []
frames_captured (next r st) = frames_captured r ++ frames_captured_by st

-- What is handed to `WriteToUDP`.
abbrev pub writes_by : {mac : Mac} {f : Float64} {s t : System} → Step mac f s t → List Write
writes_by {mac} {s = s} (sending w x rest e q) =
    (send_turn mac w (record (s.bridge) { frames_to_send = rest }) x).1
writes_by {mac} {f} {s} (receiving now w r e) = (recv_turn mac f now w s.peer s.bridge r).1
writes_by {mac} {s = s} (pinging now w e) = (send_ping mac now w s.bridge).1
writes_by {mac} {s = s} (shutting_down w e q r) = (send_bye mac s.bridge.transport w).1
writes_by _ = []

abbrev pub writes : {mac : Mac} {f : Float64} {s t : System} → Reach mac f s t → List Write
writes here = []
writes (next r st) = writes r ++ writes_by st

abbrev pub steps : {mac : Mac} {f : Float64} {s t : System} → Reach mac f s t → ℕ
steps here = 0
steps (next r st) = steps r + 1

abbrev pub Holds : (P : List ℕ → Type 0) → Read → Type 0
Holds P (got addr d) = P d
Holds P _ = Unit

-- Each datagram that is read in a step, and in a series of steps, has a property.
abbrev pub ReadsOnlyBy :
    (P : List ℕ → Type 0) {mac : Mac} {f : Float64} {s t : System} → Step mac f s t → Type 0
ReadsOnlyBy P (receiving now w r e) = Holds P r
ReadsOnlyBy P _ = Unit

abbrev pub ReadsOnly :
    (P : List ℕ → Type 0) {mac : Mac} {f : Float64} {s t : System} → Reach mac f s t → Type 0
ReadsOnly P here = Unit
ReadsOnly P (next r st) = ReadsOnly P r × ReadsOnlyBy P st

map_step-ReadsOnlyBy :
    {P Q : List ℕ → Type 0} (h : (d : List ℕ) → P d → Q d) {mac : Mac} {f : Float64} {s t : System}
    (st : Step mac f s t)
    → ReadsOnlyBy P st
    → ReadsOnlyBy Q st
map_step-ReadsOnlyBy h (receiving now w (got addr d) e) p = h d p
map_step-ReadsOnlyBy h _ p = p

pub map-ReadsOnly :
    {P Q : List ℕ → Type 0} (h : (d : List ℕ) → P d → Q d) {mac : Mac} {f : Float64} {s t : System}
    (r : Reach mac f s t)
    → ReadsOnly P r
    → ReadsOnly Q r
map-ReadsOnly h here p = tt
map-ReadsOnly h (next r st) p = (map-ReadsOnly h r p.0, map_step-ReadsOnlyBy h st p.1)
