-- ===== src/Main/Reconnect.antt =====
-- The delays of the reconnection loop, and what it does with what `Run` returns.
use xbslink_ng.Base.{
  ℕ, zero, suc, ◌+◌, ◌≤◌, ◌≡◌, refl, sym, ◌∙◌, Bool, true, false, not, List, [], ◌∷◌, arith, All,
  length, if◌then◌else◌,
}
use xbslink_ng.Protocol.{Mac, Codec}
use xbslink_ng.Transport.{Mode, connect_delay}
use xbslink_ng.Transport.Connect.{schedule, connect_delay-schedule}
use xbslink_ng.Bridge.{Bridge}
use xbslink_ng.Bridge.Rtt.{Float64}
use xbslink_ng.Bridge.Run.{System, Reach, started, returned, peer_disconnected}
use xbslink_ng.Bridge.Run.Disconnect.{returned_cancelled}
use xbslink_ng.Main.{
  Connection, Outcome, finished, peer_lost, broken, Trace, after_run, get_backoff_delay,
  reconnect_loop, started_with,
}

get_backoff_delay-schedule : (attempt : ℕ) → get_backoff_delay attempt ≡ schedule attempt
unfolding get_backoff_delay
get_backoff_delay-schedule zero = refl
get_backoff_delay-schedule (suc zero) = refl
get_backoff_delay-schedule (suc (suc zero)) = refl
get_backoff_delay-schedule (suc (suc (suc n))) = ground arith

-- The program has its table of delays twice, for the reconnection and for the attempts of the
-- handshake; the two functions agree at every attempt.
pub get_backoff_delay-connect_delay :
    (attempt : ℕ) → get_backoff_delay attempt ≡ connect_delay attempt
get_backoff_delay-connect_delay attempt =
    get_backoff_delay-schedule attempt ∙ sym (connect_delay-schedule attempt)

-- What `Run` on the context of the connection can return, with the check of the context behind it: the
-- error of a lost peer comes only from a bridge that has started its goroutines with `done` open and
-- has come, by its steps, to that return; and a context that was cancelled then is still cancelled.
abbrev pub IsReturned : Mac → Float64 → Connection → Type 0
IsReturned mac f k =
    (c : Codec)
    → (k.run c).1 ≡ peer_lost
    → (b : Bridge) × (stats : Bool) × (t : System) × Reach mac f (started b stats) t
      × (b.done_closes ≡ 0)
      × (b.done_once ≡ false)
      × (t.phase ≡ returned peer_disconnected)
      × (t.cancelled ≡ true → k.cancelled_after ≡ true)

-- At most one connection, and no delay.
abbrev pub IsOnce : Trace → Type 0
IsOnce (codecs, delays, e) = (length codecs ≤ 1) × (delays ≡ [])

lost-IsCancelled :
    (mac : Mac) (f : Float64) (k : Connection) (c : Codec)
    → IsReturned mac f k
    → (k.run c).1 ≡ peer_lost
    → k.cancelled_after ≡ true
lost-IsCancelled mac f k c h lost =
    let (b, stats, t, reach, d, o, e, still) = h c lost in
    still (returned_cancelled b stats peer_disconnected d o reach e).0

if-IsOnce : (b : Bool) (x y : Trace) → IsOnce x → IsOnce y → IsOnce (if b then x else y)
if-IsOnce true x y p q = p
if-IsOnce false x y p q = q

ended-IsOnce :
    (mode : Mode) (n : ℕ) (k : Connection) (c d : Codec) (o : Outcome) (rest : Codec → Trace)
    → (o ≡ peer_lost → k.cancelled_after ≡ true)
    → IsOnce (started_with c (after_run mode n k (d, o) rest))
unfolding after_run
ended-IsOnce mode n k c d finished rest h = ground arith
ended-IsOnce mode n k c d broken rest h = ground arith
ended-IsOnce mode n k c d peer_lost rest h = rw (h refl) (omega arith, refl)

-- The loop makes at most one connection and never comes to a delay, whatever the connections meet: the
-- error of a lost peer, the only one after which it would connect again, is returned by `Run` only
-- once its context is cancelled, and then the loop shuts down.
pub reconnect_loop-IsOnce :
    (mac : Mac) (f : Float64) (mode : Mode) (c : Codec) (attempt : ℕ) (ks : List Connection)
    → All (IsReturned mac f) ks
    → IsOnce (reconnect_loop mode c attempt ks)
unfolding reconnect_loop
reconnect_loop-IsOnce mac f mode c attempt [] h = (omega arith, refl)
reconnect_loop-IsOnce mac f mode c attempt (k ∷ ks) h =
    if-IsOnce k.cancelled_before _ _ (omega arith, refl)
      (if-IsOnce (not k.transport_ok) _ _ (omega arith, refl)
        (if-IsOnce (not k.bridge_ok) _ _ (omega arith, refl)
          (ended-IsOnce mode attempt k c (k.run c).0 (k.run c).1
            (λ c'. reconnect_loop mode c' (attempt + 1) ks) (lost-IsCancelled mac f k c h.0))))
