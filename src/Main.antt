-- ===== src/Main.antt =====
-- cmd/xbslink-ng/main.go: the delays and the reconnection loop of `runBridge`, on a capture that is
-- open. What `Run` does to the codec and how it ends is an argument, one for each connection;
-- Main/Reconnect says what it can be.
pub mod Setup
pub mod Key
pub mod Background
pub mod Flags
pub mod Reconnect
mod Tests
use xbslink_ng.Base.{
  ℕ, ◌+◌, Bool, true, false, not, List, [], ◌∷◌, ltb, length, get_or, if◌then◌else◌,
}
use xbslink_ng.Protocol.{Codec, reset_recv_nonce}
use xbslink_ng.Transport.{Mode, is_listen}

-- In seconds.
abbrev pub backoffs : List ℕ
backoffs = 1 ∷ 2 ∷ 5 ∷ 10 ∷ []

unfoldable pub get_backoff_delay : ℕ → ℕ
get_backoff_delay attempt = if ltb attempt (length backoffs) then get_or backoffs attempt 0 else 10

-- What `Run` returns: nil, `ErrPeerDisconnected`, or another error.
pub data Outcome : Type 0 where
  finished peer_lost broken : Outcome

-- What one pass of the loop meets.
pub record Connection : Type 0 where
  pub cancelled_before : Bool
  pub transport_ok : Bool
  pub bridge_ok : Bool
  pub run : Codec → Codec × Outcome
  pub cancelled_after : Bool
  pub cancelled_in_delay : Bool

-- How `runBridge` ends; `waiting` is no return: the connections are used up.
pub data Exit : Type 0 where
  shut_down fatal stopped waiting : Exit

-- The codecs that the connections started with, the delays, and the end.
abbrev pub Trace : Type 0
Trace = List Codec × List ℕ × Exit

abbrev pub started_with : Codec → Trace → Trace
started_with c (codecs, delays, e) = (c ∷ codecs, delays, e)

abbrev pub delayed : ℕ → Trace → Trace
delayed d (codecs, delays, e) = (codecs, d ∷ delays, e)

-- The pass after `Run` has returned.
unfoldable pub after_run : Mode → ℕ → Connection → Codec × Outcome → (Codec → Trace) → Trace
after_run mode attempt k (c, finished) rest =
    if k.cancelled_after then ([], [], shut_down) else ([], [], stopped)
after_run mode attempt k (c, broken) rest =
    if k.cancelled_after then ([], [], shut_down) else ([], [], fatal)
after_run mode attempt k (c, peer_lost) rest =
    if k.cancelled_after
    then ([], [], shut_down)
    else if is_listen mode
    then rest (reset_recv_nonce c)
    else if k.cancelled_in_delay
    then ([], get_backoff_delay attempt ∷ [], shut_down)
    else delayed (get_backoff_delay attempt) (rest (reset_recv_nonce c))

unfoldable pub reconnect_loop : Mode → Codec → ℕ → List Connection → Trace
unfolding after_run
reconnect_loop mode c attempt [] = ([], [], waiting)
reconnect_loop mode c attempt (k ∷ ks) =
    if k.cancelled_before
    then ([], [], shut_down)
    else if not k.transport_ok
    then ([], [], fatal)
    else if not k.bridge_ok
    then ([], [], fatal)
    else started_with c
        (after_run mode attempt k (k.run c) (λ c'. reconnect_loop mode c' (attempt + 1) ks))
