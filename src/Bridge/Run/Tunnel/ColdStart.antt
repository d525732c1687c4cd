-- ===== src/Bridge/Run/Tunnel/ColdStart.antt =====
-- internal/bridge/bridge.go: `Run` of two bridges from its first line on.

use xbslink_ng.Base.{
  ℕ, ◌+◌, ◌^◌, ◌<◌, ◌≡◌, refl, sym, ◌∙◌, subst, Bool, true, false, List, [], arith, IsPart,
  if◌then◌else◌,
}
use xbslink_ng.Protocol.{Mac}
use xbslink_ng.Transport.{
  Transport, Write, Round, Attempt, Exit, success, waiting, is_listen, wait_for_peer,
  connect_to_peer,
}
use xbslink_ng.Transport.Fresh.{wait_for_peer-IsFresh, connect_to_peer-IsFresh}
use xbslink_ng.Bridge.{Bridge, Event, connecting, set_state}
use xbslink_ng.Bridge.Begin.{up, after_connecting, begin_run, without_delays}
use xbslink_ng.Bridge.Rtt.{Float64}
use xbslink_ng.Bridge.Run.{System, Reach, started}
use xbslink_ng.Bridge.Run.Key.{begin_run-KeepsKey}
use xbslink_ng.Bridge.Run.Trace.{frames_captured, frames_queued, writes, steps, ReadsOnly}
use xbslink_ng.Bridge.Run.Tunnel.{IsCarried, queued-IsPart-captured}

after_connecting_up :
    (cancelled : Bool) (b : Bridge) (events : List Event) (x : Transport × List Write × Exit)
    → (x.2 ≡ success → x.0.codec.recv_nonce ≡ 0)
    → (after_connecting cancelled b events x).3 ≡ up
    → ((after_connecting cancelled b events x).0.transport.codec.recv_nonce ≡ 0)
      × ((after_connecting cancelled b events x).0.frames_to_send ≡ b.frames_to_send)
unfolding after_connecting set_state
after_connecting_up cancelled b events (t, out, success) h e = (h refl, refl)
after_connecting_up cancelled b events (t, out, waiting) h e = absurd cc
after_connecting_up cancelled b events (t, out, x) h e = ground arith

module _ (mac : Mac) where
  -- A bridge that starts its goroutines remembers no nonce, whatever has come in before.
  pub begin_run_up :
      (cancelled : Bool) (b : Bridge) (rounds : List Round) (attempts : List Attempt)
      → (begin_run mac cancelled b rounds attempts).3 ≡ up
      → ((begin_run mac cancelled b rounds attempts).0.transport.codec.recv_nonce ≡ 0)
        × ((begin_run mac cancelled b rounds attempts).0.frames_to_send ≡ b.frames_to_send)
  unfolding begin_run set_state
  begin_run_up cancelled b rounds attempts h =
      after_connecting_up cancelled (set_state b connecting).0 (set_state b connecting).1 _
        (fresh (is_listen b.transport.mode)) h
    where
      fresh :
          (m : Bool)
          → let x =
              if m
              then wait_for_peer mac b.transport rounds
              else without_delays (connect_to_peer mac b.transport attempts) in
            x.2 ≡ success → x.0.codec.recv_nonce ≡ 0
      fresh true = wait_for_peer-IsFresh mac b.transport rounds
      fresh false = connect_to_peer-IsFresh mac b.transport attempts

  -- From a cold start: two bridges with the same key have both got to their goroutines, each as
  -- listener or as connector, whatever has come in until then, and run on. If the network then brings
  -- the second nothing but datagrams that the first has written in its run, lost, repeated and
  -- reordered in any way, and datagrams that no codec with the key accepts, then the frames that the
  -- second queues for injection are some of those that the first has captured, in their order, and none
  -- of them twice. The queue of the first is empty before, and its counter does not reach 2^64.
  pub from_cold_start :
      (f g : Float64) (ca cb sa sb : Bool) (a b : Bridge) (rounds_a rounds_b : List Round)
      (attempts_a attempts_b : List Attempt) (a' b' : System)
      (sender : Reach mac f (started (begin_run mac ca a rounds_a attempts_a).0 sa) a')
      (receiver : Reach mac g (started (begin_run mac cb b rounds_b attempts_b).0 sb) b')
      → (begin_run mac ca a rounds_a attempts_a).3 ≡ up
      → (begin_run mac cb b rounds_b attempts_b).3 ≡ up
      → a.transport.codec.key ≡ b.transport.codec.key
      → a.transport.codec.secure_mode ≡ true
      → b.transport.codec.secure_mode ≡ true
      → a.frames_to_send ≡ []
      → (begin_run mac ca a rounds_a attempts_a).0.transport.codec.send_nonce + steps sender + 1
        < 2 ^ 64
      → ReadsOnly (IsCarried mac a.transport.codec.key (writes sender)) receiver
      → IsPart (frames_queued receiver) (frames_captured sender)
  from_cold_start f g ca cb sa sb a b rounds_a rounds_b attempts_a attempts_b a' b' sender receiver
        up_a up_b key secure_a secure_b empty room carried =
      let (key_a, mode_a) = begin_run-KeepsKey mac ca a rounds_a attempts_a in
      let (key_b, mode_b) = begin_run-KeepsKey mac cb b rounds_b attempts_b in
      queued-IsPart-captured mac f g _ a' _ b' sender receiver (key_a ∙ key ∙ sym key_b)
        (mode_a ∙ secure_a) (mode_b ∙ secure_b)
        (omega (arith, (begin_run_up cb b rounds_b attempts_b up_b).0)) room
        ((begin_run_up ca a rounds_a attempts_a up_a).1 ∙ empty)
        (subst (λ (k : List ℕ). ReadsOnly (IsCarried mac k (writes sender)) receiver) (sym key_a)
          carried)
