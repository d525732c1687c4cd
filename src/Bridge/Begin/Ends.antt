-- ===== src/Bridge/Begin/Ends.antt =====
-- internal/bridge/bridge.go: the first part of `Run` ends.
use xbslink_ng.Base.{
  ◌⊎◌, inl, inr, ◌≡◌, ◌≢◌, Bool, true, false, List, arith, All, Any, if◌then◌else◌,
}
use xbslink_ng.Protocol.{Mac}
use xbslink_ng.Transport.{Transport, Write, Round, Attempt, Exit, waiting, is_listen}
use xbslink_ng.Transport.Ends.{IsLast, IsStop, wait_for_peer-ends, connect_to_peer-ends}
use xbslink_ng.Bridge.{Bridge, Event, set_state, connecting}
use xbslink_ng.Bridge.Begin.{unfinished, after_connecting, begin_run}

after_connecting-ends :
    (cancelled : Bool) (b : Bridge) (events : List Event) (x : Transport × List Write × Exit)
    → x.2 ≢ waiting
    → (after_connecting cancelled b events x).3 ≢ unfinished
unfolding after_connecting
after_connecting-ends cancelled b events (t, out, e) h = ground (arith, h)

listening :
    (c : Bool) (x y : Transport × List Write × Exit)
    → c ≡ true
    → x.2 ≢ waiting
    → (if c then x else y).2 ≢ waiting
listening true x y e h = h
listening false x y e h = cc e

dialling :
    (c : Bool) (x y : Transport × List Write × Exit)
    → c ≡ false
    → y.2 ≢ waiting
    → (if c then x else y).2 ≢ waiting
dialling true x y e h = cc e
dialling false x y e h = h

-- The first part of `Run` ends, with the goroutines started or with a return, however the peer and the
-- network behave: when listening, once the context is cancelled in a round; when connecting, if each
-- attempt meets its deadline or a cancelled context, and the context is cancelled before an attempt or
-- in the delay after one.
pub begin_run-ends :
    (mac : Mac) (cancelled : Bool) (b : Bridge) (rounds : List Round) (attempts : List Attempt)
    → ((is_listen b.transport.mode ≡ true) × Any (λ (r : Round). r.cancelled ≡ true) rounds)
      ⊎ ((is_listen b.transport.mode ≡ false)
          × All (λ (a : Attempt). Any IsLast a.rounds) attempts
          × Any IsStop attempts)
    → (begin_run mac cancelled b rounds attempts).3 ≢ unfinished
unfolding begin_run
begin_run-ends mac cancelled b rounds attempts (inl (listens, stop)) =
    after_connecting-ends cancelled (set_state b connecting).0 (set_state b connecting).1 _ (
      listening (is_listen b.transport.mode) _ _ listens
        (wait_for_peer-ends mac b.transport rounds stop))
begin_run-ends mac cancelled b rounds attempts (inr (connects, meets, stops)) =
    after_connecting-ends cancelled (set_state b connecting).0 (set_state b connecting).1 _ (
      dialling (is_listen b.transport.mode) _ _ connects
        (connect_to_peer-ends mac b.transport attempts meets stops))
