-- ===== src/Bridge/Begin/Tests.antt =====
-- internal/bridge/bridge.go: a start on a silent network.
use xbslink_ng.Base.{◌≢◌, inl, inr, refl, true, false, some, [], ◌∷◌}
use xbslink_ng.Transport.{new_connect, Round, Attempt, timed_out}
use xbslink_ng.Bridge.{new_bridge}
use xbslink_ng.Bridge.Begin.{begin_run, unfinished}
use xbslink_ng.Bridge.Begin.Ends.{begin_run-ends}
use xbslink_ng.Samples.{toy_mac, connector, random_bytes}

abbrev silent : Round
silent = record { expired = false; cancelled = false; read = timed_out; write_ok = true }

-- The deadline passes, and the user stops the program in the delay.
abbrev attempt : Attempt
attempt = record {
  cancelled = false;
  random = some random_bytes;
  write_ok = true;
  rounds = silent ∷ record silent { expired = true } ∷ [];
  cancelled_in_delay = true;
}

begin_run-ends_example :
    (begin_run toy_mac true (new_bridge connector) [] (attempt ∷ [])).3 ≢ unfinished
unfolding new_bridge new_connect
begin_run-ends_example =
    begin_run-ends toy_mac true (new_bridge connector) [] (attempt ∷ [])
      (inr (refl, (inr (inl (inl refl)), tt), inl (inr refl)))
