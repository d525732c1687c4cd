-- ===== src/Main/Background.antt =====
-- cmd/xbslink-ng/main.go: runBackgroundDiscovery, which sets the capture of a bridge that listens.
pub mod Handles
mod Tests
use xbslink_ng.Base.{ℕ, Bool, true, false, Option, none, some, List, [], ◌∷◌, ◌++◌, if◌then◌else◌}
use xbslink_ng.Config.{Config, Disk, save, set_xbox_mac}
use xbslink_ng.Discovery.{Exit, listening, discovery_cancelled, found}
use xbslink_ng.Discovery.Session.{Session, discover_session}
use xbslink_ng.Capture.Handle.{Capture, Call, Opened, new_capture, close_capture}
use xbslink_ng.Bridge.Capturing.{Capturing, set_capture}
use xbslink_ng.Main.Setup.{World}

-- What a run leaves: the calls of pcap, the bridge, the configuration, the file system, the addresses
-- that it announced, and whether it returned.
pub record Background : Type 0 where
  pub calls : List Call
  pub bridge : Capturing
  pub config : Config
  pub disk : Disk
  pub announced : List (List ℕ)
  pub returned : Bool

-- Before anything has happened.
abbrev pub idle : Config → Disk → Capturing → Background
idle cfg disk bridge = record {
  calls = [];
  bridge = bridge;
  config = cfg;
  disk = disk;
  announced = [];
  returned = true;
}

-- After `SetCapture`; a capture that is refused is closed.
abbrev pub after_set : Background → Capture → Capturing × Bool → Background
after_set b c (s, ok) =
    if ok
    then record b { bridge = s }
    else record b { bridge = s; calls = b.calls ++ (close_capture c).0 }

abbrev pub after_new : Background → List Call × Opened Capture → Background
after_new b (calls, Opened.refused e) = record b { calls = b.calls ++ calls }
after_new b (calls, Opened.opened c) =
    after_set (record b { calls = b.calls ++ calls }) c (set_capture b.bridge c)

module _ (w : World) (wanted : List ℕ) where
  -- The console is announced and saved before its capture is opened.
  unfoldable pub on_console : Background → List ℕ → Background
  on_console b mac =
      let c = set_xbox_mac b.config mac in
      after_new
        (record b {
          config = c;
          disk = (save w.os w.json c b.disk).0;
          announced = b.announced ++ (mac ∷ []);
        })
        (new_capture w.lower w.pcap wanted mac)

  unfoldable pub after_session : Background → Session → Background
  unfolding on_console
  after_session b (calls, Opened.refused e) = record b { calls = b.calls ++ calls }
  after_session b (calls, Opened.opened listening) = record b {
    calls = b.calls ++ calls;
    returned = false;
  }
  after_session b (calls, Opened.opened discovery_cancelled) = record b { calls = b.calls ++ calls }
  after_session b (calls, Opened.opened (found mac)) =
      on_console (record b { calls = b.calls ++ calls }) mac

  unfoldable pub run_background : Config → Disk → Capturing → Background
  unfolding after_session
  run_background cfg disk bridge =
      after_session (idle cfg disk bridge)
        (discover_session w.lower w.discovery_pcap wanted w.turns)
