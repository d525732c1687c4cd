-- ===== src/Main/Setup/Tests.antt =====
-- cmd/xbslink-ng/main.go: the set-up on a file system without a configuration.
use xbslink_ng.Base.{All, ℕ, true, false, ◌≡◌, refl, some, List, [], ◌∷◌, arith, codes, copy_at}
use xbslink_ng.Transport.{connect, new_listen}
use xbslink_ng.Logging.{level_info, level_of, parse_level}
use xbslink_ng.Config.{
  empty_config, default_config_path, default_config_dir, load, load_from, save, get_xbox_mac,
  set_xbox_mac,
}
use xbslink_ng.Config.Sample.{printed, json, codec, os, no_files, console}
use xbslink_ng.Discovery.{discover, on_read, on_packet, find_device, find_interface}
use xbslink_ng.Discovery.Session.{discover_session}
use xbslink_ng.Capture.Handle.{Capture, new_capture, configured, check_npcap_installed, filter_text}
use xbslink_ng.Capture.Handle.Sample.{ethernet}
use xbslink_ng.Main.Setup.Sample.{world}
use xbslink_ng.Main.{Connection, peer_lost, reconnect_loop}
use xbslink_ng.Main.Key.{IsUnder, IsBridgeRun, run_setup-IsUnder}
use xbslink_ng.Protocol.{Codec}
use xbslink_ng.Bridge.{new_bridge, send_ping}
use xbslink_ng.Bridge.Begin.{begin_run}
use xbslink_ng.Bridge.Run.{System, started, here, next, pinging}
use xbslink_ng.Samples.{toy_mac, whole_numbers}
use xbslink_ng.Main.Setup.{
  Options, ready, Ready, nop, run_setup, start_with, with_choice, discover_first, choose_mac,
  create_emitter, ◌>>=◌,
}
use xbslink_ng.Main.Setup.Source.{Source, run_setup-Source}
use xbslink_ng.Main.Setup.Remembered.{IsFine, Remembers, run_setup-Remembers}

abbrev options : Options
options = record {
  mode = connect;
  port = 0;
  peer_addr = codes "203.0.113.50:31415";
  if_name = codes "eth0";
  xbox_mac = [];
  key = codes "secret";
  log_level = codes "info";
  stats_interval = 30_000_000_000;
  events_output = [];
}

abbrev opened_one : Capture
opened_one = record {
  handle_open = true;
  filter = filter_text console;
  xbox_mac = console;
  if_name = codes "eth0";
}

abbrev first_start : Ready
first_start =
    record (start_with options level_info nop empty_config no_files (some console, false)
      (some opened_one)) {
        config = set_xbox_mac empty_config console;
        disk = (save os json (set_xbox_mac empty_config console) no_files).0;
        announced = console ∷ [];
      }

set_up : run_setup world options no_files ≡ ready first_start
unfolding run_setup with_choice discover_first choose_mac create_emitter ◌>>=◌ parse_level level_of
    load load_from default_config_path default_config_dir get_xbox_mac check_npcap_installed
    find_device find_interface discover_session discover on_read on_packet new_capture configured
    copy_at
set_up = refl

run_setup-Source_example : Source world options no_files first_start
run_setup-Source_example = run_setup-Source world options no_files first_start set_up

fine : IsFine world options
unfolding parse_level level_of create_emitter check_npcap_installed find_device configured
fine = record {
  level = level_info;
  level_known = refl;
  emitter = nop;
  emitter_made = refl;
  npcap_there = refl;
  devices = ethernet ∷ [];
  devices_listed = refl;
  device = ethernet;
  device_found = refl;
  handle_made = refl;
  handle_configured = refl;
  filter_set = λ (text : List ℕ). refl;
}

run_setup-Remembers_example : Remembers world options first_start.disk console
unfolding default_config_path default_config_dir load load_from get_xbox_mac
run_setup-Remembers_example =
    run_setup-Remembers world world options options no_files first_start console
      (codes "/home/u/.xbslink-ng/config.json") printed codec set_up refl refl refl refl
      (omega arith) refl refl (λ bytes. refl) refl refl fine refl

-- A bridge that has not met a peer, and pings.
abbrev alone : Codec → System
alone c = started (begin_run toy_mac false (new_bridge (new_listen c)) [] []).0 true

abbrev after_ping : Codec → System
after_ping c = record (alone c) { bridge = (send_ping toy_mac 258 true (alone c).bridge).0 }

abbrev losing : Connection
losing = record {
  cancelled_before = false;
  transport_ok = true;
  bridge_ok = true;
  run = λ c. ((after_ping c).bridge.transport.codec, peer_lost);
  cancelled_after = false;
  cancelled_in_delay = false;
}

losing-IsBridgeRun : IsBridgeRun toy_mac whole_numbers losing
unfolding new_bridge new_listen
losing-IsBridgeRun c = (
  new_bridge (new_listen c),
  [],
  [],
  false,
  true,
  after_ping c,
  next here (pinging 258 true refl),
  refl,
  refl,
)

run_setup-IsUnder_example :
    All
      (IsUnder (codes "secret"))
      (reconnect_loop connect first_start.codec 0 (losing ∷ losing ∷ [])).0
run_setup-IsUnder_example =
    run_setup-IsUnder world options no_files first_start toy_mac whole_numbers
      (losing ∷ losing ∷ []) set_up (losing-IsBridgeRun, (losing-IsBridgeRun, tt))
