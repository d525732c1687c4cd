-- ===== src/Main/Background/Tests.antt =====
-- cmd/xbslink-ng/main.go: a background discovery that finds the console.
use xbslink_ng.Base.{refl, none, codes, copy_at}
use xbslink_ng.Config.{empty_config}
use xbslink_ng.Config.Sample.{no_files}
use xbslink_ng.Discovery.{discover, on_read, on_packet, find_interface, find_device}
use xbslink_ng.Discovery.Session.{discover_session}
use xbslink_ng.Capture.Handle.{new_capture, configured, check_npcap_installed}
use xbslink_ng.Bridge.Capturing.{Capturing, new_capturing, set_capture, has_capture}
use xbslink_ng.Main.Setup.Sample.{world}
use xbslink_ng.Main.Background.{run_background, after_session, on_console}
use xbslink_ng.Main.Background.Handles.{Gained, run_background-Gained}

abbrev waits : Capturing
waits = new_capturing none

run_background-Gained_example :
    Gained waits (run_background world (codes "eth0") empty_config no_files waits)
unfolding run_background after_session on_console discover_session discover on_read on_packet
    find_interface find_device configured check_npcap_installed new_capture set_capture has_capture
    new_capturing copy_at
run_background-Gained_example =
    run_background-Gained world (codes "eth0") empty_config no_files waits refl
