-- ===== src/Discovery/Session/Tests.antt =====
-- internal/discovery/discovery.go: a session that hears a console.
use xbslink_ng.Base.{◌≡◌, refl, codes, copy_at}
use xbslink_ng.Config.Sample.{console}
use xbslink_ng.Discovery.{found, discover, on_read, on_packet, find_interface}
use xbslink_ng.Discovery.Session.{discover_session}
use xbslink_ng.Capture.Handle.{opened, configured}
use xbslink_ng.Capture.Handle.Sample.{pcap, turns}

session_returns : (discover_session (λ s. s) pcap (codes "eth0") turns).1 ≡ opened (found console)
unfolding discover_session discover on_read on_packet find_interface configured copy_at
session_returns = refl
