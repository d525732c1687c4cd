-- ===== src/Main/Flags/Tests.antt =====
-- cmd/xbslink-ng/main.go: commands and flags.
use xbslink_ng.Base.{ℕ, ◌+◌, ◌*◌, ◌≤◌, ◌≡◌, ◌≢◌, ◌↔◌, refl, true, [], ◌∷◌, codes}
use xbslink_ng.Transport.{listen, connect}
use xbslink_ng.Discovery.{contains}
use xbslink_ng.Main.Flags.{
  Flags, default_flags, default_port, run_bridge, mistake, bad_port, options_of, check_listen,
  check_connect, main_of, command_of, run_listen, unknown_command,
}
use xbslink_ng.Main.Flags.Checks.{check_listen_iff, check_connect_iff}

listening :
    main_of (codes "listen" ∷ codes "--port" ∷ codes "1" ∷ [])
    ≡ run_listen (codes "--port" ∷ codes "1" ∷ [])
unfolding main_of command_of
listening = refl

misspelt : main_of (codes "lisen" ∷ []) ≡ unknown_command
unfolding main_of command_of
misspelt = refl

abbrev flags : Flags
flags = record (default_flags default_port) { interface = codes "eth0" }

abbrev to_peer : Flags
to_peer = record (default_flags 65_537) {
  interface = codes "eth0";
  address = codes "203.0.113.50:31415";
}

port_zero : check_listen (record flags { port = 0 }) ≡ mistake bad_port
unfolding check_listen
port_zero = refl

check_listen_iff_example : (check_listen flags ≡ run_bridge (options_of listen [] flags)) ↔ (
    (flags.interface ≢ [])
    × (1 ≤ flags.port)
    × (flags.port ≤ 65_535)
    × (options_of listen [] flags ≡ options_of listen [] flags)
    × ((options_of listen [] flags).port ≡ flags.port))
check_listen_iff_example = check_listen_iff flags (options_of listen [] flags)

check_connect_iff_example :
    ((check_connect to_peer ≡ run_bridge (options_of connect to_peer.address to_peer)) ↔ (
      (to_peer.address ≢ [])
      × (to_peer.interface ≢ [])
      × (contains to_peer.address (codes ":") ≡ true)
      × (options_of connect to_peer.address to_peer ≡ options_of connect to_peer.address to_peer)))
    × ((k : ℕ)
        → check_connect (record to_peer { port = to_peer.port + k * 65_536 })
          ≡ check_connect to_peer)
check_connect_iff_example = check_connect_iff to_peer (options_of connect to_peer.address to_peer)
