-- ===== src/Main/Flags/Checks.antt =====
-- cmd/xbslink-ng/main.go: which flags are accepted, and with which port.
use xbslink_ng.Base.{
  ℕ, ◌+◌, ◌*◌, ◌%◌, ◌≤◌, ◌≡◌, ◌≢◌, ◌↔◌, ap, true, not, List, [], equal, equal→eq, if◌then◌else◌,
  codes, arith,
}
use xbslink_ng.Transport.{listen, connect}
use xbslink_ng.Discovery.{contains}
use xbslink_ng.Main.Setup.{Options}
use xbslink_ng.Main.Flags.{
  Flags, mistake, run_bridge, no_interface, no_address, bad_address, options_of, check_listen,
  check_connect,
}

empty_lem : (s : List ℕ) → (equal s [] ≡ true) ↔ (s ≡ [])
empty_lem s = (equal→eq s [], λ e. ap (λ (x : List ℕ). equal x []) e)

-- `listen` starts exactly with an interface and a port from 1 to 65535, and then on that very port.
pub check_listen_iff :
    (f : Flags) (o : Options)
    → (check_listen f ≡ run_bridge o) ↔ (
        (f.interface ≢ [])
        × (1 ≤ f.port)
        × (f.port ≤ 65_535)
        × (o ≡ options_of listen [] f)
        × (o.port ≡ f.port))
unfolding check_listen
check_listen_iff f o = ground (arith, empty_lem f.interface)

wrapped : (p k : ℕ) → (p + k * 65_536) % 65_536 ≡ p % 65_536
wrapped p k = omega arith

-- `connect` starts exactly with an address that has a colon and an interface. Its port is not checked:
-- it is taken modulo 65536, so that a port above 65535 has the effect of another one.
pub check_connect_iff :
    (f : Flags) (o : Options)
    → ((check_connect f ≡ run_bridge o) ↔ (
        (f.address ≢ [])
        × (f.interface ≢ [])
        × (contains f.address (codes ":") ≡ true)
        × (o ≡ options_of connect f.address f)))
      × ((k : ℕ) → check_connect (record f { port = f.port + k * 65_536 }) ≡ check_connect f)
unfolding check_connect
check_connect_iff f o = (
  ground (arith, empty_lem f.address, empty_lem f.interface),
  λ k.
      ap
        (λ (p : ℕ).
          if equal f.address []
          then mistake no_address
          else if equal f.interface []
          then mistake no_interface
          else if not (contains f.address (codes ":"))
          then mistake bad_address
          else run_bridge (record (options_of connect f.address f) { port = p }))
        (wrapped f.port k),
)
