-- ===== src/Main/Flags.antt =====
-- cmd/xbslink-ng/main.go: the commands and the checks of their flags. What the package flag makes of
-- the arguments is an argument; a number is a uint of 64 bits, and a text a list of code points.
pub mod Checks
mod Tests
use xbslink_ng.Base.{
  ℕ, ◌+◌, ◌*◌, ◌%◌, ◌^◌, Bool, true, false, not, ◌||◌, Option, none, some, List, [], ◌∷◌, ltb, ◌==◌,
  equal, if◌then◌else◌, length, codes,
}
use xbslink_ng.Transport.{Mode, listen, connect}
use xbslink_ng.Discovery.{contains}
use xbslink_ng.Capture.Handle.{Opened}
use xbslink_ng.Capture.Listing.{InterfaceInfo}
use xbslink_ng.Main.Setup.{Options}

-- What `main` runs for its arguments, without the name of the program.
pub data Command : Type 0 where
  no_command unknown_command : Command
  run_listen run_connect : List (List ℕ) → Command
  run_interfaces print_version print_usage : Command

unfoldable pub command_of : List ℕ → List (List ℕ) → Command
command_of cmd args =
    if equal cmd (codes "listen")
    then run_listen args
    else if equal cmd (codes "connect")
    then run_connect args
    else if equal cmd (codes "interfaces")
    then run_interfaces
    else if equal cmd (codes "version") || equal cmd (codes "--version") || equal cmd (codes "-v")
    then print_version
    else if equal cmd (codes "help") || equal cmd (codes "--help") || equal cmd (codes "-h")
    then print_usage
    else unknown_command

unfoldable pub main_of : List (List ℕ) → Command
unfolding command_of
main_of [] = no_command
main_of (cmd ∷ args) = command_of cmd args

-- The flags of `listen` and `connect`; `listen` has no address.
pub record Flags : Type 0 where
  pub address : List ℕ
  pub port : ℕ
  pub interface : List ℕ
  pub xbox_mac : List ℕ
  pub key : List ℕ
  pub log_level : List ℕ
  pub stats_interval : ℕ
  pub events_output : List ℕ

-- The flags that are not given.
abbrev pub default_flags : ℕ → Flags
default_flags port = record {
  address = [];
  port = port;
  interface = [];
  xbox_mac = [];
  key = [];
  log_level = codes "info";
  stats_interval = 30;
  events_output = [];
}

abbrev pub default_port : ℕ
default_port = 31_415

pub data Mistake : Type 0 where
  no_interface bad_port no_address bad_address : Mistake

-- The call of `runBridge`, or the message of the mistake and os.Exit(1).
pub data Checked : Type 0 where
  mistake : Mistake → Checked
  run_bridge : Options → Checked

-- The arguments of `runBridge`: the port as a uint16, and the interval as an int64 of nanoseconds.
abbrev pub options_of : Mode → List ℕ → Flags → Options
options_of mode peer f = record {
  mode = mode;
  port = f.port % 2 ^ 16;
  peer_addr = peer;
  if_name = f.interface;
  xbox_mac = f.xbox_mac;
  key = f.key;
  log_level = f.log_level;
  stats_interval = f.stats_interval * 1_000_000_000 % 2 ^ 64;
  events_output = f.events_output;
}

unfoldable pub check_listen : Flags → Checked
check_listen f =
    if equal f.interface []
    then mistake no_interface
    else if f.port == 0 || ltb 65_535 f.port
    then mistake bad_port
    else run_bridge (options_of listen [] f)

unfoldable pub check_connect : Flags → Checked
check_connect f =
    if equal f.address []
    then mistake no_address
    else if equal f.interface []
    then mistake no_interface
    else if not (contains f.address (codes ":"))
    then mistake bad_address
    else run_bridge (options_of connect f.address f)

-- How `runInterfaces` ends: the error of the listing, no interface, or the list that it prints.
pub data Listing : Type 0 where
  listing_failed nothing_found : Listing
  shown : List InterfaceInfo → Listing

abbrev pub some_interfaces : List InterfaceInfo → Listing
some_interfaces interfaces = if length interfaces == 0 then nothing_found else shown interfaces

abbrev pub listing_of : Opened (List InterfaceInfo) → Listing
listing_of (Opened.refused e) = listing_failed
listing_of (Opened.opened interfaces) = some_interfaces interfaces

-- `runInterfaces`, on what CheckNpcapInstalled and ListInterfaces return.
unfoldable pub list_command : Bool → Opened (List InterfaceInfo) → Listing
list_command npcap_ok found = if npcap_ok then listing_of found else listing_failed
