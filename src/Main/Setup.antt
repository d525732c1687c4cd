-- ===== src/Main/Setup.antt =====
-- cmd/xbslink-ng/main.go: `runBridge` up to its loop, with createEmitter and the two discoveries. The
-- banner and the log lines are left out.
pub mod Holds
pub mod Opening
pub mod Source
pub mod Sample
pub mod Remembered
mod Tests
use xbslink_ng.Base.{
  ℕ, Bool, true, false, not, ◌&&◌, Option, none, some, List, [], ◌∷◌, equal, if◌then◌else◌, codes,
}
use xbslink_ng.Protocol.{Codec, new_codec}
use xbslink_ng.Transport.{Mode, is_listen}
use xbslink_ng.Logging.{Level, parse_level}
use xbslink_ng.Config.{
  Config, Json, Os, Disk, Loaded, loaded, refused, empty_config, load, save, get_xbox_mac,
  set_xbox_mac,
}
use xbslink_ng.Discovery.{Device, Turn, Exit, listening, discovery_cancelled, found, find_device}
use xbslink_ng.Discovery.Session.{discover_session}
use xbslink_ng.Capture.Mac.{parse_mac}
use xbslink_ng.Capture.Handle.{Pcap, Capture, Opened, new_capture, check_npcap_installed}

-- The arguments of `runBridge`.
pub record Options : Type 0 where
  pub mode : Mode
  pub port : ℕ
  pub peer_addr : List ℕ
  pub if_name : List ℕ
  pub xbox_mac : List ℕ
  pub key : List ℕ
  pub log_level : List ℕ
  pub stats_interval : ℕ
  pub events_output : List ℕ

-- What the program meets: the case tables of Go, the file system, the codec of the configuration, and
-- what pcap answers to a capture and to a discovery. `events_missing` is whether the file for the
-- events does not exist, and `open_events` whether it opens, with or without os.O_CREATE.
pub record World : Type 0 where
  pub normal : List ℕ → List ℕ
  pub lower : List ℕ → List ℕ
  pub os : Os
  pub json : Json
  pub pcap : Pcap
  pub discovery_pcap : Pcap
  pub turns : List Turn
  pub events_missing : Bool
  pub open_events : Bool → Bool

-- The reasons for os.Exit(1).
pub data Failure : Type 0 where
  bad_level no_emitter no_npcap bad_mac no_interface no_capture no_console : Failure

-- `blocked` is no end: the discovery still listens.
pub data Setup (A : Type 0) : Type 0 where
  exits : Failure → Setup A
  blocked : Setup A
  ready : A → Setup A

infixl 5 ◌>>=◌
unfoldable pub ◌>>=◌ : {A B : Type 0} → Setup A → (A → Setup B) → Setup B
exits e >>= f = exits e
blocked >>= f = blocked
ready a >>= f = f a

abbrev pub or_exit : {A : Type 0} → Failure → Option A → Setup A
or_exit e none = exits e
or_exit e (some a) = ready a

pub data Emitter : Type 0 where
  nop to_stdout to_stderr : Emitter
  to_file : List ℕ → Emitter

unfoldable pub create_emitter : World → List ℕ → Option Emitter
create_emitter w output =
    if equal output []
    then some nop
    else if equal output (codes "stdout")
    then some to_stdout
    else if equal output (codes "stderr")
    then some to_stderr
    else if w.open_events w.events_missing
    then some (to_file output)
    else none

-- The configuration, or an empty one where it does not load.
abbrev pub or_empty : Loaded → Config
or_empty (loaded c) = c
or_empty (refused e) = empty_config

-- The address, and whether a discovery is needed.
abbrev pub Choice : Type 0
Choice = Option (List ℕ) × Bool

abbrev pub saved_choice : Option (List ℕ) → Choice
saved_choice (some mac) = (some mac, false)
saved_choice none = (none, true)

abbrev pub given_choice : Option (List ℕ) → Setup Choice
given_choice (some mac) = ready (some mac, false)
given_choice none = exits bad_mac

unfoldable pub choose_mac : List ℕ → Config → Setup Choice
choose_mac text cfg =
    if not (equal text [])
    then given_choice (parse_mac text)
    else ready (saved_choice (get_xbox_mac cfg))

abbrev pub opened_capture : Opened Capture → Setup Capture
opened_capture (Opened.opened c) = ready c
opened_capture (Opened.refused e) = exits no_capture

-- The interface of the name, as `FindInterface` finds it.
abbrev pub find_among : World → List ℕ → Option (List Device) → Setup Device
find_among w wanted none = exits no_interface
find_among w wanted (some ds) = or_exit no_interface (find_device w.lower wanted ds)

-- `capture.New` for an address, if there is one.
abbrev pub capture_for : World → List ℕ → Option (List ℕ) → Setup (Option Capture)
capture_for w wanted none = ready none
capture_for w wanted (some mac) = do
  c ← opened_capture (new_capture w.lower w.pcap wanted mac).1
  ready (some c)

-- `runForegroundDiscovery`; its nil ends the program.
abbrev pub discovered : Opened Exit → Setup (List ℕ)
discovered (Opened.refused e) = exits no_console
discovered (Opened.opened discovery_cancelled) = exits no_console
discovered (Opened.opened listening) = blocked
discovered (Opened.opened (found mac)) = ready mac

-- What the loop of `runBridge` starts with; `announced` are the addresses of the discovery events.
pub record Ready : Type 0 where
  pub level : Level
  pub emitter : Emitter
  pub codec : Codec
  pub mac : Option (List ℕ)
  pub needs_discovery : Bool
  pub capture : Option Capture
  pub config : Config
  pub disk : Disk
  pub announced : List (List ℕ)

-- The discovery of connect mode, and what follows it. An error of `Save` is only logged.
unfoldable pub discover_first : World → List ℕ → Ready → Setup Ready
discover_first w wanted r = do
  mac ← discovered (discover_session w.lower w.discovery_pcap wanted w.turns).1
  c ← opened_capture (new_capture w.lower w.pcap wanted mac).1
  ready (record r {
    mac = some mac;
    needs_discovery = false;
    capture = some c;
    config = set_xbox_mac r.config mac;
    disk = (save w.os w.json (set_xbox_mac r.config mac) r.disk).0;
    announced = mac ∷ r.announced;
  })

abbrev pub start_with : Options → Level → Emitter → Config → Disk → Choice → Option Capture → Ready
start_with o level emitter cfg disk (mac, needs_discovery) c = record {
  level = level;
  emitter = emitter;
  codec = new_codec o.key;
  mac = mac;
  needs_discovery = needs_discovery;
  capture = c;
  config = cfg;
  disk = disk;
  announced = [];
}

-- The set-up once the address is chosen.
unfoldable pub with_choice :
    World → Options → Level → Emitter → Config → Disk → Choice → Setup Ready
unfolding discover_first
with_choice w o level emitter cfg disk (mac, needs_discovery) = do
  _ ←
      if check_npcap_installed w.pcap
      then find_among w o.if_name w.pcap.find_all_devs
      else exits no_interface
  c ← capture_for w o.if_name mac
  let r = start_with o level emitter cfg disk (mac, needs_discovery) c
  if needs_discovery && not (is_listen o.mode) then discover_first w o.if_name r else ready r

unfoldable pub run_setup : World → Options → Disk → Setup Ready
unfolding choose_mac create_emitter with_choice
run_setup w o disk = do
  level ← or_exit bad_level (parse_level w.normal o.log_level)
  emitter ← or_exit no_emitter (create_emitter w o.events_output)
  _ ← if w.pcap.windows && not (check_npcap_installed w.pcap) then exits no_npcap else ready tt
  let cfg = or_empty (load w.os w.json disk)
  choice ← choose_mac o.xbox_mac cfg
  with_choice w o level emitter cfg disk choice
