-- ===== src/Capture/Handle.antt =====
-- internal/capture/capture.go: a capture and its handle. What pcap answers is an argument; a run
-- records the handles that it makes and gives back.
pub mod Leak
pub mod Sample
mod Tests
use xbslink_ng.Base.{
  ℕ, ◌+◌, Bool, true, false, not, Option, none, some, List, [], ◌∷◌, ◌++◌, ltb, ◌==◌, if◌then◌else◌,
  length, get_or, make, copy_at, codes,
}
use xbslink_ng.Capture.Mac.{mac_string}
use xbslink_ng.Discovery.{Device, contains, find_device}

-- Whether the steps of opening a handle succeed. `version` is the version of the library, and
-- `windows` the system.
pub record Pcap : Type 0 where
  pub windows : Bool
  pub version : List ℕ
  pub find_all_devs : Option (List Device)
  pub new_inactive_handle : Bool
  pub set_snap_len : Bool
  pub set_promisc : Bool
  pub set_timeout : Bool
  pub activate : Bool
  pub set_bpf_filter : List ℕ → Bool

pub data Error : Type 0 where
  invalid_mac npcap_not_installed not_listed interface_not_found : Error
  no_handle bad_snap_len bad_promisc bad_timeout not_activated bad_filter : Error

-- A handle that is not active yet is created and cleaned up, an active one is activated and closed.
pub data Call : Type 0 where
  created cleaned_up activated closed : Call

-- `handle_open` is false where the pointer to the handle is nil.
pub record Capture : Type 0 where
  pub handle_open : Bool
  pub filter : List ℕ
  pub xbox_mac : List ℕ
  pub if_name : List ℕ

pub data Opened {ℓ} (A : Type ℓ) : Type ℓ where
  refused : Error → Opened A
  opened : A → Opened A

-- `CheckNpcapInstalled`: whether it returns nil. An unknown version is let through.
unfoldable pub check_npcap_installed : Pcap → Bool
check_npcap_installed p = if p.windows then not (length p.version == 0) else true

-- The steps that `New` and `Discover` take between the inactive handle and the active one.
unfoldable pub configured : Pcap → Option Error
configured p =
    if not p.set_snap_len
    then some bad_snap_len
    else if not p.set_promisc
    then some bad_promisc
    else if not p.set_timeout
    then some bad_timeout
    else if not p.activate
    then some not_activated
    else none

abbrev pub filter_text : List ℕ → List ℕ
filter_text mac = codes "ether src " ++ mac_string mac

abbrev pub new_on_active : Pcap → List ℕ → List ℕ → List Call × Opened Capture
new_on_active p mac name =
    if p.set_bpf_filter (filter_text mac)
    then (
      activated ∷ [],
      opened
          (record { handle_open = true; filter = filter_text mac; xbox_mac = mac; if_name = name }),
    )
    else (activated ∷ closed ∷ [], refused bad_filter)

abbrev pub new_after_config : Pcap → List ℕ → List ℕ → Option Error → List Call × Opened Capture
new_after_config p mac name (some e) = ([], refused e)
new_after_config p mac name none = new_on_active p mac name

-- `defer inactive.CleanUp()`
abbrev pub with_clean_up {ℓ} : {A : Type ℓ} → List Call × A → List Call × A
with_clean_up (calls, a) = (created ∷ calls ++ (cleaned_up ∷ []), a)

abbrev pub new_on_device : Pcap → List ℕ → Option Device → List Call × Opened Capture
new_on_device p mac none = ([], refused interface_not_found)
new_on_device p mac (some d) =
    if p.new_inactive_handle
    then with_clean_up (new_after_config p mac d.name (configured p))
    else ([], refused no_handle)

-- `FindInterface` over the devices, or its error.
abbrev pub new_on_devices :
    (List ℕ → List ℕ) → Pcap → List ℕ → List ℕ → Option (List Device) → List Call × Opened Capture
new_on_devices lower p wanted mac none = ([], refused not_listed)
new_on_devices lower p wanted mac (some ds) = new_on_device p mac (find_device lower wanted ds)

-- `New`, with a logger.
unfoldable pub new_capture : (List ℕ → List ℕ) → Pcap → List ℕ → List ℕ → List Call × Opened Capture
unfolding check_npcap_installed configured
new_capture lower p wanted mac =
    if not (length mac == 6)
    then ([], refused invalid_mac)
    else if not (check_npcap_installed p)
    then ([], refused npcap_not_installed)
    else new_on_devices lower p wanted mac p.find_all_devs

-- What `ZeroCopyReadPacketData` gives.
pub data Packet : Type 0 where
  timeout broken : Packet
  data_of : List ℕ → Packet

-- `on_nil_handle` stands for the call of a method of a nil handle.
pub data ReadResult : Type 0 where
  no_packet read_failed on_nil_handle : ReadResult
  frame : List ℕ → ReadResult

abbrev pub packet_result : Packet → ReadResult
packet_result timeout = no_packet
packet_result broken = read_failed
packet_result (data_of bytes) =
    if length bytes == 0 then no_packet else frame (copy_at (make (length bytes)) 0 bytes)

unfoldable pub read_packet : Capture → Packet → ReadResult
read_packet c p = if c.handle_open then packet_result p else on_nil_handle

pub data WriteResult : Type 0 where
  written too_small write_failed write_on_nil : WriteResult

-- `WritePacket`; `write_ok` is the answer of pcap.
unfoldable pub write_packet : Capture → Bool → List ℕ → WriteResult
write_packet c write_ok bytes =
    if ltb (length bytes) 14
    then too_small
    else if not c.handle_open
    then write_on_nil
    else if write_ok
    then written
    else write_failed

unfoldable pub close_capture : Capture → List Call × Capture
close_capture c = if c.handle_open then (closed ∷ [], record c { handle_open = false }) else ([], c)

-- `Stats`: what pcap answers, or the error of a capture that is not open.
unfoldable pub capture_stats {ℓ} : {A : Type ℓ} → Capture → Option A → Option A
capture_stats c answer = if c.handle_open then answer else none
