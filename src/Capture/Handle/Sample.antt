-- ===== src/Capture/Handle/Sample.antt =====
-- Answers of pcap for examples: one interface, and nothing that fails.
use xbslink_ng.Base.{ℕ, true, false, none, some, List, [], ◌∷◌, ◌++◌, codes}
use xbslink_ng.Config.Sample.{console}
use xbslink_ng.Discovery.{Device, Turn}
use xbslink_ng.Capture.Handle.{Pcap}

abbrev pub ethernet : Device
ethernet = record { name = codes "eth0"; description = [] }

abbrev pub pcap : Pcap
pcap = record {
  windows = false;
  version = codes "libpcap 1.10";
  find_all_devs = some (ethernet ∷ []);
  new_inactive_handle = true;
  set_snap_len = true;
  set_promisc = true;
  set_timeout = true;
  activate = true;
  set_bpf_filter = λ (text : List ℕ). true;
}

-- A broadcast of the console.
abbrev pub packet : List ℕ
packet = 255 ∷ 255 ∷ 255 ∷ 255 ∷ 255 ∷ 255 ∷ console ++ (8 ∷ 0 ∷ [])

-- A turn without a packet, and the broadcast.
abbrev pub turns : List Turn
turns =
    record { cancelled = false; packet = none }
    ∷ record { cancelled = false; packet = some packet }
    ∷ []
