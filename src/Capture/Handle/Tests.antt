-- ===== src/Capture/Handle/Tests.antt =====
-- internal/capture/capture.go: captures that open and that do not.
use xbslink_ng.Base.{ℕ, true, false, ◌≡◌, refl, List, [], ◌∷◌, codes}
use xbslink_ng.Config.Sample.{console}
use xbslink_ng.Discovery.{find_device}
use xbslink_ng.Capture.Mac.{mac_string, joined}
use xbslink_ng.Capture.Handle.{
  Pcap, Capture, created, cleaned_up, activated, closed, opened, refused, bad_filter, new_capture,
  configured, check_npcap_installed,
}
use xbslink_ng.Capture.Handle.Sample.{pcap}

abbrev no_filter : Pcap
no_filter = record pcap { set_bpf_filter = λ (text : List ℕ). false }

abbrev same : List ℕ → List ℕ
same s = s

filter_refused :
    new_capture same no_filter (codes "eth0") console
    ≡ (created ∷ activated ∷ closed ∷ cleaned_up ∷ [], refused bad_filter)
unfolding new_capture configured check_npcap_installed find_device
filter_refused = refl

filtered :
    (c : Capture) × ((new_capture same pcap (codes "eth0") console).1 ≡ opened c)
    × (c.filter ≡ codes "ether src 00:50:f2:12:34:56")
unfolding new_capture configured check_npcap_installed find_device mac_string joined
filtered = (
  record {
    handle_open = true;
    filter = codes "ether src 00:50:f2:12:34:56";
    xbox_mac = console;
    if_name = codes "eth0";
  },
  refl,
  refl,
)
