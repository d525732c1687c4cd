-- ===== src/Main/Setup/Sample.antt =====
-- A world for examples, in which nothing fails.
use xbslink_ng.Base.{ℕ, Bool, true, List}
use xbslink_ng.Config.Sample.{os, json}
use xbslink_ng.Capture.Handle.Sample.{pcap, turns}
use xbslink_ng.Main.Setup.{World}

abbrev pub world : World
world = record {
  normal = λ (s : List ℕ). s;
  lower = λ (s : List ℕ). s;
  os = os;
  json = json;
  pcap = pcap;
  discovery_pcap = pcap;
  turns = turns;
  events_missing = true;
  open_events = λ (create : Bool). create;
}
