-- ===== src/Main/Setup/Remembered.antt =====
-- cmd/xbslink-ng/main.go: a start of the program after one that has found the console.
use xbslink_ng.Base.{
  ℕ, ◌≡◌, refl, ap, ap₂, subst, ◌∙◌, true, false, not, ◌&&◌, Option, none, some, List, [], All,
  IsByte, equal, length, if◌then◌else◌, if_true, if_false, ◌==◌, arith,
}
use xbslink_ng.Transport.{is_listen}
use xbslink_ng.Logging.{Level, parse_level}
use xbslink_ng.Config.{
  Config, Json, Os, Disk, complete, Loaded, loaded, load, save, get_xbox_mac, set_xbox_mac,
  default_config_path,
}
use xbslink_ng.Config.Saved.{IsCodec, save-load}
use xbslink_ng.Discovery.{Device, find_device}
use xbslink_ng.Capture.Handle.{
  Capture, Opened, opened, Call, Error, new_capture, new_on_device, new_on_devices,
  new_after_config, with_clean_up, configured, check_npcap_installed, filter_text,
}
use xbslink_ng.Main.Setup.{
  Options, World, Setup, ready, exits, bad_level, no_emitter, no_npcap, no_interface,
  opened_capture, ◌>>=◌, or_exit, or_empty, choose_mac, saved_choice, capture_for, with_choice,
  start_with, find_among, Emitter, create_emitter, Ready, run_setup,
}
use xbslink_ng.Main.Setup.Opening.{HasCapture, config_of}
use xbslink_ng.Main.Setup.Source.{given, saved, heard, later, run_setup-Source}

-- What a start meets when nothing fails: the log level and the events output are valid, the interface is
-- found, and pcap opens the capture.
pub record IsFine (w : World) (o : Options) : Type 0 where
  pub level : Level
  pub level_known : parse_level w.normal o.log_level ≡ some level
  pub emitter : Emitter
  pub emitter_made : create_emitter w o.events_output ≡ some emitter
  pub npcap_there : check_npcap_installed w.pcap ≡ true
  pub devices : List Device
  pub devices_listed : w.pcap.find_all_devs ≡ some devices
  pub device : Device
  pub device_found : find_device w.lower o.if_name devices ≡ some device
  pub handle_made : w.pcap.new_inactive_handle ≡ true
  pub handle_configured : configured w.pcap ≡ none
  pub filter_set : (text : List ℕ) → w.pcap.set_bpf_filter text ≡ true

step : {A B : Type 0} (m : Setup A) (f : A → Setup B) (a : A) → m ≡ ready a → (m >>= f) ≡ f a
unfolding ◌>>=◌
step m f a e = ap (λ (x : Setup _). x >>= f) e

module _ (w : World) (o : Options) (fine : IsFine w o) (mac : List ℕ) (six : length mac ≡ 6) where
  open_for : Capture
  open_for = record {
    handle_open = true;
    filter = filter_text mac;
    xbox_mac = mac;
    if_name = fine.device.name;
  }

  new_capture-opened : (new_capture w.lower w.pcap o.if_name mac).1 ≡ opened open_for
  unfolding new_capture open_for
  new_capture-opened =
      ap (λ (x : List Call × Opened Capture). x.1)
        (if_false {b = not (length mac == 6)} _ _ (ground (arith, six))
          ∙ if_false {b = not (check_npcap_installed w.pcap)} _ _ (ap not fine.npcap_there)
          ∙ ap (new_on_devices w.lower w.pcap o.if_name mac) fine.devices_listed
          ∙ ap (new_on_device w.pcap mac) fine.device_found
          ∙ if_true {b = w.pcap.new_inactive_handle} _ _ fine.handle_made
          ∙ ap
              (λ (e : Option Error). with_clean_up (new_after_config w.pcap mac fine.device.name e))
              fine.handle_configured
          ∙ ap with_clean_up (
              if_true {b = w.pcap.set_bpf_filter (filter_text mac)} _ _
                (fine.filter_set (filter_text mac))))

  interface_found :
      (if check_npcap_installed w.pcap
        then find_among w o.if_name w.pcap.find_all_devs
        else exits no_interface)
      ≡ ready fine.device
  interface_found =
      if_true {b = check_npcap_installed w.pcap} _ _ fine.npcap_there
      ∙ ap (find_among w o.if_name) fine.devices_listed
      ∙ ap (or_exit no_interface) fine.device_found

  npcap_checked :
      (if w.pcap.windows && not (check_npcap_installed w.pcap) then exits no_npcap else ready tt)
      ≡ ready tt
  npcap_checked =
      if_false {b = w.pcap.windows && not (check_npcap_installed w.pcap)} _ _
        (ground (arith, fine.npcap_there))

  capture_opened : capture_for w o.if_name (some mac) ≡ ready (some open_for)
  capture_opened = step _ _ open_for (ap opened_capture new_capture-opened)

  choice_saved :
      (disk : Disk)
      → o.xbox_mac ≡ []
      → get_xbox_mac (config_of w o disk) ≡ some mac
      → choose_mac o.xbox_mac (config_of w o disk) ≡ ready (some mac, false)
  unfolding choose_mac
  choice_saved disk no_text is_saved =
      if_false {b = not (equal o.xbox_mac [])} _ _ (ap (λ (s : List ℕ). not (equal s [])) no_text)
      ∙ ap (λ (m : Option (List ℕ)). ready (saved_choice m)) is_saved

  run_setup_saved :
      (disk : Disk)
      → o.xbox_mac ≡ []
      → get_xbox_mac (config_of w o disk) ≡ some mac
      → run_setup w o disk
        ≡ ready (
            start_with o fine.level fine.emitter
              (config_of w o disk)
              disk
              (some mac, false)
              (some open_for))
  unfolding run_setup with_choice choose_mac
  run_setup_saved disk no_text is_saved =
      step _ _ fine.level (ap (or_exit bad_level) fine.level_known)
      ∙ step _ _ fine.emitter (ap (or_exit no_emitter) fine.emitter_made)
      ∙ step _ _ tt npcap_checked
      ∙ step _ _ (some mac, false) (choice_saved disk no_text is_saved)
      ∙ step _ _ fine.device interface_found
      ∙ step _ _ (some open_for) capture_opened

-- A start finds the address without a discovery, and has a capture open for it.
abbrev pub Remembers : World → Options → Disk → List ℕ → Type 0
Remembers w o disk mac =
    (r : Ready) × (run_setup w o disk ≡ ready r) × HasCapture mac r × (r.disk ≡ disk)

saved-Remembers :
    (w : World) (o : Options) (fine : IsFine w o) (disk : Disk) (mac : List ℕ)
    → length mac ≡ 6
    → o.xbox_mac ≡ []
    → get_xbox_mac (config_of w o disk) ≡ some mac
    → Remembers w o disk mac
unfolding open_for
saved-Remembers w o fine disk mac six no_text is_saved = (
  start_with o fine.level fine.emitter (config_of w o disk) disk (some mac, false)
      (some (open_for w o fine mac six)),
  run_setup_saved w o fine mac six disk no_text is_saved,
  (refl, refl, six, (open_for w o fine mac six, refl, refl, refl)),
  refl,
)

-- In that case the address is the one of the discovery, and is saved.
heard_lem :
    (w : World) (o : Options) (disk : Disk) (r : Ready) (mac : List ℕ)
    → run_setup w o disk ≡ ready r
    → o.xbox_mac ≡ []
    → get_xbox_mac (config_of w o disk) ≡ none
    → is_listen o.mode ≡ false
    → r.mac ≡ some mac
    → (length mac ≡ 6)
      × (r.disk ≡ (save w.os w.json (set_xbox_mac (config_of w o disk) mac) disk).0)
heard_lem w o disk r mac first no_text not_saved connects known =
    elim (run_setup-Source w o disk r first) [
      | given m some_text parsed h same ↦ absurd (some_text no_text)
      | saved m no_text' is_saved h same ↦ cc (not_saved, is_saved)
      | heard m no_text' not_saved' connects' found_m h is_saved ↦
          let same : m ≡ mac = cc (h.0, known) in
          subst
            (λ (x : List ℕ).
              (length x ≡ 6)
              × (r.disk ≡ (save w.os w.json (set_xbox_mac (config_of w o disk) x) disk).0))
            same (h.2, is_saved)
      | later no_text' not_saved' listens h same ↦ cc (connects, listens)
    ]

-- The first start connects, without the flag and without a saved address, and gets to the loop; the
-- steps of `Save` succeed, encoding/json is a codec, and the address is of bytes. Then the next start
-- without the flag on the same file system, if nothing fails there, in either mode, gets to the loop
-- with that address and a capture for it, and without a discovery.
pub run_setup-Remembers :
    (w w' : World) (o o' : Options) (disk : Disk) (r : Ready) (mac path : List ℕ)
    (encode : Config → List ℕ)
    → IsCodec w.json encode
    → run_setup w o disk ≡ ready r
    → o.xbox_mac ≡ []
    → get_xbox_mac (config_of w o disk) ≡ none
    → is_listen o.mode ≡ false
    → r.mac ≡ some mac
    → All IsByte mac
    → default_config_path w.os ≡ some path
    → w.os.mkdir_all (w.os.dir path) ≡ true
    → ((bytes : List ℕ) → w.os.write_file path bytes ≡ complete)
    → w'.os ≡ w.os
    → w'.json ≡ w.json
    → IsFine w' o'
    → o'.xbox_mac ≡ []
    → Remembers w' o' r.disk mac
run_setup-Remembers w w' o o' disk r mac path encode codec first no_text not_saved connects known
      bytes place made put same_os same_json fine no_text' =
    let first_start = heard_lem w o disk r mac first no_text not_saved connects known in
    let c = set_xbox_mac (config_of w o disk) mac in
    let round =
      save-load w.os w.json encode codec (config_of w o disk) mac first_start.0 bytes path disk
        place made (put (encode c)) in
    let reloaded : load w'.os w'.json r.disk ≡ loaded c =
      ap₂ (λ (os : Os) (json : Json). load os json r.disk) same_os same_json
      ∙ ap (load w.os w.json) first_start.1
      ∙ round.1 in
    saved-Remembers w' o' fine r.disk mac first_start.0 no_text'
      (ap (λ (l : Loaded). get_xbox_mac (or_empty l)) reloaded ∙ round.2)
