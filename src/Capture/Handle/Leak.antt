-- ===== src/Capture/Handle/Leak.antt =====
-- internal/capture/capture.go and internal/discovery/discovery.go: every handle is given back.
use xbslink_ng.Base.{
  ℕ, ◌+◌, ◌-◌, ◌≡◌, ◌≢◌, refl, Bool, true, false, not, Option, none, some, List, [], ◌∷◌,
  if◌then◌else◌, length, ◌==◌, arith,
}
use xbslink_ng.Capture.Handle.{
  Pcap, Call, created, cleaned_up, activated, closed, Opened, refused, opened, Capture, configured,
  check_npcap_installed, new_on_device, new_on_devices, new_capture, filter_text,
}
use xbslink_ng.Discovery.{Device, Turn, listening, find_device, find_interface}
use xbslink_ng.Discovery.Session.{
  Session, on_active, after_config, on_interface, on_devices, discover_session,
}

-- The handles that a run leaves: those that are not cleaned up, and those that are not closed. The
-- calls are in order, and each gives back what an earlier one has made.
abbrev pub Handles : Type 0
Handles = ℕ × ℕ

abbrev pub left : List Call → Handles → Handles
left [] h = h
left (created ∷ calls) (i, a) = left calls (i + 1, a)
left (cleaned_up ∷ calls) (i, a) = left calls (i - 1, a)
left (activated ∷ calls) (i, a) = left calls (i, a + 1)
left (closed ∷ calls) (i, a) = left calls (i, a - 1)

-- What is left with a result: the handle of the capture, or nothing.
abbrev pub kept : Opened Capture → Handles
kept (refused e) = (0, 0)
kept (opened c) = (0, 1)

-- A capture is open, for the address, with the filter of the address.
abbrev pub IsFor : List ℕ → Opened Capture → Type 0
IsFor mac (refused e) = Unit
IsFor mac (opened c) =
    (c.handle_open ≡ true) × (c.xbox_mac ≡ mac) × (c.filter ≡ filter_text mac) × (length mac ≡ 6)

abbrev IsKept : List ℕ → List Call × Opened Capture → Type 0
IsKept mac (calls, r) = (left calls (0, 0) ≡ kept r) × IsFor mac r

new_on_device-IsKept :
    (p : Pcap) (mac : List ℕ) (d : Option Device)
    → length mac ≡ 6
    → IsKept mac (new_on_device p mac d)
unfolding configured
new_on_device-IsKept p mac d h = ground (arith, h)

new_on_devices-IsKept :
    (lower : List ℕ → List ℕ) (p : Pcap) (wanted mac : List ℕ) (ds : Option (List Device))
    → length mac ≡ 6
    → IsKept mac (new_on_devices lower p wanted mac ds)
new_on_devices-IsKept lower p wanted mac none h = (refl, tt)
new_on_devices-IsKept lower p wanted mac (some ds) h =
    new_on_device-IsKept p mac (find_device lower wanted ds) h

IsKept-if :
    (mac : List ℕ) (x y : List Call × Opened Capture) (b : Bool)
    → (b ≡ true → IsKept mac x)
    → (b ≡ false → IsKept mac y)
    → IsKept mac (if b then x else y)
IsKept-if mac x y true p q = p refl
IsKept-if mac x y false p q = q refl

-- Whatever pcap answers, `New` gives back every handle that it made, but the one of the capture that it
-- returns; that capture is open, and filters for the address of six bytes that it was asked for.
pub new_capture-kept :
    (lower : List ℕ → List ℕ) (p : Pcap) (wanted mac : List ℕ)
    → (left (new_capture lower p wanted mac).0 (0, 0) ≡ kept (new_capture lower p wanted mac).1)
      × IsFor mac (new_capture lower p wanted mac).1
unfolding new_capture
new_capture-kept lower p wanted mac =
    IsKept-if mac _ _ (not (length mac == 6)) (λ other. (refl, tt))
      (λ six.
        IsKept-if mac _ _ (not (check_npcap_installed p)) (λ missing. (refl, tt))
          (λ there. new_on_devices-IsKept lower p wanted mac p.find_all_devs (ground (arith, six))))

-- The handles that a session has left if it has returned.
abbrev IsReturned : Session → Type 0
IsReturned (calls, r) = r ≢ opened listening → left calls (0, 0) ≡ (0, 0)

on_interface-IsReturned :
    (p : Pcap) (turns : List Turn) (name : Option (List ℕ)) → IsReturned (on_interface p turns name)
unfolding configured on_interface on_active after_config
on_interface-IsReturned p turns name = ground arith

on_devices-IsReturned :
    (lower : List ℕ → List ℕ) (p : Pcap) (wanted : List ℕ) (turns : List Turn)
    (ds : Option (List Device))
    → IsReturned (on_devices lower p wanted turns ds)
unfolding on_devices
on_devices-IsReturned lower p wanted turns none h = refl
on_devices-IsReturned lower p wanted turns (some ds) h =
    on_interface-IsReturned p turns (find_interface lower wanted ds) h

-- When `Discover` returns, whatever pcap has answered, it has given back every handle that it made.
pub discover_session-left :
    (lower : List ℕ → List ℕ) (p : Pcap) (wanted : List ℕ) (turns : List Turn)
    → (discover_session lower p wanted turns).1 ≢ opened listening
    → left (discover_session lower p wanted turns).0 (0, 0) ≡ (0, 0)
unfolding discover_session
discover_session-left lower p wanted turns h =
    on_devices-IsReturned lower p wanted turns p.find_all_devs h
