-- ===== src/Discovery/Session.antt =====
-- internal/discovery/discovery.go: `Discover` with the opening of its handle, which it gives back when
-- it returns.
mod Tests
use xbslink_ng.Base.{
  ℕ, Bool, true, false, not, Option, none, some, List, [], ◌∷◌, ◌++◌, if◌then◌else◌, codes,
}
use xbslink_ng.Capture.Handle.{
  Pcap, Call, created, cleaned_up, activated, closed, Error, not_listed, interface_not_found,
  no_handle, bad_filter, Opened, refused, opened, configured,
}
use xbslink_ng.Discovery.{
  Device, Turn, Exit, listening, discovery_cancelled, found, discover, find_interface,
}

-- The calls so far, and how `Discover` ends. While it listens, nothing is given back.
abbrev pub Session : Type 0
Session = List Call × Opened Exit

abbrev pub after_loop : Exit → Session
after_loop listening = (activated ∷ [], opened listening)
after_loop discovery_cancelled = (activated ∷ closed ∷ [], opened discovery_cancelled)
after_loop (found mac) = (activated ∷ closed ∷ [], opened (found mac))

unfoldable pub on_active : Pcap → List Turn → Session
unfolding discover
on_active p turns =
    if p.set_bpf_filter (codes "udp port 3074")
    then after_loop (discover turns)
    else (activated ∷ closed ∷ [], refused bad_filter)

unfoldable pub after_config : Pcap → List Turn → Option Error → Session
unfolding on_active
after_config p turns (some e) = ([], refused e)
after_config p turns none = on_active p turns

-- `defer inactive.CleanUp()`
abbrev pub at_return : Session → Session
at_return (calls, opened listening) = (created ∷ calls, opened listening)
at_return (calls, r) = (created ∷ calls ++ (cleaned_up ∷ []), r)

unfoldable pub on_interface : Pcap → List Turn → Option (List ℕ) → Session
unfolding configured after_config
on_interface p turns none = ([], refused interface_not_found)
on_interface p turns (some name) =
    if p.new_inactive_handle
    then at_return (after_config p turns (configured p))
    else ([], refused no_handle)

unfoldable pub on_devices :
    (List ℕ → List ℕ) → Pcap → List ℕ → List Turn → Option (List Device) → Session
unfolding find_interface on_interface
on_devices lower p wanted turns none = ([], refused not_listed)
on_devices lower p wanted turns (some ds) = on_interface p turns (find_interface lower wanted ds)

unfoldable pub discover_session : (List ℕ → List ℕ) → Pcap → List ℕ → List Turn → Session
unfolding on_devices
discover_session lower p wanted turns = on_devices lower p wanted turns p.find_all_devs
