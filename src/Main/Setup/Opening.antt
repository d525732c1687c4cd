-- ===== src/Main/Setup/Opening.antt =====
-- cmd/xbslink-ng/main.go: the set-up with an address, and without one.
use xbslink_ng.Base.{
  ℕ, ◌≡◌, refl, ap, Bool, true, false, not, ◌&&◌, Option, none, some, List, length,
}
use xbslink_ng.Transport.{is_listen}
use xbslink_ng.Logging.{Level}
use xbslink_ng.Config.{Config, Disk, load, save, set_xbox_mac}
use xbslink_ng.Discovery.{Exit, found}
use xbslink_ng.Discovery.Session.{discover_session}
use xbslink_ng.Capture.Handle.{Capture, Opened, opened, new_capture}
use xbslink_ng.Capture.Handle.Leak.{IsFor, new_capture-kept}
use xbslink_ng.Main.Setup.Holds.{
  Holds, at_exit, at_block, at_value, Holds-bind, Holds-skip, otherwise, then_,
}
use xbslink_ng.Main.Setup.{
  Options, World, or_empty, opened_capture, discovered, discover_first, with_choice, start_with,
  no_capture, Emitter, no_console, Ready,
}

-- The set-up knows the address, and has opened a capture that filters for it.
abbrev pub HasCapture : List ℕ → Ready → Type 0
HasCapture mac r =
    (r.mac ≡ some mac)
    × (r.needs_discovery ≡ false)
    × (length mac ≡ 6)
    × ((c : Capture) × (r.capture ≡ some c) × (c.handle_open ≡ true) × (c.xbox_mac ≡ mac))

abbrev pub HasNone : Ready → Type 0
HasNone r = (r.mac ≡ none) × (r.needs_discovery ≡ true) × (r.capture ≡ none)

-- The configuration that a start has loaded.
abbrev pub config_of : World → Options → Disk → Config
config_of w o disk = or_empty (load w.os w.json disk)

abbrev IsOpenFor : List ℕ → Capture → Type 0
IsOpenFor mac c = (length mac ≡ 6) × (c.handle_open ≡ true) × (c.xbox_mac ≡ mac)

opened-IsOpenFor :
    (mac : List ℕ) (x : Opened Capture) → IsFor mac x → Holds (IsOpenFor mac) (opened_capture x)
opened-IsOpenFor mac (Opened.refused e) h = at_exit no_capture
opened-IsOpenFor mac (Opened.opened c) h = at_value c (h.3, h.0, h.1)

new-IsOpenFor :
    (w : World) (wanted mac : List ℕ)
    → Holds (IsOpenFor mac) (opened_capture (new_capture w.lower w.pcap wanted mac).1)
new-IsOpenFor w wanted mac =
    opened-IsOpenFor mac (new_capture w.lower w.pcap wanted mac).1
      (new_capture-kept w.lower w.pcap wanted mac).1

-- A capture that is open, if there is an address.
abbrev HasOpen : List ℕ → Option Capture → Type 0
HasOpen mac c =
    (length mac ≡ 6) × ((x : Capture) × (c ≡ some x) × (x.handle_open ≡ true) × (x.xbox_mac ≡ mac))

discovered-eq : (x : Opened Exit) → Holds (λ (mac : List ℕ). x ≡ opened (found mac)) (discovered x)
discovered-eq (Opened.refused e) = at_exit no_console
discovered-eq (Opened.opened Exit.discovery_cancelled) = at_exit no_console
discovered-eq (Opened.opened Exit.listening) = at_block
discovered-eq (Opened.opened (Exit.found mac)) = at_value mac refl

-- The address comes from a discovery, and is saved.
abbrev pub IsHeard : World → List ℕ → Config → Disk → Ready → Type 0
IsHeard w wanted cfg disk r =
    (mac : List ℕ) × ((discover_session w.lower w.discovery_pcap wanted w.turns).1
      ≡ opened (found mac))
    × HasCapture mac r
    × (r.disk ≡ (save w.os w.json (set_xbox_mac cfg mac) disk).0)

discover_first-IsHeard :
    (w : World) (wanted : List ℕ) (r : Ready)
    → Holds (IsHeard w wanted r.config r.disk) (discover_first w wanted r)
unfolding discover_first
discover_first-IsHeard w wanted r =
    Holds-bind _ _ (discovered-eq (discover_session w.lower w.discovery_pcap wanted w.turns).1)
      (λ mac e.
        Holds-bind _ _ (new-IsOpenFor w wanted mac)
          (λ c h. at_value _ (mac, e, (refl, refl, h.0, (c, refl, h.1, h.2)), refl)))

module _ (w : World) (o : Options) (disk : Disk) (level : Level) (emitter : Emitter) where
  pub known-HasCapture :
      (mac : List ℕ)
      → Holds
          (λ (r : Ready). HasCapture mac r × (r.disk ≡ disk))
          (with_choice w o level emitter (config_of w o disk) disk (some mac, false))
  unfolding with_choice
  known-HasCapture mac = Holds-skip _ _ (λ d.
      Holds-bind {P = HasOpen mac} _ _
        (Holds-bind _ _ (new-IsOpenFor w o.if_name mac)
          (λ c h. at_value (some c) (h.0, (c, refl, h.1, h.2))))
        (λ c h. at_value _ ((refl, refl, h.0, h.1), refl)))

  -- Without an address, in listen mode.
  pub unknown-HasNone :
      is_listen o.mode ≡ true
      → Holds
          (λ (r : Ready). HasNone r × (r.disk ≡ disk))
          (with_choice w o level emitter (config_of w o disk) disk (none, true))
  unfolding with_choice
  unknown-HasNone listens = Holds-skip _ _ (λ d.
      Holds-bind {P = λ (c : Option Capture). c ≡ none} _ _ (at_value none refl) (λ c e.
        otherwise _ _ (ap (λ (b : Bool). true && not b) listens)
          (at_value _ ((refl, refl, e), refl))))

  -- Without an address, in connect mode.
  pub with_choice-IsHeard :
      is_listen o.mode ≡ false
      → Holds
          (IsHeard w o.if_name (config_of w o disk) disk)
          (with_choice w o level emitter (config_of w o disk) disk (none, true))
  unfolding with_choice
  with_choice-IsHeard connects = Holds-skip _ _ (λ d.
      Holds-bind {P = λ (c : Option Capture). c ≡ none} _ _ (at_value none refl) (λ c e.
        then_ _ _ (ap (λ (b : Bool). true && not b) connects) (
          discover_first-IsHeard w o.if_name
            (start_with o level emitter (config_of w o disk) disk (none, true) c))))
