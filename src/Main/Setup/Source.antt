-- ===== src/Main/Setup/Source.antt =====
-- cmd/xbslink-ng/main.go: where the address of the console comes from.
use xbslink_ng.Base.{
  ℕ, ◌≡◌, ◌≢◌, refl, sym, ap, subst, true, false, not, Option, none, some, List, [], equal,
  equal→eq, Bool-cases, inl, inr,
}
use xbslink_ng.Transport.{is_listen}
use xbslink_ng.Logging.{Level}
use xbslink_ng.Config.{Disk, save, get_xbox_mac, set_xbox_mac}
use xbslink_ng.Discovery.{found}
use xbslink_ng.Discovery.Session.{discover_session}
use xbslink_ng.Capture.Mac.{parse_mac}
use xbslink_ng.Capture.Handle.{opened}
use xbslink_ng.Main.Setup.Holds.{
  Holds, at_exit, at_value, Holds-bind, Holds-skip, Holds-map, otherwise, then_, from_ready,
}
use xbslink_ng.Main.Setup.{
  Options, World, ready, Choice, given_choice, saved_choice, choose_mac, with_choice, bad_mac,
  Emitter, Ready, run_setup,
}
use xbslink_ng.Main.Setup.Opening.{
  HasCapture, HasNone, config_of, known-HasCapture, unknown-HasNone, with_choice-IsHeard,
}

module _ (w : World) (o : Options) (disk : Disk) where
  -- Where the address comes from: the flag, without it the saved configuration, without both, when
  -- connecting, a discovery, whose address is saved; when listening it is left for later.
  pub data Source (r : Ready) : Type 0 where
    given :
        (mac : List ℕ)
        → o.xbox_mac ≢ []
        → parse_mac o.xbox_mac ≡ some mac
        → HasCapture mac r
        → r.disk ≡ disk
        → Source r
    saved :
        (mac : List ℕ)
        → o.xbox_mac ≡ []
        → get_xbox_mac (config_of w o disk) ≡ some mac
        → HasCapture mac r
        → r.disk ≡ disk
        → Source r
    heard :
        (mac : List ℕ)
        → o.xbox_mac ≡ []
        → get_xbox_mac (config_of w o disk) ≡ none
        → is_listen o.mode ≡ false
        → (discover_session w.lower w.discovery_pcap o.if_name w.turns).1 ≡ opened (found mac)
        → HasCapture mac r
        → r.disk ≡ (save w.os w.json (set_xbox_mac (config_of w o disk) mac) disk).0
        → Source r
    later :
        o.xbox_mac ≡ []
        → get_xbox_mac (config_of w o disk) ≡ none
        → is_listen o.mode ≡ true
        → HasNone r
        → r.disk ≡ disk
        → Source r

module _ (w : World) (o : Options) (disk : Disk) where
  abbrev IsKnown : List ℕ → Choice → Type 0
  IsKnown mac c = c ≡ (some mac, false)

  data IsChoice (c : Choice) : Type 0 where
    by_flag :
        (mac : List ℕ)
        → o.xbox_mac ≢ []
        → parse_mac o.xbox_mac ≡ some mac
        → IsKnown mac c
        → IsChoice c
    by_config :
        (mac : List ℕ)
        → o.xbox_mac ≡ []
        → get_xbox_mac (config_of w o disk) ≡ some mac
        → IsKnown mac c
        → IsChoice c
    by_none :
        o.xbox_mac ≡ [] → get_xbox_mac (config_of w o disk) ≡ none → c ≡ (none, true) → IsChoice c

  given-IsChoice :
      o.xbox_mac ≢ []
      → (m : Option (List ℕ)) → parse_mac o.xbox_mac ≡ m
      → Holds IsChoice (given_choice m)
  given-IsChoice some_text none e = at_exit bad_mac
  given-IsChoice some_text (some mac) e = at_value _ (by_flag mac some_text e refl)

  saved-IsChoice :
      o.xbox_mac ≡ []
      → (m : Option (List ℕ)) → get_xbox_mac (config_of w o disk) ≡ m
      → IsChoice (saved_choice m)
  saved-IsChoice no_text none e = by_none no_text e refl
  saved-IsChoice no_text (some mac) e = by_config mac no_text e refl

  choose_mac-IsChoice : Holds IsChoice (choose_mac o.xbox_mac (config_of w o disk))
  unfolding choose_mac
  choose_mac-IsChoice = elim (Bool-cases (equal o.xbox_mac [])) [
    | inl empty ↦ otherwise _ _ (ap not empty) (
        at_value _
          (saved-IsChoice (equal→eq o.xbox_mac [] empty) (get_xbox_mac (config_of w o disk)) refl))
    | inr full ↦ then_ _ _ (ap not full) (
        given-IsChoice (λ e. cc (full, ap (λ (s : List ℕ). equal s []) e)) (parse_mac o.xbox_mac)
          refl)
  ]

  chosen :
      (level : Level) (emitter : Emitter) (c d : Choice)
      → c ≡ d
      → Holds (Source w o disk) (with_choice w o level emitter (config_of w o disk) disk d)
      → Holds (Source w o disk) (with_choice w o level emitter (config_of w o disk) disk c)
  chosen level emitter c d e =
      subst
        (λ (x : Choice).
          Holds (Source w o disk) (with_choice w o level emitter (config_of w o disk) disk x))
        (sym e)

  with_choice-Source :
      (level : Level) (emitter : Emitter) (c : Choice)
      → IsChoice c
      → Holds (Source w o disk) (with_choice w o level emitter (config_of w o disk) disk c)
  with_choice-Source level emitter c (by_flag mac some_text parsed e) = chosen level emitter c _ e (
      Holds-map (λ r h. given mac some_text parsed h.0 h.1)
        (known-HasCapture w o disk level emitter mac))
  with_choice-Source level emitter c (by_config mac no_text is_saved e) =
      chosen level emitter c _ e (
        Holds-map (λ r h. saved mac no_text is_saved h.0 h.1)
          (known-HasCapture w o disk level emitter mac))
  with_choice-Source level emitter c (by_none no_text not_saved e) =
      chosen level emitter c _ e (elim (Bool-cases (is_listen o.mode)) [
        | inl listens ↦
            Holds-map (λ r h. later no_text not_saved listens h.0 h.1)
              (unknown-HasNone w o disk level emitter listens)
        | inr connects ↦
            Holds-map (λ r h. heard h.0 no_text not_saved connects h.1 h.2 h.3)
              (with_choice-IsHeard w o disk level emitter connects)
      ])

Holds-Source :
    (w : World) (o : Options) (disk : Disk) → Holds (Source w o disk) (run_setup w o disk)
unfolding run_setup
Holds-Source w o disk = Holds-skip _ _ (λ level. Holds-skip _ _ (λ emitter.
    Holds-skip _ _ (λ checked.
      Holds-bind {P = IsChoice w o disk} _ _ (choose_mac-IsChoice w o disk)
        (λ choice h. with_choice-Source w o disk level emitter choice h))))

-- When the set-up gets to the loop, `Source` says where the address of the console comes from and
-- whether a capture is open for it. The disk is as before, except that with a discovered address it is
-- what the call of `Save` has left, whether or not that has succeeded.
pub run_setup-Source :
    (w : World) (o : Options) (disk : Disk) (r : Ready)
    → run_setup w o disk ≡ ready r
    → Source w o disk r
run_setup-Source w o disk r e = from_ready r (Holds-Source w o disk) e
