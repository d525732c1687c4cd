-- ===== src/Main/Background/Handles.antt =====
-- cmd/xbslink-ng/main.go: what a background discovery leaves.
use xbslink_ng.Base.{
  ℕ, ◌+◌, ◌-◌, ◌≡◌, ◌≢◌, refl, ap, ◌∙◌, ◌⊎◌, inl, inr, true, none, some, List, [], ◌∷◌, ◌++◌, arith,
}
use xbslink_ng.Config.{Config, Disk}
use xbslink_ng.Discovery.{listening, discovery_cancelled, found}
use xbslink_ng.Discovery.Session.{Session, discover_session}
use xbslink_ng.Capture.Handle.{
  Capture, Call, created, cleaned_up, activated, closed, Opened, new_capture, close_capture,
}
use xbslink_ng.Capture.Handle.Leak.{
  Handles, left, kept, IsFor, new_capture-kept, discover_session-left,
}
use xbslink_ng.Bridge.Capturing.{Capturing, has_capture, set_capture}
use xbslink_ng.Main.Setup.{World}
use xbslink_ng.Main.Background.{
  Background, idle, after_set, after_new, on_console, after_session, run_background,
}

capture_cases : (s : Capturing) → (s.capture ≡ none) ⊎ (has_capture s ≡ true)
unfolding has_capture
capture_cases s = ground arith

left-append : (xs ys : List Call) (h : Handles) → left (xs ++ ys) h ≡ left ys (left xs h)
left-append [] ys h = refl
left-append (created ∷ xs) ys h = left-append xs ys (h.0 + 1, h.1)
left-append (cleaned_up ∷ xs) ys h = left-append xs ys (h.0 - 1, h.1)
left-append (activated ∷ xs) ys h = left-append xs ys (h.0, h.1 + 1)
left-append (closed ∷ xs) ys h = left-append xs ys (h.0, h.1 - 1)

-- The handles left are those of the capture that the bridge has got, for the address announced; or
-- the bridge is as before, and there are none.
abbrev pub Gained : Capturing → Background → Type 0
Gained s b =
    ((b.bridge ≡ s) × (left b.calls (0, 0) ≡ (0, 0)))
    ⊎ ((s.capture ≡ none)
        × ((c : Capture) × (b.bridge.capture ≡ some c)
            × (c.handle_open ≡ true)
            × (b.announced ≡ c.xbox_mac ∷ []))
        × (left b.calls (0, 0) ≡ (0, 1)))

after_set-Gained :
    (b : Background) (c : Capture)
    → c.handle_open ≡ true
    → b.announced ≡ c.xbox_mac ∷ []
    → left b.calls (0, 0) ≡ (0, 1)
    → Gained b.bridge (after_set b c (set_capture b.bridge c))
unfolding set_capture has_capture close_capture
after_set-Gained b c o a l = elim (capture_cases b.bridge) [
  | inl e ↦ inr (e, (c, ground (arith, e), o, ground (arith, e, a)), ground (arith, e, l))
  | inr h ↦
      inl (ground (arith, h), ground (arith, h, left-append b.calls (closed ∷ []) (0, 0), l, o))
]

after_new-Gained :
    (b : Background) (calls : List Call) (mac : List ℕ) (r : Opened Capture)
    → left b.calls (0, 0) ≡ (0, 0)
    → b.announced ≡ mac ∷ []
    → left calls (0, 0) ≡ kept r
    → IsFor mac r
    → Gained b.bridge (after_new b (calls, r))
after_new-Gained b calls mac (Opened.refused e) l a k f =
    inl (refl, left-append b.calls calls (0, 0) ∙ ap (left calls) l ∙ k)
after_new-Gained b calls mac (Opened.opened c) l a k f =
    after_set-Gained (record b { calls = b.calls ++ calls }) c f.0 (ground (arith, a, f.1))
      (left-append b.calls calls (0, 0) ∙ ap (left calls) l ∙ k)

after_session-Gained :
    (w : World) (wanted : List ℕ) (cfg : Config) (disk : Disk) (s : Capturing) (out : Session)
    → (out.1 ≢ Opened.opened listening → left out.0 (0, 0) ≡ (0, 0))
    → (after_session w wanted (idle cfg disk s) out).returned ≡ true
    → Gained s (after_session w wanted (idle cfg disk s) out)
unfolding after_session on_console
after_session-Gained w wanted cfg disk s (calls, Opened.refused e) h r = inl (refl, h (λ x. cc x))
after_session-Gained w wanted cfg disk s (calls, Opened.opened listening) h r = cc r
after_session-Gained w wanted cfg disk s (calls, Opened.opened discovery_cancelled) h r =
    inl (refl, h (λ x. cc x))
after_session-Gained w wanted cfg disk s (calls, Opened.opened (found mac)) h r =
    let kept_all = new_capture-kept w.lower w.pcap wanted mac in
    after_new-Gained _ (new_capture w.lower w.pcap wanted mac).0 mac
      (new_capture w.lower w.pcap wanted mac).1 (h (λ x. cc x)) refl kept_all.0 kept_all.1

-- When a background discovery returns, whatever pcap and the file system answer: either the bridge is
-- as before and every handle is given back, or the bridge had no capture, and has now one that is open,
-- for the address announced, whose handle is the only one left.
pub run_background-Gained :
    (w : World) (wanted : List ℕ) (cfg : Config) (disk : Disk) (s : Capturing)
    → (run_background w wanted cfg disk s).returned ≡ true
    → Gained s (run_background w wanted cfg disk s)
unfolding run_background
run_background-Gained w wanted cfg disk s r =
    after_session-Gained w wanted cfg disk s
      (discover_session w.lower w.discovery_pcap wanted w.turns)
      (discover_session-left w.lower w.discovery_pcap wanted w.turns) r
