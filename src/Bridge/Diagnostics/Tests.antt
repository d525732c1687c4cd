-- ===== src/Bridge/Diagnostics/Tests.antt =====
-- The events of a peer that is given up.
use xbslink_ng.Base.{
  ℕ, ◌+◌, ◌≤◌, ◌≡◌, refl, true, false, none, List, [], ◌∷◌, ◌++◌, arith, length, codes, decimal,
  digits,
}
use xbslink_ng.Net.{UdpAddr}
use xbslink_ng.Events.{
  type_string, newline, event_error, event_state_changed, error_data, state_changed_data, Envelope,
}
use xbslink_ng.Events.Lines.{bytes_of}
use xbslink_ng.Events.Async.{Writer, new_writer, emit, Reach, closing, here, next, append}
use xbslink_ng.Events.Order.{contents}
use xbslink_ng.Events.Close.{close_returns}
use xbslink_ng.Samples.{typed, toy_mac, up_bridge, there}
use xbslink_ng.Bridge.{disconnected, state_changed, peer_lost, send_ping}
use xbslink_ng.Bridge.Ping.{tick}
use xbslink_ng.Bridge.Report.{state_string}
use xbslink_ng.Bridge.Diagnostics.{Texts, described, peer_text, lost_message}
use xbslink_ng.Bridge.Diagnostics.Reported.{emit_all, lost_peer_reported}

abbrev plain : Texts ℕ
plain = record { address = λ (a : UdpAddr). codes "peer"; milliseconds = λ (d : ℕ). d }

three_missed :
    described plain (peer_lost 3)
    ≡ (event_error, error_data (record { message = codes "peer unresponsive (missed 3 pongs)" }))
unfolding described lost_message decimal digits
three_missed = refl

now_disconnected : described plain (state_changed disconnected none) ≡ (
  event_state_changed,
  state_changed_data (record { state = codes "DISCONNECTED"; peer_addr = [] }),
)
unfolding described peer_text state_string
now_disconnected = refl

abbrev fresh : Writer ℕ
fresh = new_writer true

-- The writer after the fourth tick of a bridge whose peer is silent.
abbrev told : Writer ℕ
told =
    emit_all plain 9
      (send_ping toy_mac 4 true
        (tick toy_mac 3 true (tick toy_mac 2 true (tick toy_mac 1 true (up_bridge there))))).2
      fresh

told_open : (told.done ≡ false) × (told.finished ≡ false) × (told.closed ≡ false)
unfolding emit_all described emit send_ping new_writer
told_open = (refl, refl, refl)

abbrev told_closed : (v : Writer ℕ) × (r : Reach typed told v) × (v.closed ≡ true)
told_closed =
    let stopped = record told { done = true } in
    let (v, r, c, _, _) = close_returns typed stopped refl told_open.1 told_open.2 in
    (v, append typed (next here (closing told_open.0)) r, c)

fresh_room : (fresh.finished ≡ false) × (fresh.closed ≡ false) × (length fresh.events + 2 ≤ 64)
unfolding new_writer
fresh_room = (refl, refl, omega arith)

lost_peer_reported_example :
    (before : List (Envelope ℕ)) × (at : ℕ) × (at' : ℕ) × (later : List ℕ) × (contents before
      ≡ contents fresh.events)
    × (told_closed.0.inner.bytes
        ≡ fresh.inner.bytes
          ++ (bytes_of typed before
              ++ (type_string event_error
                  ++ newline ∷ (type_string event_state_changed ++ newline ∷ later))))
lost_peer_reported_example =
    lost_peer_reported plain typed toy_mac (up_bridge there) 1 2 3 4 9 true true true true
      (λ at. type_string event_error) (λ at. type_string event_state_changed) (λ at. refl)
      (λ at. refl) refl refl refl refl (omega arith) (omega arith) (omega arith) fresh told_closed.0
      fresh_room.2 fresh_room.0 fresh_room.1 told_closed.1 told_closed.2
