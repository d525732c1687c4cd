-- ===== src/Events/Tests.antt =====
-- Two events and the turns that write them, with an encoder that writes the type.
use xbslink_ng.Base.{ℕ, ◌+◌, ◌≡◌, refl, List, [], ◌++◌, true, false, codes, length, IsPart}
use xbslink_ng.Events.{
  EventType, event_discovery, event_error, Envelope, Data, discovery_data, error_data,
}
use xbslink_ng.Samples.{typed}
use xbslink_ng.Events.Lines.{lines_read, texts, bytes_of}
use xbslink_ng.Events.Async.{Writer, new_writer, emit, Reach, emitting, closing, here, next, append}
use xbslink_ng.Events.Order.{contents, emitted, lines_in_order, turns}
use xbslink_ng.Events.Close.{close_flushes, close_returns}

abbrev console_heard : Data ℕ
console_heard = discovery_data (record { mac = codes "00:50:f2:12:34:56" })

abbrev peer_gone : Data ℕ
peer_gone = error_data (record { message = codes "lost" })

abbrev fresh : Writer ℕ
fresh = new_writer true

-- Two events wait.
abbrev filled : Writer ℕ
filled = emit 2 event_error peer_gone (emit 1 event_discovery console_heard fresh)

to_filled : Reach typed fresh filled
to_filled =
    next (next here (emitting 1 event_discovery console_heard)) (emitting 2 event_error peer_gone)

-- `Close` has been called.
abbrev closing_down : Writer ℕ
closing_down = record filled { done = true }

still_open : (filled.finished ≡ false) × (filled.closed ≡ false) × (filled.done ≡ false)
unfolding new_writer emit
still_open = (refl, refl, refl)

length-filled : length closing_down.events ≡ 2
unfolding new_writer emit
length-filled = refl

abbrev at_rest :
    (v : Writer ℕ) × (r : Reach typed closing_down v) × (v.closed ≡ true)
    × (v.events ≡ [])
    × (turns r ≡ length closing_down.events + 2)
at_rest = close_returns typed closing_down refl still_open.0 still_open.1

-- From the start: two events are emitted, `Close` is called, and the goroutine writes both and ends.
abbrev whole : Reach typed fresh at_rest.0
whole = append typed (next to_filled (closing still_open.2)) at_rest.1

lines_in_order_example :
    (es : List (Envelope ℕ)) × (lines_read [] at_rest.0.inner.bytes ≡ texts typed es)
    × IsPart (contents es) (emitted whole)
lines_in_order_example = lines_in_order typed true at_rest.0 whole

close_flushes_example :
    (es : List (Envelope ℕ)) × (rest : List (EventType × Data ℕ)) × (at_rest.0.inner.bytes
      ≡ closing_down.inner.bytes ++ bytes_of typed es)
    × (contents es ≡ contents closing_down.events ++ rest)
close_flushes_example =
    close_flushes typed closing_down at_rest.0 at_rest.1 still_open.0 still_open.1 at_rest.2
