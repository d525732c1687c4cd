-- ===== src/Transport/Life.antt =====
-- Sending, receiving and closing.
use xbslink_ng.Base.{
  ℕ, ◌≡◌, Bool, true, false, ◌⊎◌, inr, none, some, List, [], ◌∷◌, arith, if◌then◌else◌,
}
use xbslink_ng.Protocol.{Mac}
use xbslink_ng.Transport.{
  Transport, Read, closed_error, not_connected, write_error, send, recv, send_bye, close,
}

-- A datagram goes out exactly on a transport that is connected and open, and then to its peer; the
-- error names the reason, with `closed` first.
pub send_cases :
    (t : Transport) (bytes : List ℕ) (write_ok : Bool)
    → ((t.closed ≡ true) × (send t bytes write_ok ≡ ([], some closed_error)))
      ⊎ ((t.closed ≡ false)
          × (t.connected ≡ false)
          × (send t bytes write_ok ≡ ([], some not_connected)))
      ⊎ ((t.closed ≡ false)
          × (t.connected ≡ true)
          × (send t bytes write_ok
              ≡ ((t.peer_addr, bytes) ∷ [], if write_ok then none else some write_error)))
unfolding send
send_cases t bytes write_ok = ground arith

-- After `Close` nothing more is written or read: `Send` and `Recv` report that the transport is
-- closed, `SendBye` writes nothing and is no error, and closing again changes nothing.
pub close_silences :
    (mac : Mac) (t : Transport) (bytes : List ℕ) (write_ok : Bool) (r : Read)
    → (send (close t) bytes write_ok ≡ ([], some closed_error))
      × (recv (close t) r ≡ inr closed_error)
      × (send_bye mac (close t) write_ok ≡ (close t, [], none))
      × (close (close t) ≡ close t)
unfolding send recv send_bye close
close_silences mac t bytes write_ok r = ground arith
