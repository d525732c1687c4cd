-- ===== src/Bridge/Run/Guarded.antt =====
-- internal/bridge/bridge.go and internal/protocol/protocol.go: the key over a run of a bridge.
use xbslink_ng.Base.{
  ℕ, zero, suc, ◌+◌, ◌%◌, ◌^◌, ◌≡◌, refl, sym, ap, ◌∙◌, subst, Option, inl, inr, Bool, true, List,
  [], arith, All, All-map, IsByte, get_or,
}
use xbslink_ng.Protocol.{Mac, Codec, Message, Result}
use xbslink_ng.Protocol.Layout.{encode_secure_layout}
use xbslink_ng.Protocol.Refused.{IsSigned, unsigned_refused}
use xbslink_ng.Protocol.RoundTrip.{after_sending}
use xbslink_ng.Protocol.Accept.Datagrams.{authentic}
use xbslink_ng.Protocol.Messages.{Outgoing, bye, type_of, payload_of}
use xbslink_ng.Protocol.Messages.Decoded.{datagram}
use xbslink_ng.Protocol.Network.{at, unread}
use xbslink_ng.Net.{UdpAddr}
use xbslink_ng.Transport.{Write, Round, Attempt, got}
use xbslink_ng.Bridge.Rtt.{Float64}
use xbslink_ng.Bridge.{Bridge, recv_turn, on_decoded}
use xbslink_ng.Bridge.Forward.{with_codec}
use xbslink_ng.Bridge.Begin.{up, begin_run}
use xbslink_ng.Bridge.Run.{System, Reach, started}
use xbslink_ng.Bridge.Run.Inbound.{read_or_ignored}
use xbslink_ng.Bridge.Run.Key.{run-KeepsKey, begin_run-KeepsKey}
use xbslink_ng.Bridge.Run.Trace.{writes}
use xbslink_ng.Bridge.Run.Voice.{IsSent, run-HasSaid}
use xbslink_ng.Bridge.Run.Tunnel.ColdStart.{begin_run_up}

module _ (mac : Mac) where
  datagram-IsSigned :
      (c : Codec) (o : Outgoing) → c.secure_mode ≡ true → IsSigned mac c.key (datagram mac c o)
  datagram-IsSigned c o secure = (
    type_of o,
    (c.send_nonce + 1) % 2 ^ 64,
    payload_of mac c o,
    ap (λ (x : Codec × List ℕ). x.1)
        (encode_secure_layout mac c (type_of o) (payload_of mac c o) secure),
  )

  at-key : (c : Codec) (n : ℕ) → ((at c n).key ≡ c.key) × ((at c n).secure_mode ≡ c.secure_mode)
  at-key c zero = (refl, refl)
  at-key c (suc n) = ground (arith, at-key (after_sending c) n)

  sent-IsSigned :
      (c : Codec) (os : List Outgoing) (w : Write)
      → c.secure_mode ≡ true
      → IsSent mac c os w
      → IsSigned mac c.key w.1
  sent-IsSigned c os w secure (i, lt, e) =
      let (key, mode) = at-key c i in
      let (t, n, p, made) = datagram-IsSigned (at c i) (get_or os i bye) (mode ∙ secure) in
      (t, n, p, e ∙ made ∙ ap (λ (k : List ℕ). authentic mac k t n p) key)

  unsigned_ignored :
      (f : Float64) (now : ℕ) (write_ok : Bool) (peer : Option UdpAddr) (b : Bridge)
      (addr : UdpAddr) (d : List ℕ)
      → b.transport.codec.secure_mode ≡ true
      → All IsByte d
      → ¬ IsSigned mac b.transport.codec.key d
      → recv_turn mac f now write_ok peer b (got addr d) ≡ (b, [], [])
  unfolding on_decoded
  unsigned_ignored f now write_ok peer b addr d secure bytes forged =
      let (e, x) = unsigned_refused mac b.transport.codec d secure bytes forged in
      elim (read_or_ignored mac f now write_ok peer b addr d) [
        | inl same ↦ same
        | inr read ↦
            read
            ∙ ap
                (λ (y : Codec × Result Message).
                  on_decoded mac f now write_ok (with_codec b y.0) y.1)
                (unread mac b.transport.codec d e x)
      ]

  -- A bridge with a key whose `Run` has got to its goroutines, with nothing to send on at first: in any
  -- state of the run, whatever has arrived and in whatever order its loops have taken their turns, each
  -- datagram that the loops have written is type, nonce and payload with their HMAC under the key that
  -- the bridge was made with; and a datagram that is not such, of whatever bytes and from whichever
  -- address, changes nothing at the next turn of the receiving loop and is not answered.
  pub run-IsGuarded :
      (f : Float64) (cancelled stats : Bool) (b : Bridge) (rounds : List Round)
      (attempts : List Attempt) (s : System)
      (r : Reach mac f (started (begin_run mac cancelled b rounds attempts).0 stats) s) (now : ℕ)
      (write_ok : Bool) (addr : UdpAddr) (d : List ℕ)
      → (begin_run mac cancelled b rounds attempts).3 ≡ up
      → b.transport.codec.secure_mode ≡ true
      → b.frames_to_send ≡ []
      → All IsByte d
      → ¬ IsSigned mac b.transport.codec.key d
      → All (λ (w : Write). IsSigned mac b.transport.codec.key w.1) (writes r)
        × (recv_turn mac f now write_ok s.peer s.bridge (got addr d) ≡ (s.bridge, [], []))
  run-IsGuarded f cancelled stats b rounds attempts s r now write_ok addr d is_up secure empty bytes
        forged =
      let b' = (begin_run mac cancelled b rounds attempts).0 in
      let (key, mode) = begin_run-KeepsKey mac cancelled b rounds attempts in
      let (key', mode') = run-KeepsKey mac f cancelled stats b rounds attempts s r in
      let said =
        run-HasSaid mac f r (mode ∙ secure)
          ((begin_run_up mac cancelled b rounds attempts is_up).1 ∙ empty) in
      (
        subst (λ (k : List ℕ). All (λ (w : Write). IsSigned mac k w.1) (writes r)) key
            (All-map (λ w sent. sent-IsSigned b'.transport.codec said.os w (mode ∙ secure) sent)
              (writes r) said.written),
        unsigned_ignored f now write_ok s.peer s.bridge addr d (mode' ∙ secure) bytes
            (subst (λ (k : List ℕ). ¬ IsSigned mac k d) (sym key') forged),
      )
