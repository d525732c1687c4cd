-- ===== src/Transport/Connect/Attempt.antt =====
-- An attempt of the handshake that succeeds.
use xbslink_ng.Base.{
  ℕ, ◌≡◌, refl, ap, ap₂, sym, ◌∙◌, Bool, true, false, none, some, List, [], ◌∷◌, arith, inl, inr,
  Any, length,
}
use xbslink_ng.Protocol.{Mac, Codec, ok, challenge_size}
use xbslink_ng.Net.{addr_equal}
use xbslink_ng.Protocol.RoundTrip.{after_sending}
use xbslink_ng.Transport.Handshake.{hello_written}
use xbslink_ng.Transport.{
  Transport, Round, Exit, Turn, Write, success, ack_turn, ack_loop, attempt_handshake, after_turn,
  after_hello,
}
use xbslink_ng.Transport.Connect.{IsAnswer, Keeps, turn_goes_on, Succeeds, turn_succeeds}

module _ (mac : Mac) where
  IsAnswer-Keeps :
      (t t' : Transport) (r : Round) → Keeps mac t t' → IsAnswer mac t' r → IsAnswer mac t r
  IsAnswer-Keeps t t' r k a = record {
    addr = a.addr;
    bytes = a.bytes;
    before = a.before;
    after = a.after;
    msg = a.msg;
    arrived = a.arrived;
    from_peer = ap (addr_equal (some a.addr)) (sym k.peer) ∙ a.from_peer;
    same_key = a.same_key ∙ k.key;
    decoded = a.decoded;
    is_ack = a.is_ack;
    proof = a.proof ∙ ap₂ mac.sum k.key k.challenge;
  }

  Any-Keeps :
      (t t' : Transport) (rs : List Round)
      → Keeps mac t t'
      → Any (IsAnswer mac t') rs
      → Any (IsAnswer mac t) rs
  Any-Keeps t t' [] k a = a
  Any-Keeps t t' (r ∷ rs) k (inl a) = inl (IsAnswer-Keeps t t' r k a)
  Any-Keeps t t' (r ∷ rs) k (inr a) = inr (Any-Keeps t t' rs k a)

  after_turn-Succeeds :
      (t t' : Transport) (r : Round) (rs : List Round) (out : List Write) (turn : Turn)
      → t.codec.secure_mode ≡ true
      → ((x : Transport) (o : List Write)
          → x.codec.secure_mode ≡ true
          → ack_loop mac x rs ≡ (t', o, success)
          → Succeeds mac x rs t')
      → ack_turn mac t r ≡ turn
      → after_turn turn (λ x. ack_loop mac x rs) ≡ (t', out, success)
      → Succeeds mac t (r ∷ rs) t'
  after_turn-Succeeds t t' r rs out (x, o, some e) secure ih here h =
      let (answer, up, fresh) =
        turn_succeeds mac t t' r out secure
          (here ∙ ap (λ (y : Transport × List Write × Exit). (y.0, y.1, some y.2)) h) in
      (inl answer, up, fresh)
  after_turn-Succeeds t t' r rs out (x, o, none) secure ih here h =
      let k = turn_goes_on mac t x r o here in
      let (later, up, fresh) =
        ih x (ack_loop mac x rs).1 (k.mode ∙ secure)
          (ap (λ (y : Transport × List Write × Exit). (y.0, (ack_loop mac x rs).1, y.2)) h) in
      (inr (Any-Keeps t x rs k later), up, fresh)

  ack_loop-Succeeds :
      (t t' : Transport) (rs : List Round) (out : List Write)
      → t.codec.secure_mode ≡ true
      → ack_loop mac t rs ≡ (t', out, success)
      → Succeeds mac t rs t'
  unfolding ack_loop
  ack_loop-Succeeds t t' [] out secure h = cc
  ack_loop-Succeeds t t' (r ∷ rs) out secure h =
      after_turn-Succeeds t t' r rs out (ack_turn mac t r) secure
        (λ x o s e. ack_loop-Succeeds x t' rs o s e) refl h

  -- The connector after its HELLO.
  abbrev pub greeted : Transport → List ℕ → Transport
  greeted t random = record t { codec = after_sending t.codec; challenge = random }

  after_hello-Succeeds :
      (t t' : Transport) (random : List ℕ) (write_ok : Bool) (rounds : List Round) (m : List ℕ)
      (out : List Write)
      → (after_sending t.codec).secure_mode ≡ true
      → after_hello mac t write_ok rounds (after_sending t.codec, ok (m, random))
        ≡ (t', out, success)
      → Succeeds mac (greeted t random) rounds t'
  unfolding after_hello
  after_hello-Succeeds t t' random true rounds m out secure h =
      ack_loop-Succeeds (greeted t random) t' rounds (ack_loop mac (greeted t random) rounds).1
        secure
        (ap
          (λ (y : Transport × List Write × Exit).
            (y.0, (ack_loop mac (greeted t random) rounds).1, y.2))
          h)
  after_hello-Succeeds t t' random false rounds m out secure h = cc

  -- In secure mode a handshake attempt succeeds only if one of its rounds brought, from the peer's
  -- address, a HELLO_ACK that the codec accepted and that answers this attempt's 16 random bytes
  -- with their HMAC under the shared key; the connector is then connected, and has no nonce of an
  -- earlier session.
  pub attempt_handshake_authentic :
      (t t' : Transport) (random : List ℕ) (write_ok : Bool) (rounds : List Round)
      (out : List Write)
      → t.codec.secure_mode ≡ true
      → length random ≡ challenge_size
      → attempt_handshake mac t (some random) write_ok rounds ≡ (t', out, success)
      → Any (IsAnswer mac (greeted t random)) rounds
        × (t'.connected ≡ true)
        × (t'.codec.recv_nonce ≡ 0)
  unfolding attempt_handshake
  attempt_handshake_authentic t t' random write_ok rounds out secure size h =
      after_hello-Succeeds t t' random write_ok rounds _ out (mode_kept t.codec secure)
        (ap (after_hello mac t write_ok rounds) (sym (hello_written mac t random size)) ∙ h)
    where
      mode_kept : (c : Codec) → c.secure_mode ≡ true → (after_sending c).secure_mode ≡ true
      mode_kept c e = ground arith
