-- ===== src/Protocol/Replay.antt =====
-- The replay protection of `decode`.
use xbslink_ng.Base.{ℕ, ◌<◌, ◌≤◌, ◌≡◌, refl, ◌∙◌, true, List, [], ◌∷◌, arith, All, slice, uint_be}
use xbslink_ng.Protocol.{
  Mac, Codec, ok, err, replay_detected, verify_hmac, compute_hmac, check_message, decode_secure,
  decode,
}
use xbslink_ng.Protocol.Accept.Datagrams.{IsHandshake}

-- The nonce field of a secure message.
abbrev pub nonce_of : List ℕ → ℕ
nonce_of bytes = uint_be 0 (slice 1 9 bytes)

-- The codec after a series of datagrams.
pub decode_all : Mac → Codec → List (List ℕ) → Codec
decode_all mac c [] = c
decode_all mac c (d ∷ ds) = decode_all mac (decode mac c d).0 ds

-- A datagram leaves the key and the mode alone, and lowers the last nonce only if its own is 0.
pub decode_keeps :
    (mac : Mac) (c : Codec) (d : List ℕ)
    → ((decode mac c d).0.key ≡ c.key)
      × ((decode mac c d).0.secure_mode ≡ c.secure_mode)
      × ((decode mac c d).0.send_nonce ≡ c.send_nonce)
      × (0 < nonce_of d → c.recv_nonce ≤ (decode mac c d).0.recv_nonce)
unfolding decode decode_secure check_message
decode_keeps mac c d = ground arith

record Later (c c' : Codec) : Type 0 where
  same_key : c'.key ≡ c.key
  same_mode : c'.secure_mode ≡ c.secure_mode
  above : c.recv_nonce ≤ c'.recv_nonce

decode_all-Later :
    (mac : Mac) (c : Codec) (ds : List (List ℕ))
    → All (λ d. 0 < nonce_of d) ds
    → Later c (decode_all mac c ds)
unfolding decode_all
decode_all-Later mac c [] h = record { same_key = refl; same_mode = refl; above = omega arith }
decode_all-Later mac c (d ∷ ds) h =
    let l = decode_all-Later mac (decode mac c d).0 ds h.1 in
    let k = decode_keeps mac c d in
    record {
      same_key = l.same_key ∙ k.0;
      same_mode = l.same_mode ∙ k.1;
      above = omega (arith, l.above, k.3 h.0);
    }

-- Whatever accepted a datagram rejects it once the last nonce has reached the one it carries.
pub decode_again :
    (mac : Mac) (c c' x : Codec) (d : List ℕ) (t : ℕ) (payload : List ℕ)
    → c.secure_mode ≡ true
    → decode mac c d ≡ (c', ok (t, payload))
    → ¬ IsHandshake t
    → 0 < nonce_of d
    → x.key ≡ c.key
    → x.secure_mode ≡ true
    → nonce_of d ≤ x.recv_nonce
    → decode mac x d ≡ (x, err replay_detected)
unfolding decode decode_secure check_message verify_hmac compute_hmac
decode_again mac c c' x d t payload secure h other pos k m le = ground arith

pub accepted_nonce :
    (mac : Mac) (c c' : Codec) (d : List ℕ) (t : ℕ) (payload : List ℕ)
    → c.secure_mode ≡ true
    → decode mac c d ≡ (c', ok (t, payload))
    → ¬ IsHandshake t
    → (c'.recv_nonce ≡ nonce_of d) × (c'.key ≡ c.key) × (c'.secure_mode ≡ true)
unfolding decode decode_secure check_message verify_hmac compute_hmac
accepted_nonce mac c c' d t payload secure h other = ground arith

-- After a message other than HELLO and HELLO_ACK was accepted in secure mode, the same bytes are
-- rejected as a replay, whatever datagrams come in between, as long as the nonce of that message
-- and of these datagrams is not 0 (the counter of the sender starts from 1).
pub decode_replay :
    (mac : Mac) (c c' : Codec) (d : List ℕ) (t : ℕ) (payload : List ℕ) (ds : List (List ℕ))
    → c.secure_mode ≡ true
    → decode mac c d ≡ (c', ok (t, payload))
    → ¬ IsHandshake t
    → 0 < nonce_of d
    → All (λ e. 0 < nonce_of e) ds
    → decode mac (decode_all mac c' ds) d ≡ (decode_all mac c' ds, err replay_detected)
decode_replay mac c c' d t payload ds secure h other pos all =
    let l = decode_all-Later mac c' ds all in
    let (n, k, m) = accepted_nonce mac c c' d t payload secure h other in
    decode_again mac c c' (decode_all mac c' ds) d t payload secure h other pos (l.same_key ∙ k)
      (l.same_mode ∙ m) (omega (arith, n, l.above))

-- A codec with the same key whose last nonce is 0 accepts whatever another has accepted.
pub decode_again_from_zero :
    (mac : Mac) (c c' x : Codec) (d : List ℕ) (t : ℕ) (payload : List ℕ)
    → c.secure_mode ≡ true
    → decode mac c d ≡ (c', ok (t, payload))
    → ¬ IsHandshake t
    → x.key ≡ c.key
    → x.secure_mode ≡ true
    → x.recv_nonce ≡ 0
    → decode mac x d ≡ (record x { recv_nonce = nonce_of d }, ok (t, payload))
unfolding decode decode_secure check_message verify_hmac compute_hmac
decode_again_from_zero mac c c' x d t payload secure h other k m z = ground arith
