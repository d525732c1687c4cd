-- ===== src/Protocol/Refused.antt =====
-- What a codec with a key does with a datagram that nobody has signed.
use xbslink_ng.Base.{ℕ, ◌≡◌, refl, ap, true, List, arith, All, IsByte}
use xbslink_ng.Protocol.{Mac, Codec, Result, ok, err, Error, decode, decode_secure, check_message}
use xbslink_ng.Protocol.Accept.Datagrams.{authentic, decode_accepts}

module _ (mac : Mac) where
  -- Type, nonce and payload with their HMAC under the key.
  abbrev pub IsSigned : List ℕ → List ℕ → Type 0
  IsSigned key d =
      (t : ℕ) × (nonce : ℕ) × (payload : List ℕ) × (d ≡ authentic mac key t nonce payload)

  refused_same :
      (c : Codec) (d : List ℕ) (e : Error)
      → (decode mac c d).1 ≡ err e
      → decode mac c d ≡ (c, err e)
  unfolding decode decode_secure check_message
  refused_same c d e h = ground (arith, h)

  pub unsigned_refused :
      (c : Codec) (d : List ℕ)
      → c.secure_mode ≡ true
      → All IsByte d
      → ¬ IsSigned c.key d
      → (e : Error) × (decode mac c d ≡ (c, err e))
  unsigned_refused c d secure bytes forged = by (decode mac c d).1 refl
    where
      by :
          (x : Result (ℕ × List ℕ))
          → (decode mac c d).1 ≡ x
          → (e : Error) × (decode mac c d ≡ (c, err e))
      by (err e) h = (e, refused_same c d e h)
      by (ok (t, p)) h =
          let (nonce, _, made, _) =
            (decode_accepts mac c (decode mac c d).0 d t p secure bytes).0
              (ap (λ (x : Result (ℕ × List ℕ)). ((decode mac c d).0, x)) h) in
          absurd (forged (t, nonce, p, made))
