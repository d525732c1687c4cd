-- ===== src/Protocol/Accept.antt =====
-- Which byte strings `decode` accepts in secure mode, and what it does to the codec.
pub mod Datagrams
use mathlib.Core.Path.{ap₂, subst}
use native.Mathlib.Decide.{dec_lt}
use xbslink_ng.Base.{
  append_assoc, sizes, lt→ltb, ◌⊎◌, inl, inr, Bool-cases, equal_refl, equal→eq, ℕ, suc, if_true,
  if_false, le→ltb, ◌+◌, ◌-◌, ◌<◌, ◌≤◌, ◌≡◌, ◌↔◌, sym, ap, ◌∙◌, true, false, ◌&&◌, List, [], ◌∷◌,
  ◌++◌, arith, ltb, leb, length, get_or, take, drop, slice, All, if◌then◌else◌, equal,
  length-append, take-append, drop-append, length-take, length-drop, take-append-drop, take-take,
  All-take, All-drop, uint_be, put_uint64, length-put_uint64, uint_be-put_uint64,
  put_uint64-uint_be, uint_be-IsU64, IsByte, IsU64,
}
use xbslink_ng.Protocol.{
  msg_hello, msg_hello_ack, Mac, Codec, ok, err, message_too_short, replay_detected, is_handshake,
  verify_hmac, compute_hmac, check_message, decode_secure, decode,
}
use xbslink_ng.Protocol.Layout.{signed_part, length-signed_part}

cut_at :
    (b : ℕ) (bs : List ℕ) (j : ℕ)
    → 8 ≤ j
    → j ≤ length bs
    → All IsByte bs
    → b ∷ bs ≡ signed_part b (uint_be 0 (take 8 bs)) (drop 8 (take j bs)) ++ drop j bs
cut_at b bs j lo hi s =
    ap (λ (l : List ℕ). b ∷ l)
      (sym (take-append-drop j bs)
        ∙ ap (λ (l : List ℕ). l ++ drop j bs)
            (sym (take-append-drop 8 (take j bs))
              ∙ ap (λ (l : List ℕ). l ++ drop 8 (take j bs))
                  (take-take 8 j bs lo ∙ sym nonce_bytes)))
  where
    nonce_bytes : put_uint64 (uint_be 0 (take 8 bs)) ≡ take 8 bs
    nonce_bytes =
        put_uint64-uint_be (take 8 bs) (length-take 8 bs (omega arith)) (All-take IsByte 8 bs s)

-- A string of at least 41 bytes, cut where `decode` cuts it.
pub cut :
    (bytes : List ℕ)
    → 41 ≤ length bytes
    → All IsByte bytes
    → bytes
      ≡ signed_part
          (get_or bytes 0 0)
          (uint_be 0 (slice 1 9 bytes))
          (slice 9 (length bytes - 32) bytes)
        ++ drop (length bytes - 32) bytes
cut [] h s = absurd (omega arith)
cut (b ∷ bs) h s =
    let e : suc (length bs) - 32 ≡ suc (length bs - 32) = omega arith in
    rw e (cut_at b bs (length bs - 32) (omega arith) (omega arith) s.1)

-- What `decode` answers to a string that is cut into type, nonce, payload and signature.
module _ (mac : Mac) (c : Codec) (t nonce : ℕ) (payload sig : List ℕ) where
  abbrev body : List ℕ
  body = signed_part t nonce payload

  check-framed :
      IsU64 nonce
      → length sig ≡ 32
      → decode_secure mac c (body ++ sig) ≡ check_message mac c t nonce payload body sig
  unfolding decode_secure
  check-framed range len =
      if_false _ _ long
      ∙ ap
          (λ (e : ℕ).
            check_message mac c t (uint_be 0 (slice 1 9 bytes)) (slice 9 e bytes) (take e bytes)
              (drop e bytes))
          end_lem
      ∙ ap
          (λ (x : List ℕ).
            check_message mac c t (uint_be 0 (slice 1 9 bytes)) (drop 9 x) x (drop body_end bytes))
          (take-append body_end body sig body_lem)
      ∙ ap
          (λ (x : List ℕ). check_message mac c t (uint_be 0 (slice 1 9 bytes)) (drop 9 body) body x)
          (drop-append body_end body sig body_lem)
      ∙ ap (λ (x : List ℕ). check_message mac c t (uint_be 0 (slice 1 9 bytes)) x body sig)
          (drop-append 8 (put_uint64 nonce) payload (length-put_uint64 nonce))
      ∙ ap (λ (x : ℕ). check_message mac c t x payload body sig) nonce_lem
    where
      bytes : List ℕ
      bytes = body ++ sig

      body_end : ℕ
      body_end = 9 + length payload

      body_lem : length body ≡ body_end
      body_lem = length-signed_part t nonce payload

      size : length bytes ≡ 9 + length payload + 32
      size = grind (sizes, body_lem)

      long : ltb (length bytes) 41 ≡ false
      long = le→ltb _ _ (omega (arith, size))

      end_lem : length bytes - 32 ≡ body_end
      end_lem = omega (arith, size)

      nonce_lem : uint_be 0 (slice 1 9 bytes) ≡ nonce
      nonce_lem =
          ap (λ (l : List ℕ). uint_be 0 (take 8 l)) (append_assoc (put_uint64 nonce) payload sig)
          ∙ ap (uint_be 0)
              (take-append 8 (put_uint64 nonce) (payload ++ sig) (length-put_uint64 nonce))
          ∙ uint_be-put_uint64 nonce range

  pub decode-framed :
      c.secure_mode ≡ true
      → IsU64 nonce
      → length sig ≡ 32
      → decode mac c (body ++ sig) ≡ check_message mac c t nonce payload body sig
  unfolding decode
  decode-framed secure range len =
      if_false _ _ nonempty ∙ if_true _ _ secure ∙ check-framed range len
    where
      nonempty : ltb (length (body ++ sig)) 1 ≡ false
      nonempty = ground arith

  -- The verdict on a message that carries the right signature.
  pub check_signed :
      equal (mac.sum c.key body) sig ≡ true
      → check_message mac c t nonce payload body sig ≡ (
          if is_handshake t
          then (c, ok (t, payload))
          else if ltb 0 nonce && leb nonce c.recv_nonce
          then (c, err replay_detected)
          else (record c { recv_nonce = nonce }, ok (t, payload)))
  unfolding check_message verify_hmac compute_hmac
  check_signed h = rw h
