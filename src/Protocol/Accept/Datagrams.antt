-- ===== src/Protocol/Accept/Datagrams.antt =====
-- Which datagrams a codec with a key accepts.
use mathlib.Core.Path.{ap₂, subst}
use native.Mathlib.Decide.{dec_lt}
use xbslink_ng.Base.{
  lt→ltb, ◌⊎◌, inl, inr, Bool-cases, equal_refl, equal→eq, ℕ, if_true, if_false, ◌-◌, ◌<◌, ◌≤◌, ◌≡◌,
  ◌↔◌, sym, ap, ◌∙◌, true, List, ◌++◌, arith, ltb, length, get_or, take, drop, slice, All,
  length-take, length-drop, All-take, All-drop, uint_be, uint_be-IsU64, IsByte, IsU64,
}
use xbslink_ng.Protocol.{
  msg_hello, msg_hello_ack, Mac, Codec, ok, err, message_too_short, verify_hmac, compute_hmac,
  check_message, decode_secure, decode,
}
use xbslink_ng.Protocol.Layout.{signed_part}
use xbslink_ng.Protocol.Accept.{cut, decode-framed}

abbrev pub IsHandshake : ℕ → Type 0
IsHandshake t = (t ≡ msg_hello) ⊎ (t ≡ msg_hello_ack)

-- The replay rule: a handshake message passes and leaves the codec alone; any other has the nonce 0
-- or one above the last, which it replaces.
abbrev pub Admits : Codec → ℕ → ℕ → Codec → Type 0
Admits c t nonce c' =
    (IsHandshake t × (c' ≡ c))
    ⊎ ((¬ IsHandshake t)
        × ((nonce ≡ 0) ⊎ (c.recv_nonce < nonce))
        × (c' ≡ record c { recv_nonce = nonce }))

check_ok :
    (mac : Mac) (c c' : Codec) (t t' nonce : ℕ) (payload payload' sig : List ℕ)
    → check_message mac c t nonce payload (signed_part t nonce payload) sig
      ≡ (c', ok (t', payload'))
    → (t ≡ t')
      × (payload ≡ payload')
      × (mac.sum c.key (signed_part t nonce payload) ≡ sig)
      × Admits c t nonce c'
unfolding check_message verify_hmac compute_hmac
check_ok mac c c' t t' nonce payload payload' sig h =
    ground (arith, equal→eq (mac.sum c.key (signed_part t nonce payload)) sig)

pub ok_check :
    (mac : Mac) (c c' : Codec) (t nonce : ℕ) (payload : List ℕ)
    → Admits c t nonce c'
    → check_message mac c t nonce payload
        (signed_part t nonce payload)
        (mac.sum c.key (signed_part t nonce payload))
      ≡ (c', ok (t, payload))
unfolding check_message verify_hmac compute_hmac
ok_check mac c c' t nonce payload h =
    ground (arith, equal_refl (mac.sum c.key (signed_part t nonce payload)))

-- The message that the holder of `key` makes of these parts.
abbrev pub authentic : Mac → List ℕ → ℕ → ℕ → List ℕ → List ℕ
authentic mac key t nonce payload =
    signed_part t nonce payload ++ mac.sum key (signed_part t nonce payload)

decode_short :
    (mac : Mac) (c : Codec) (bytes : List ℕ)
    → c.secure_mode ≡ true
    → length bytes < 41
    → decode mac c bytes ≡ (c, err message_too_short)
unfolding decode decode_secure
decode_short mac c bytes secure h = elim (Bool-cases (ltb (length bytes) 1)) [
  | inl e ↦ if_true _ _ e
  | inr e ↦ if_false _ _ e ∙ if_true _ _ secure ∙ if_true _ _ (lt→ltb _ _ h)
]

accepted_framed :
    (mac : Mac) (c c' : Codec) (bytes : List ℕ) (t t' nonce : ℕ) (payload payload' sig : List ℕ)
    → c.secure_mode ≡ true
    → IsU64 nonce
    → length sig ≡ 32
    → bytes ≡ signed_part t nonce payload ++ sig
    → decode mac c bytes ≡ (c', ok (t', payload'))
    → (bytes ≡ authentic mac c.key t' nonce payload') × Admits c t' nonce c'
accepted_framed mac c c' bytes t t' nonce payload payload' sig secure range len e h =
    let (same_t, same_p, signed, admits) = check_ok mac c c' t t' nonce payload payload' sig (
      sym (decode-framed mac c t nonce payload sig secure range len)
      ∙ ap (decode mac c) (sym e)
      ∙ h) in
    (
      e
          ∙ ap (λ (x : List ℕ). signed_part t nonce payload ++ x) (sym signed)
          ∙ ap₂ (λ (x : ℕ) (y : List ℕ). authentic mac c.key x nonce y) same_t same_p,
      subst (λ (x : ℕ). Admits c x nonce c') same_t admits,
    )

-- In secure mode a string of bytes is accepted exactly if it is type, nonce, payload and the HMAC of
-- these under the codec's key, and the replay rule admits the nonce; the codec changes by that rule.
pub decode_accepts :
    (mac : Mac) (c c' : Codec) (bytes : List ℕ) (t : ℕ) (payload : List ℕ)
    → c.secure_mode ≡ true
    → All IsByte bytes
    → (decode mac c bytes ≡ (c', ok (t, payload))) ↔ (
        (nonce : ℕ) × IsU64 nonce
        × (bytes ≡ authentic mac c.key t nonce payload)
        × Admits c t nonce c')
decode_accepts mac c c' bytes t payload secure bytes_ok = (to, from)
  where
    sig : List ℕ
    sig = drop (length bytes - 32) bytes

    nonce_size_lem : 41 ≤ length bytes → length (slice 1 9 bytes) ≡ 8
    nonce_size_lem long =
        omega (arith, length-drop 1 (take 9 bytes), length-take 9 bytes (omega arith))

    nonce_bytes : All IsByte (slice 1 9 bytes)
    nonce_bytes = All-drop IsByte 1 (take 9 bytes) (All-take IsByte 9 bytes bytes_ok)

    to :
        decode mac c bytes ≡ (c', ok (t, payload))
        → (nonce : ℕ) × IsU64 nonce
          × (bytes ≡ authentic mac c.key t nonce payload)
          × Admits c t nonce c'
    to h = elim (dec_lt (length bytes) 41) [
      | yes short ↦ cc (decode_short mac c bytes secure short)
      | no long ↦
          let range = uint_be-IsU64 (slice 1 9 bytes) (nonce_size_lem (omega arith)) nonce_bytes in
          let (whole, admits) =
            accepted_framed mac c c' bytes (get_or bytes 0 0) t (uint_be 0 (slice 1 9 bytes))
              (slice 9 (length bytes - 32) bytes) payload sig secure range
              (omega (arith, length-drop (length bytes - 32) bytes))
              (cut bytes (omega arith) bytes_ok) h in
          (uint_be 0 (slice 1 9 bytes), range, whole, admits)
    ]

    from :
        ((nonce : ℕ) × IsU64 nonce
          × (bytes ≡ authentic mac c.key t nonce payload)
          × Admits c t nonce c')
        → decode mac c bytes ≡ (c', ok (t, payload))
    from (nonce, range, e, admits) = rw e (
        decode-framed mac c t nonce payload _ secure range (mac.length-sum _ _)
        ∙ ok_check mac c c' t nonce payload admits)
