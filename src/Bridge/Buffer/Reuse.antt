-- ===== src/Bridge/Buffer/Reuse.antt =====
-- What the reuse of the read buffer does to a queued frame.
use xbslink_ng.Base.{
  append-nil, append_assoc, sizes, slice-middle, offer, ℕ, ◌+◌, ◌^◌, ◌<◌, ◌≤◌, ◌≡◌, refl, ap, sym,
  ◌∙◌, Bool-cases, inl, inr, some, List, [], ◌∷◌, ◌++◌, arith, length, take, slice, overwrite,
  length-overwrite, Bool, if◌then◌else◌, put_uint64, take_all,
}
use xbslink_ng.Protocol.{Mac, Codec, Message, Result, encode, msg_frame}
use xbslink_ng.Protocol.Layout.{sent_nonce, signed_part, encode_secure_layout, encode_plain_layout}
use xbslink_ng.Protocol.RoundTrip.{
  decode-encode, Paired, after_sending, after_receipt, after_receipt-Paired, after_sending-Paired,
}
use xbslink_ng.Protocol.Messages.{frame, IsSendable}
use xbslink_ng.Protocol.Messages.Decoded.{datagram, decode_message-datagram}
use xbslink_ng.Bridge.{channel_buffer_size}
use xbslink_ng.Bridge.Buffer.{Inbox, header_size, enqueue, receive, inject}

-- The front of a buffer that a datagram is read into.
overwrite-prefix :
    (buf m : List ℕ) → length m ≤ length buf → (rest : List ℕ) × (overwrite buf m ≡ m ++ rest)
unfolding overwrite
overwrite-prefix [] [] h = ([], refl)
overwrite-prefix [] (x ∷ m) h = absurd (omega arith)
overwrite-prefix (b ∷ buf) [] h = (b ∷ buf, refl)
overwrite-prefix (b ∷ buf) (x ∷ m) h =
    let (rest, e) = overwrite-prefix buf m (omega arith) in (rest, ap (◌∷◌ x) e)

-- A receiver that has nothing queued.
abbrev pub empty_inbox : Codec → List ℕ → Inbox
empty_inbox c buf = record { codec = c; bytes = buf; queue = [] }

module _ (mac : Mac) where
  framed :
      (c : Codec) (t : ℕ) (p : List ℕ)
      → (front : List ℕ) × (back : List ℕ) × (length front ≡ header_size c)
        × (length back ≤ 32)
        × ((encode mac c t p).1 ≡ front ++ (p ++ back))
  framed c t p = elim (Bool-cases c.secure_mode) [
    | inl e ↦ (
      t ∷ put_uint64 (sent_nonce c),
      mac.sum c.key (signed_part t (sent_nonce c) p),
      grind sizes,
      omega (arith, mac.length-sum c.key (signed_part t (sent_nonce c) p)),
      ap (λ (x : Codec × List ℕ). x.1) (encode_secure_layout mac c t p e)
          ∙ append_assoc (t ∷ put_uint64 (sent_nonce c)) p
              (mac.sum c.key (signed_part t (sent_nonce c) p)),
    )
    | inr e ↦ (
      t ∷ [],
      [],
      ground arith,
      omega arith,
      ap (λ (x : Codec × List ℕ). x.1) (encode_plain_layout mac c t p e)
          ∙ ap (◌∷◌ t) (sym (append-nil p)),
    )
  ]

  -- The datagram of a frame.
  abbrev pub wire : Codec → List ℕ → List ℕ
  wire c f = datagram mac c (frame f)

  -- No datagram of a frame is longer than 1555 bytes, and the buffer of `recvLoop` has 65536.
  wire_fits :
      (c : Codec) (buf f : List ℕ)
      → IsSendable (frame f)
      → 1_555 ≤ length buf
      → length (wire c f) ≤ length buf
  wire_fits c buf f h room =
      let (front, back, e, short, made) = framed c msg_frame f in
      let n : header_size c ≤ 9 = ground arith in
      grind (sizes, ap length made, e, short, h.1, n, room)

  -- The bytes at the place of the payload, once the datagram of a frame is read into the buffer.
  slice-overwrite :
      (c : Codec) (buf f : List ℕ) (lo n : ℕ)
      → header_size c ≡ lo
      → n ≤ length f
      → length (wire c f) ≤ length buf
      → slice lo (lo + n) (overwrite buf (wire c f)) ≡ take n f
  slice-overwrite c buf f lo n at h fits =
      let (front, back, e, short, made) = framed c msg_frame f in
      let (rest, over) = overwrite-prefix buf (wire c f) fits in
      ap (slice lo (lo + n)) (
        over
        ∙ ap (λ (l : List ℕ). l ++ rest) made
        ∙ append_assoc front (f ++ back) rest
        ∙ ap (λ (l : List ℕ). front ++ l) (append_assoc f back rest))
      ∙ slice-middle front f (back ++ rest) lo n (e ∙ at) h

  same_header : (a b : Codec) → Paired a b → header_size a ≡ header_size b
  same_header a b p = ap (λ (m : Bool). if m then 9 else 1) p.same_mode

  received :
      (a : Codec) (s : Inbox) (f : List ℕ)
      → Paired a s.codec
      → IsSendable (frame f)
      → receive mac s (wire a f) ≡ record {
        codec = after_receipt a s.codec msg_frame;
        bytes = overwrite s.bytes (wire a f);
        queue =
            offer channel_buffer_size s.queue
              (record { start = header_size s.codec; len = length f });
      }
  unfolding receive enqueue
  received a s f p h =
      ap
        (λ (x : Codec × Result Message).
          enqueue (record s { bytes = overwrite s.bytes (wire a f) }) x.0 x.1)
        (decode_message-datagram mac a s.codec (after_receipt a s.codec msg_frame) (frame f) h
          (decode-encode mac a s.codec msg_frame f p))

  -- A frame that is injected before the next datagram is read is injected as it was sent, and nothing
  -- is queued behind it.
  pub inject-receive :
      (a b : Codec) (buf f : List ℕ)
      → Paired a b
      → IsSendable (frame f)
      → 1_555 ≤ length buf
      → inject (receive mac (empty_inbox b buf) (wire a f))
        ≡ (some f, empty_inbox (after_receipt a b msg_frame) (overwrite buf (wire a f)))
  unfolding inject
  inject-receive a b buf f p h room =
      ap inject (received a (empty_inbox b buf) f p h)
      ∙ ap
          (λ (x : List ℕ).
            (some x, empty_inbox (after_receipt a b msg_frame) (overwrite buf (wire a f))))
          (slice-overwrite a buf f (header_size b) (length f) (same_header a b p) (omega arith)
              (wire_fits a buf f h room)
            ∙ take_all (length f) f refl)

  -- Two frames that are sent one after the other, both read before the first is injected: what is
  -- injected for the first is the second, cut to the length of the first.
  pub frame_overwritten :
      (a b : Codec) (buf f g : List ℕ)
      → Paired a b
      → a.send_nonce + 2 < 2 ^ 64
      → IsSendable (frame f)
      → IsSendable (frame g)
      → length f ≤ length g
      → 1_555 ≤ length buf
      → let s =
          receive mac (receive mac (empty_inbox b buf) (wire a f)) (wire (after_sending a) g) in
        ((inject s).0 ≡ some (take (length f) g)) × ((inject (inject s).1).0 ≡ some g)
  unfolding inject
  frame_overwritten a b buf f g p room hf hg h big =
      let a' = after_sending a in
      let b' = after_receipt a b msg_frame in
      let p' = after_receipt-Paired a b msg_frame p room in
      let buf' = overwrite buf (wire a f) in
      let e =
        ap (λ (s : Inbox). receive mac s (wire a' g)) (received a (empty_inbox b buf) f p hf)
        ∙ received a'
            (record {
              codec = b';
              bytes = buf';
              queue = record { start = header_size b; len = length f } ∷ [];
            })
            g p' hg in
      let fit : length (wire a' g) ≤ length buf' =
        omega (arith, wire_fits a' buf g hg big, length-overwrite buf (wire a f)) in
      (
        ap (λ (s : Inbox). (inject s).0) e
            ∙ ap some (
                slice-overwrite a' buf' g (header_size b) (length f)
                  (same_header a' b (after_sending-Paired a b p room)) h fit),
        ap (λ (s : Inbox). (inject (inject s).1).0) e
            ∙ ap some (
                slice-overwrite a' buf' g (header_size b') (length g) (same_header a' b' p')
                  (omega arith) fit
                ∙ take_all (length g) g refl),
      )
