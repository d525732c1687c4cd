-- ===== src/Protocol/Layout.antt =====
-- What `encode` writes, in the format that its comment documents.
use xbslink_ng.Base.{
  append-nil, append_assoc, sizes, ℕ, suc, if_true, if_false, ◌+◌, ◌%◌, ◌^◌, ◌≡◌, refl, sym, ap,
  ◌∙◌, true, false, List, [], ◌∷◌, ◌++◌, length, take, make, copy_at, replicate-add,
  length-replicate, take-append, copy_at-append, put_uint64, length-put_uint64,
}
use xbslink_ng.Protocol.{Mac, Codec, hmac_size, nonce_size, encode_secure, encode_plain, encode}

-- The nonce that the next message carries.
abbrev pub sent_nonce : Codec → ℕ
sent_nonce c = (c.send_nonce + 1) % 2 ^ 64

-- The part of a secure message that the HMAC is computed over.
abbrev pub signed_part : ℕ → ℕ → List ℕ → List ℕ
signed_part t nonce payload = t ∷ (put_uint64 nonce ++ payload)

pub length-signed_part :
    (t nonce : ℕ) (payload : List ℕ) → length (signed_part t nonce payload) ≡ 9 + length payload
length-signed_part t nonce payload = grind sizes

make_parts :
    (size : ℕ)
    → make (1 + nonce_size + size + hmac_size) ≡ make 1 ++ (make 8 ++ (make size ++ make 32))
make_parts size =
    replicate-add (9 + size) 32 0
    ∙ ap (λ (l : List ℕ). l ++ make 32) (replicate-add 9 size 0)
    ∙ append_assoc (make 9) (make size) (make 32)

module _ (mac : Mac) (c : Codec) (t : ℕ) (payload : List ℕ) where
  abbrev pub secure_wire : List ℕ
  secure_wire =
      signed_part t (sent_nonce c) payload ++ mac.sum c.key (signed_part t (sent_nonce c) payload)

  -- The buffer before the signature is copied in.
  filled_buffer :
      copy_at
        (copy_at
          (copy_at (make (1 + nonce_size + length payload + hmac_size)) 0 (t ∷ []))
          1
          (put_uint64 (sent_nonce c)))
        9
        payload
      ≡ signed_part t (sent_nonce c) payload ++ (make 32 ++ [])
  filled_buffer =
      ap (λ (m : List ℕ). copy_at (copy_at (copy_at m 0 (t ∷ [])) 1 nonce_bytes) 9 payload)
        (make_parts (length payload))
      ∙ ap (λ (m : List ℕ). copy_at (copy_at m 1 nonce_bytes) 9 payload)
          (copy_at-append [] (make 1) (make 8 ++ (make (length payload) ++ make 32)) (t ∷ []) 0 refl
            refl)
      ∙ ap (λ (m : List ℕ). copy_at m 9 payload)
          (copy_at-append (t ∷ []) (make 8) (make (length payload) ++ make 32) nonce_bytes 1 refl
            (sym (length-put_uint64 (sent_nonce c))))
      ∙ ap (λ (m : List ℕ). copy_at m 9 payload)
          (sym (append_assoc (t ∷ []) nonce_bytes (make (length payload) ++ make 32)))
      ∙ copy_at-append (t ∷ nonce_bytes) (make (length payload)) (make 32) payload 9
          (ap suc (length-put_uint64 (sent_nonce c))) (length-replicate (length payload) 0)
      ∙ ap (λ (l : List ℕ). t ∷ l) (sym (append_assoc nonce_bytes payload (make 32)))
      ∙ ap (λ (l : List ℕ). signed_part t (sent_nonce c) payload ++ l) (sym (append-nil (make 32)))
    where
      nonce_bytes : List ℕ
      nonce_bytes = put_uint64 (sent_nonce c)

  encode_secure_lem :
      encode_secure mac c t payload ≡ (record c { send_nonce = sent_nonce c }, secure_wire)
  unfolding encode_secure
  encode_secure_lem =
      ap (λ (m : List ℕ). (c', copy_at m at_mac (mac.sum c.key (take at_mac m)))) filled_buffer
      ∙ ap (λ (l : List ℕ). (c', copy_at (body ++ (make 32 ++ [])) at_mac (mac.sum c.key l)))
          (take-append at_mac body (make 32 ++ []) at_mac_lem)
      ∙ ap (λ (l : List ℕ). (c', l))
          (copy_at-append body (make 32) [] tag at_mac at_mac_lem (sym (mac.length-sum c.key body))
            ∙ ap (λ (l : List ℕ). body ++ l) (append-nil tag))
    where
      c' : Codec
      c' = record c { send_nonce = sent_nonce c }

      at_mac : ℕ
      at_mac = 9 + length payload

      body : List ℕ
      body = signed_part t (sent_nonce c) payload

      tag : List ℕ
      tag = mac.sum c.key body

      at_mac_lem : length body ≡ at_mac
      at_mac_lem = length-signed_part t (sent_nonce c) payload

  -- In secure mode the message is type, nonce, payload and the HMAC of these, and the counter of
  -- sent messages goes up by one, modulo 2^64.
  pub encode_secure_layout :
      c.secure_mode ≡ true
      → encode mac c t payload ≡ (record c { send_nonce = sent_nonce c }, secure_wire)
  unfolding encode
  encode_secure_layout h = if_true _ _ h ∙ encode_secure_lem

  encode_plain_lem : encode_plain mac c t payload ≡ (c, t ∷ payload)
  unfolding encode_plain
  encode_plain_lem =
      ap (λ (m : List ℕ). (c, copy_at (copy_at m 0 (t ∷ [])) 1 payload))
        (replicate-add 1 (length payload) 0)
      ∙ ap (λ (m : List ℕ). (c, copy_at m 1 payload))
          (copy_at-append [] (make 1) (make (length payload)) (t ∷ []) 0 refl refl)
      ∙ ap (λ (m : List ℕ). (c, copy_at (t ∷ m) 1 payload))
          (sym (append-nil (make (length payload))))
      ∙ ap (λ (m : List ℕ). (c, m))
          (copy_at-append (t ∷ []) (make (length payload)) [] payload 1 refl
            (length-replicate (length payload) 0))
      ∙ ap (λ (m : List ℕ). (c, t ∷ m)) (append-nil payload)

  -- Without a key the message is type and payload, and the codec does not change.
  pub encode_plain_layout : c.secure_mode ≡ false → encode mac c t payload ≡ (c, t ∷ payload)
  unfolding encode
  encode_plain_layout h = if_false _ _ h ∙ encode_plain_lem
