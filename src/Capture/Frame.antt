-- ===== src/Capture/Frame.antt =====
-- A frame that is built is read back.
use xbslink_ng.Base.{
  append-nil, append_assoc, sizes, appends, ℕ, ◌+◌, ◌*◌, ◌^◌, ◌<◌, ◌≤◌, ◌≡◌, refl, ap, sym, ◌∙◌,
  some, List, [], ◌++◌, arith, length, length-replicate, replicate-add, take_all, slice,
  slice-middle, get_or, get_or-append, make, copy_at, copy_at-append, put_uint16, length-put_uint16,
  le→ltb, if_false,
}
use xbslink_ng.Capture.{decode_ethernet_frame, build_ethernet_frame}

module _ (src dst : List ℕ) (t : ℕ) (p : List ℕ) (hs : length src ≡ 6) (hd : length dst ≡ 6) where
  abbrev header : List ℕ
  header = (dst ++ src) ++ put_uint16 t

  length-header : length header ≡ 14
  length-header = grind (sizes, hs, hd)

  empty_parts : make (14 + length p) ≡ make 6 ++ (make 6 ++ (make 2 ++ make (length p)))
  empty_parts = replicate-add 14 (length p) 0

  build_lem : build_ethernet_frame src dst t p ≡ header ++ p
  unfolding build_ethernet_frame
  build_lem =
      ap
        (λ (m : List ℕ). copy_at (copy_at (copy_at (copy_at m 0 dst) 6 src) 12 (put_uint16 t)) 14 p)
        empty_parts
      ∙ ap (λ (m : List ℕ). copy_at (copy_at (copy_at m 6 src) 12 (put_uint16 t)) 14 p)
          (copy_at-append [] (make 6) (make 6 ++ (make 2 ++ make (length p))) dst 0 refl (sym hd))
      ∙ ap (λ (m : List ℕ). copy_at (copy_at m 12 (put_uint16 t)) 14 p)
          (copy_at-append dst (make 6) (make 2 ++ make (length p)) src 6 hd (sym hs)
            ∙ sym (append_assoc dst src (make 2 ++ make (length p))))
      ∙ ap (λ (m : List ℕ). copy_at m 14 p)
          (copy_at-append (dst ++ src) (make 2) (make (length p)) (put_uint16 t) 12
              (grind (sizes, hs, hd)) (sym (length-put_uint16 t))
            ∙ sym (append_assoc (dst ++ src) (put_uint16 t) (make (length p)))
            ∙ ap (λ (l : List ℕ). header ++ l) (sym (append-nil (make (length p)))))
      ∙ copy_at-append header (make (length p)) [] p 14 length-header
          (length-replicate (length p) 0)
      ∙ ap (λ (l : List ℕ). header ++ l) (append-nil p)

  parts : header ++ p ≡ dst ++ (src ++ (put_uint16 t ++ p))
  parts = simp appends

  long : 14 ≤ length (header ++ p)
  long = grind (sizes, length-header)

  read_src : slice 6 12 (header ++ p) ≡ src
  read_src =
      ap (slice 6 12) parts
      ∙ slice-middle dst src (put_uint16 t ++ p) 6 6 hd (omega (arith, hs))
      ∙ take_all 6 src hs

  read_dst : slice 0 6 (header ++ p) ≡ dst
  read_dst =
      ap (slice 0 6) parts
      ∙ slice-middle [] dst (src ++ (put_uint16 t ++ p)) 0 6 refl (omega (arith, hd))
      ∙ take_all 6 dst hd

  read_type : t < 2 ^ 16 → get_or (header ++ p) 12 0 * 2 ^ 8 + get_or (header ++ p) 13 0 ≡ t
  unfolding put_uint16
  read_type small =
      let n : length (dst ++ src) ≡ 12 = grind (sizes, hs, hd) in
      let e = append_assoc (dst ++ src) (put_uint16 t) p in
      let hi =
        ap (λ (l : List ℕ). get_or l 12 0) e
        ∙ get_or-append (dst ++ src) (put_uint16 t ++ p) 12 0 0 n in
      let lo =
        ap (λ (l : List ℕ). get_or l 13 0) e
        ∙ get_or-append (dst ++ src) (put_uint16 t ++ p) 12 1 0 n in
      omega (arith, hi, lo, small)

  -- The header that is read from a frame built for two 6-byte addresses and a 16-bit type is that of
  -- the frame: its source, its destination and its type, whatever the payload.
  pub decode_ethernet_frame-build_ethernet_frame :
      t < 2 ^ 16
      → decode_ethernet_frame (build_ethernet_frame src dst t p) ≡ (some src, some dst, t)
  unfolding decode_ethernet_frame
  decode_ethernet_frame-build_ethernet_frame small =
      ap decode_ethernet_frame build_lem
      ∙ if_false _ _ (le→ltb _ _ long)
      ∙ ap
          (λ (x : List ℕ). (
            some x,
            some (slice 0 6 (header ++ p)),
            get_or (header ++ p) 12 0 * 2 ^ 8 + get_or (header ++ p) 13 0,
          ))
          read_src
      ∙ ap
          (λ (x : List ℕ).
            (some src, some x, get_or (header ++ p) 12 0 * 2 ^ 8 + get_or (header ++ p) 13 0))
          read_dst
      ∙ ap (λ (n : ℕ). (some src, some dst, n)) (read_type small)
