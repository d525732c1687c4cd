-- ===== src/Events/Lines.antt =====
-- What a reader of the file gets: JSON lines.
use xbslink_ng.Base.{
  append_assoc, append-nil, appends, ℕ, ◌≡◌, ◌≢◌, refl, sym, ap, ◌∙◌, false, ◌==◌, Option, none,
  some, List, [], ◌∷◌, ◌++◌, All, arith, if_false, if◌then◌else◌,
}
use xbslink_ng.Events.{Envelope, Json, newline, encoded}

-- The lines of a file; text behind the last line break is no line.
abbrev pub lines_read : List ℕ → List ℕ → List (List ℕ)
lines_read line [] = []
lines_read line (c ∷ cs) =
    if c == newline then line ∷ lines_read [] cs else lines_read (line ++ (c ∷ [])) cs

line_read :
    (cur line rest : List ℕ)
    → All (λ (c : ℕ). c ≢ newline) line
    → lines_read cur (line ++ (newline ∷ rest)) ≡ (cur ++ line) ∷ lines_read [] rest
line_read cur [] rest h = ap (λ (l : List ℕ). l ∷ lines_read [] rest) (sym (append-nil cur))
line_read cur (c ∷ line) rest h =
    if_false _ _ (other c h.0)
    ∙ line_read (cur ++ (c ∷ [])) line rest h.1
    ∙ ap (λ (l : List ℕ). l ∷ lines_read [] rest) (append_assoc cur (c ∷ []) line)
  where
    other : (c : ℕ) → c ≢ newline → (c == newline) ≡ false
    other c h = ground arith

module _ {F : Type 0} (json : Json F) where
  -- What is written for a series of envelopes.
  abbrev pub bytes_of : List (Envelope F) → List ℕ
  bytes_of [] = []
  bytes_of (e ∷ es) = encoded (json.text e) ++ bytes_of es

  abbrev add : Option (List ℕ) → List (List ℕ) → List (List ℕ)
  add none ls = ls
  add (some l) ls = l ∷ ls

  -- The texts of those envelopes that have one.
  abbrev pub texts : List (Envelope F) → List (List ℕ)
  texts [] = []
  texts (e ∷ es) = add (json.text e) (texts es)

  pub bytes_of-append :
      (xs ys : List (Envelope F)) → bytes_of (xs ++ ys) ≡ bytes_of xs ++ bytes_of ys
  bytes_of-append [] ys = refl
  bytes_of-append (x ∷ xs) ys = rw (bytes_of-append xs ys) (simp appends)

  one_text :
      (t : Option (List ℕ)) (rest : List ℕ)
      → ((l : List ℕ) → t ≡ some l → All (λ (c : ℕ). c ≢ newline) l)
      → lines_read [] (encoded t ++ rest) ≡ add t (lines_read [] rest)
  one_text none rest h = refl
  one_text (some l) rest h =
      ap (lines_read []) (append_assoc l (newline ∷ []) rest) ∙ line_read [] l rest (h l refl)

  -- The lines of what is written are the texts of the envelopes, one for each.
  pub lines_read-bytes_of : (es : List (Envelope F)) → lines_read [] (bytes_of es) ≡ texts es
  lines_read-bytes_of [] = refl
  lines_read-bytes_of (e ∷ es) =
      one_text (json.text e) (bytes_of es) (json.one_line e)
      ∙ ap (add (json.text e)) (lines_read-bytes_of es)
