-- ===== src/Events/Found.antt =====
-- Where the lines of two events stand in the file.
use xbslink_ng.Base.{
  append_assoc, ℕ, ◌≡◌, refl, sym, ap, ◌∙◌, subst, Option, some, List, [], ◌∷◌, ◌++◌,
}
use xbslink_ng.Events.{Envelope, Json, newline, encoded}
use xbslink_ng.Events.Lines.{bytes_of, bytes_of-append}
use xbslink_ng.Events.Order.{Emission, contents}

module _ {F : Type 0} (json : Json F) where
  -- The envelopes of a series of events that is put together from two.
  split_contents :
      (es : List (Envelope F)) (xs ys : List (Emission F))
      → contents es ≡ xs ++ ys
      → (before : List (Envelope F)) × (after : List (Envelope F)) × (es ≡ before ++ after)
        × (contents before ≡ xs)
        × (contents after ≡ ys)
  split_contents es [] ys h = ([], es, refl, refl, h)
  split_contents [] (x ∷ xs) ys h = absurd cc
  split_contents (e ∷ es) (x ∷ xs) ys h =
      let tail : contents es ≡ xs ++ ys = cc in
      let head : (e.event_type, e.data_of) ≡ x = cc in
      let (before, after, p, q, r) = split_contents es xs ys tail in
      (e ∷ before, after, ap (◌∷◌ e) p, cc, r)

  -- An event with a text at any time.
  abbrev pub IsTold : Emission F → (ℕ → List ℕ) → Type 0
  IsTold x line =
      (at : ℕ)
      → json.text (record { event_type = x.0; timestamp = at; data_of = x.1 }) ≡ some (line at)

  one_told :
      (e : Envelope F) (x : Emission F) (line : ℕ → List ℕ)
      → IsTold x line
      → (e.event_type, e.data_of) ≡ x
      → json.text e ≡ some (line e.timestamp)
  one_told e x line h p =
      subst
        (λ (y : Emission F).
          json.text (record { event_type = y.0; timestamp = e.timestamp; data_of = y.1 })
          ≡ some (line e.timestamp))
        (sym p) (h e.timestamp)

  told_first :
      (es : List (Envelope F)) (x : Emission F) (rest : List (Emission F)) (line : ℕ → List ℕ)
      → IsTold x line
      → contents es ≡ x ∷ rest
      → (at : ℕ) × (more : List (Envelope F)) × (contents more ≡ rest)
        × (bytes_of json es ≡ line at ++ newline ∷ bytes_of json more)
  told_first [] x rest line h p = absurd cc
  told_first (e ∷ es) x rest line h p =
      let head : (e.event_type, e.data_of) ≡ x = cc in
      (
        e.timestamp,
        es,
        cc,
        ap (λ (t : Option (List ℕ)). encoded t ++ bytes_of json es) (one_told e x line h head)
            ∙ append_assoc (line e.timestamp) (newline ∷ []) (bytes_of json es),
      )

  -- Two events in a row that have texts are two lines in a row, behind those of the events before.
  pub two_lines :
      (es : List (Envelope F)) (xs : List (Emission F)) (x y : Emission F)
      (rest : List (Emission F)) (first second : ℕ → List ℕ)
      → IsTold x first
      → IsTold y second
      → contents es ≡ xs ++ x ∷ y ∷ rest
      → (before : List (Envelope F)) × (at : ℕ) × (at' : ℕ) × (later : List ℕ) × (contents before
          ≡ xs)
        × (bytes_of json es
            ≡ bytes_of json before ++ (first at ++ newline ∷ (second at' ++ newline ∷ later)))
  two_lines es xs x y rest first second hx hy h =
      let (before, after, p, q, r) = split_contents es xs (x ∷ y ∷ rest) h in
      let (at, more, r', e) = told_first after x (y ∷ rest) first hx r in
      let (at', last, _, e') = told_first more y rest second hy r' in
      (
        before,
        at,
        at',
        bytes_of json last,
        q,
        ap (bytes_of json) p
            ∙ bytes_of-append json before after
            ∙ ap (λ (l : List ℕ). bytes_of json before ++ l)
                (e ∙ ap (λ (l : List ℕ). first at ++ newline ∷ l) e'),
      )
