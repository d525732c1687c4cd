-- ===== src/Bridge/Report/Number.antt =====
-- A number with commas is read back.
use native.Mathlib.Decide.{dec_lt}
use xbslink_ng.Base.{
  append_assoc, if_true, if_false, lt→ltb, le→ltb, ℕ, ◌+◌, ◌*◌, ◌/◌, ◌%◌, ◌^◌, ◌<◌, ◌≡◌, refl, ap,
  sym, ◌∙◌, List, [], ◌∷◌, ◌++◌, arith, All, ◌==◌, ltb, if◌then◌else◌, decimal, padded, spelled,
  spelled-append, spelled-decimal, spelled-padded, IsDigit, digits-IsDigit, padded-IsDigit,
}
use xbslink_ng.Bridge.Report.{format_number}

-- The text without its commas.
abbrev pub without_commas : List ℕ → List ℕ
without_commas [] = []
without_commas (c ∷ s) = let rest = without_commas s in if c == b',' then rest else c ∷ rest

without_commas-append :
    (s t : List ℕ) → without_commas (s ++ t) ≡ without_commas s ++ without_commas t
without_commas-append [] t = refl
without_commas-append (c ∷ s) t = ground (arith, without_commas-append s t)

plain : (s : List ℕ) → All IsDigit s → without_commas s ≡ s
plain [] h = refl
plain (c ∷ s) h = ground (arith, plain s h.1)

plain_decimal : (n : ℕ) → without_commas (decimal n) ≡ decimal n
unfolding decimal
plain_decimal n = plain (decimal n) (digits-IsDigit 20 n)

plain_padded : (n : ℕ) → without_commas (padded 3 n) ≡ padded 3 n
plain_padded n = plain (padded 3 n) (padded-IsDigit 3 n)

-- A group of three digits behind what is read already.
group_lem :
    (s : List ℕ) (m n : ℕ)
    → spelled 0 (without_commas s) ≡ m
    → n < 1_000
    → spelled 0 (without_commas (s ++ (b',' ∷ padded 3 n))) ≡ m * 1_000 + n
group_lem s m n e h =
    ap (spelled 0) (
      without_commas-append s (b',' ∷ padded 3 n)
      ∙ ap (λ (l : List ℕ). without_commas s ++ l) (plain_padded n))
    ∙ spelled-append 0 (without_commas s) (padded 3 n)
    ∙ ap (λ (x : ℕ). spelled x (padded 3 n)) e
    ∙ spelled-padded m n h

decimal_lem : (n : ℕ) → n < 2 ^ 64 → spelled 0 (without_commas (decimal n)) ≡ n
decimal_lem n h = ap (spelled 0) (plain_decimal n) ∙ spelled-decimal n h

read : {s t : List ℕ} → s ≡ t → spelled 0 (without_commas s) ≡ spelled 0 (without_commas t)
read e = ap (λ (l : List ℕ). spelled 0 (without_commas l)) e

-- Every uint64 is read back from the text that `formatNumber` makes of it, when its commas are left
-- out.
pub spelled-format_number : (n : ℕ) → n < 2 ^ 64 → spelled 0 (without_commas (format_number n)) ≡ n
unfolding format_number
spelled-format_number n h = elim (dec_lt n 1_000) [
  | yes small ↦ read (if_true {b = ltb n 1_000} _ _ (lt→ltb n 1_000 small)) ∙ decimal_lem n h
  | no large ↦ elim (dec_lt n 1_000_000) [
    | yes small ↦
        read (
          if_false {b = ltb n 1_000} _ _ (le→ltb n 1_000 (omega (arith, large)))
          ∙ if_true {b = ltb n 1_000_000} _ _ (lt→ltb n 1_000_000 small))
        ∙ group_lem (decimal (n / 1_000)) (n / 1_000) (n % 1_000)
            (decimal_lem (n / 1_000) (omega (arith, h))) (omega arith)
        ∙ omega arith
    | no larger ↦
        read (
          if_false {b = ltb n 1_000} _ _ (le→ltb n 1_000 (omega (arith, large)))
          ∙ if_false {b = ltb n 1_000_000} _ _ (le→ltb n 1_000_000 (omega (arith, larger)))
          ∙ sym (
              append_assoc (decimal (n / 1_000_000)) (b',' ∷ padded 3 (n / 1_000 % 1_000))
                (b',' ∷ padded 3 (n % 1_000))))
        ∙ group_lem (decimal (n / 1_000_000) ++ (b',' ∷ padded 3 (n / 1_000 % 1_000)))
            (n / 1_000_000 * 1_000 + n / 1_000 % 1_000) (n % 1_000)
            (group_lem (decimal (n / 1_000_000)) (n / 1_000_000) (n / 1_000 % 1_000)
              (decimal_lem (n / 1_000_000) (omega (arith, h))) (omega arith))
            (omega arith)
        ∙ omega arith
  ]
]
