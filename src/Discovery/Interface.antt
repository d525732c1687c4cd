-- ===== src/Discovery/Interface.antt =====
-- Which device the search for an interface picks.
use mathlib.Core.Path.{subst}
use xbslink_ng.Base.{
  ap₂, ℕ, ◌≡◌, refl, ap, sym, ◌∙◌, ◌⊎◌, inl, inr, Bool, true, false, Option, none, some, List, [],
  ◌∷◌, ◌++◌, All, Bool-cases, if_true, if_false,
}
use xbslink_ng.Discovery.{
  Device, first_where, or_else, is_exact, is_caseless, is_described, find_device, find_interface,
  name_of,
}

-- The first device of the list that the test accepts.
abbrev pub IsFirstOf : (Device → Bool) → List Device → Device → Type 0
IsFirstOf p ds d =
    (before : List Device) × (later : List Device) × (ds ≡ before ++ (d ∷ later))
    × (p d ≡ true)
    × All (λ x. p x ≡ false) before

abbrev pub HasNone : (Device → Bool) → List Device → Type 0
HasNone p ds = All (λ d. p d ≡ false) ds

first_cases :
    (p : Device → Bool) (ds : List Device)
    → ((d : Device) × (first_where p ds ≡ some d) × IsFirstOf p ds d)
      ⊎ ((first_where p ds ≡ none) × HasNone p ds)
first_cases p [] = inr (refl, tt)
first_cases p (d ∷ ds) = elim (Bool-cases (p d)) [
  | inl yes_it_is ↦ inl (d, if_true _ _ yes_it_is, ([], ds, refl, yes_it_is, tt))
  | inr not_it ↦ elim (first_cases p ds) [
    | inl (x, e, (before, later, split, hit, passed)) ↦
        inl
          (x, if_false _ _ not_it ∙ e, (d ∷ before, later, ap (◌∷◌ d) split, hit, (not_it, passed)))
    | inr (e, passed) ↦ inr (if_false _ _ not_it ∙ e, (not_it, passed))
  ]
]

module _ (lower : List ℕ → List ℕ) (wanted : List ℕ) (ds : List Device) where
  -- What a search may answer: the first device of that very name; without one the first whose name
  -- differs only in case; without one the first with the name in its description; or nothing.
  pub data IsAnswer : Option Device → Type 0 where
    by_name : (d : Device) → IsFirstOf (is_exact lower wanted) ds d → IsAnswer (some d)
    by_case :
        (d : Device)
        → HasNone (is_exact lower wanted) ds
        → IsFirstOf (is_caseless lower wanted) ds d
        → IsAnswer (some d)
    by_description :
        (d : Device)
        → HasNone (is_exact lower wanted) ds
        → HasNone (is_caseless lower wanted) ds
        → IsFirstOf (is_described lower wanted) ds d
        → IsAnswer (some d)
    by_nothing :
        HasNone (is_exact lower wanted) ds
        → HasNone (is_caseless lower wanted) ds
        → HasNone (is_described lower wanted) ds
        → IsAnswer none

  moved : {x y : Option Device} → x ≡ y → IsAnswer y → IsAnswer x
  moved e a = subst IsAnswer (sym e) a

  find_device-IsAnswer : IsAnswer (find_device lower wanted ds)
  unfolding find_device
  find_device-IsAnswer = elim (first_cases (is_exact lower wanted) ds) [
    | inl (d, e, first) ↦ moved (ap₂ or_else e refl) (by_name d first)
    | inr (e, no_name) ↦ elim (first_cases (is_caseless lower wanted) ds) [
      | inl (d, e', first) ↦ moved (ap₂ or_else e (ap₂ or_else e' refl)) (by_case d no_name first)
      | inr (e', no_case) ↦ elim (first_cases (is_described lower wanted) ds) [
        | inl (d, e'', first) ↦
            moved (ap₂ or_else e (ap₂ or_else e' e'')) (by_description d no_name no_case first)
        | inr (e'', no_part) ↦
            moved (ap₂ or_else e (ap₂ or_else e' e'')) (by_nothing no_name no_case no_part)
      ]
    ]
  ]

  -- Both searches of the program, the one that returns the device and the one that returns its name,
  -- have the same answer, and it is always one of these four: an exact name comes before one in other
  -- letters, and that before a description.
  pub search-IsAnswer :
      (d : Option Device) × IsAnswer d
      × (find_device lower wanted ds ≡ d)
      × (find_interface lower wanted ds ≡ name_of lower wanted d)
  unfolding find_device find_interface
  search-IsAnswer = (find_device lower wanted ds, find_device-IsAnswer, refl, refl)
