-- ===== src/Net/Laws.antt =====
-- `addrEqual` is an equivalence on well-formed addresses: it compares their 16-byte forms.
use xbslink_ng.Base.{
  ℕ, ◌≡◌, refl, sym, ap, ◌∙◌, ◌↔◌, Bool, true, ◌&&◌, ◌⊎◌, inl, inr, List, [], ◌∷◌, ◌++◌, ◌==◌,
  if◌then◌else◌, length, take, drop, equal, equal_refl, equal→eq, take-append-drop, arith,
}
use xbslink_ng.Net.{v4_in_v6_prefix, ip_equal}

abbrev pub IsIp : List ℕ → Type 0
IsIp a = (length a ≡ 4) ⊎ (length a ≡ 16)

-- The 16-byte form of an address.
pub to_16 : List ℕ → List ℕ
to_16 a = if length a == 4 then v4_in_v6_prefix ++ a else a

prefix_cut : (a : List ℕ) → (take 12 a ≡ v4_in_v6_prefix) → a ≡ v4_in_v6_prefix ++ drop 12 a
prefix_cut a e = sym (take-append-drop 12 a) ∙ ap (λ (l : List ℕ). l ++ drop 12 a) e

equal_iff : (a b : List ℕ) → (equal a b ≡ true) ↔ (a ≡ b)
equal_iff a b = (equal→eq a b, λ e. ap (equal a) (sym e) ∙ equal_refl a)

equal_comm : (a b : List ℕ) → equal a b ≡ equal b a
equal_comm [] [] = refl
equal_comm [] (y ∷ ys) = refl
equal_comm (x ∷ xs) [] = refl
equal_comm (x ∷ xs) (y ∷ ys) = ground (arith, equal_comm xs ys)

&&_iff : (x y : Bool) → ((x && y) ≡ true) ↔ ((x ≡ true) × (y ≡ true))
&&_iff x y = (λ h. ground arith, λ h. ground arith)

mapped_iff :
    (a b : List ℕ)
    → ((equal (take 12 b) v4_in_v6_prefix && equal a (drop 12 b)) ≡ true)
      ↔ (v4_in_v6_prefix ++ a ≡ b)
mapped_iff a b = (
  λ h.
      let (front, back) = (&&_iff (equal (take 12 b) v4_in_v6_prefix) (equal a (drop 12 b))).0 h in
      ap (λ (l : List ℕ). v4_in_v6_prefix ++ l) (equal→eq a _ back)
      ∙ sym (prefix_cut b (equal→eq _ _ front)),
  λ e.
      (&&_iff (equal (take 12 b) v4_in_v6_prefix) (equal a (drop 12 b))).1
        ((equal_iff _ _).1 (ap (take 12) (sym e)), (equal_iff _ _).1 (ap (drop 12) e)),
)

-- On addresses of 4 or 16 bytes `IP.Equal` holds exactly if the 16-byte forms are the same.
pub ip_equal_iff : (a b : List ℕ) → IsIp a → IsIp b → (ip_equal a b ≡ true) ↔ (to_16 a ≡ to_16 b)
unfolding ip_equal to_16
ip_equal_iff a b (inl x) (inl y) =
    rw (x, y)
      (
        λ h. ap (λ (l : List ℕ). v4_in_v6_prefix ++ l) ((equal_iff a b).0 h),
        λ e. (equal_iff a b).1 (ap (drop 12) e),
      )
ip_equal_iff a b (inl x) (inr y) = rw (x, y) (mapped_iff a b)
ip_equal_iff a b (inr x) (inl y) =
    rw (x, y)
      (rw (equal_comm (drop 12 a) b)
        (λ h. sym ((mapped_iff b a).0 h), λ e. (mapped_iff b a).1 (sym e)))
ip_equal_iff a b (inr x) (inr y) = rw (x, y) (equal_iff a b)
