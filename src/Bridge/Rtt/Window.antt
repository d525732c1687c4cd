-- ===== src/Bridge/Rtt/Window.antt =====
-- The sliding window of the last 20 samples.
use xbslink_ng.Base.{
  append-nil, append_assoc, sizes, ℕ, zero, suc, ◌+◌, ◌-◌, ◌*◌, ◌/◌, ◌%◌, ◌^◌, ◌≤◌, ◌<◌, ◌≡◌, refl,
  ap, sym, ◌∙◌, true, false, List, [], ◌∷◌, ◌++◌, arith, All, length, get_or, drop, ltb, add64,
  sub64, div64, length-append, length-drop, drop-drop, All-append, All-drop, lt→ltb, le→ltb,
  if_false,
}
use Prim.Native.Nat.{min}
use native.Mathlib.Decide.{dec_lt}
use xbslink_ng.Bridge.Rtt.{Stats, no_stats, add_rtt_sample, max_samples}

abbrev pub total : List ℕ → ℕ
total [] = 0
total (x ∷ xs) = x + total xs

abbrev pub latest : ℕ → List ℕ → List ℕ
latest n xs = drop (length xs - n) xs

pub add_rtt_samples : Stats → List ℕ → Stats
add_rtt_samples s [] = s
add_rtt_samples s (x ∷ xs) = add_rtt_samples (add_rtt_sample s x) xs

total-append : (xs ys : List ℕ) → total (xs ++ ys) ≡ total xs + total ys
total-append [] ys = omega arith
total-append (x ∷ xs) ys = omega (arith, total-append xs ys)

-- What the fields say of all samples so far.
pub record IsWindow (seen : List ℕ) (s : Stats) : Type 0 where
  pub samples : s.rtt_samples ≡ latest max_samples seen
  pub sum : s.rtt_sum ≡ total s.rtt_samples % 2 ^ 64
  pub average : 0 < length seen → s.rtt_avg ≡ div64 s.rtt_sum (length s.rtt_samples)
  pub fits : All (λ x. x < 2 ^ 64) s.rtt_samples

drop-append_le : (n : ℕ) (xs ys : List ℕ) → n ≤ length xs → drop n (xs ++ ys) ≡ drop n xs ++ ys
drop-append_le zero xs ys h = refl
drop-append_le (suc n) [] ys h = absurd (omega arith)
drop-append_le (suc n) (x ∷ xs) ys h = drop-append_le n xs ys (omega arith)

-- The sum after one more sample, and after the first is given up.
sum_more :
    (l : List ℕ) (s x : ℕ) → s ≡ total l % 2 ^ 64 → add64 s x ≡ total (l ++ (x ∷ [])) % 2 ^ 64
unfolding add64
sum_more l s x e = omega (arith, total-append l (x ∷ []))

sum_less :
    (l : List ℕ) (s : ℕ)
    → 0 < length l
    → All (λ x. x < 2 ^ 64) l
    → s ≡ total l % 2 ^ 64
    → sub64 s (get_or l 0 0) ≡ total (drop 1 l) % 2 ^ 64
unfolding sub64
sum_less [] s h f e = absurd (omega arith)
sum_less (y ∷ ys) s h f e = omega arith

window_full :
    (seen : List ℕ) (x : ℕ)
    → max_samples ≤ length seen
    → drop 1 (latest max_samples seen ++ (x ∷ [])) ≡ latest max_samples (seen ++ (x ∷ []))
window_full seen x h =
    ap (drop 1) (sym (drop-append_le (length seen - max_samples) seen (x ∷ []) (omega arith)))
    ∙ drop-drop 1 (length seen - max_samples) (seen ++ (x ∷ []))
    ∙ ap (λ (n : ℕ). drop n (seen ++ (x ∷ []))) end_lem
  where
    end_lem : length seen - max_samples + 1 ≡ length (seen ++ (x ∷ [])) - max_samples
    end_lem = grind sizes

window_open :
    (seen : List ℕ) (x : ℕ)
    → length seen < max_samples
    → latest max_samples seen ++ (x ∷ []) ≡ latest max_samples (seen ++ (x ∷ []))
window_open seen x h =
    sym (drop-append_le (length seen - max_samples) seen (x ∷ []) (omega arith))
    ∙ ap (λ (n : ℕ). drop n (seen ++ (x ∷ []))) end_lem
  where
    end_lem : length seen - max_samples ≡ length (seen ++ (x ∷ [])) - max_samples
    end_lem = grind sizes

pub length-latest : (n : ℕ) (xs : List ℕ) → length (latest n xs) ≡ min n (length xs)
length-latest n xs = omega (arith, length-drop (length xs - n) xs)

module _ (seen : List ℕ) (s : Stats) (x : ℕ) (hx : x < 2 ^ 64) (w : IsWindow seen s) where
  abbrev grown : List ℕ
  grown = s.rtt_samples ++ (x ∷ [])

  length-grown : length grown ≡ min max_samples (length seen) + 1
  length-grown =
      length-append s.rtt_samples (x ∷ [])
      ∙ ap (λ (l : List ℕ). length l + 1) w.samples
      ∙ ap (λ (n : ℕ). n + 1) (length-latest max_samples seen)

  grown_fits : All (λ x. x < 2 ^ 64) grown
  grown_fits = All-append (λ x. x < 2 ^ 64) s.rtt_samples (x ∷ []) w.fits (hx, tt)

  add_full : max_samples ≤ length seen → IsWindow (seen ++ (x ∷ [])) (add_rtt_sample s x)
  unfolding add_rtt_sample
  add_full h =
      let full : ltb max_samples (length grown) ≡ true = lt→ltb _ _ (omega (arith, length-grown)) in
      rw full (record {
        samples = ap (λ (l : List ℕ). drop 1 (l ++ (x ∷ []))) w.samples ∙ window_full seen x h;
        sum =
            sum_less grown _ (omega (arith, length-grown)) grown_fits
              (sum_more s.rtt_samples s.rtt_sum x w.sum);
        average = λ _. refl;
        fits = All-drop (λ x. x < 2 ^ 64) 1 grown grown_fits;
      })

  add_open : length seen < max_samples → IsWindow (seen ++ (x ∷ [])) (add_rtt_sample s x)
  unfolding add_rtt_sample
  add_open h =
      let open_window : ltb max_samples (length grown) ≡ false =
        le→ltb _ _ (omega (arith, length-grown)) in
      rw open_window (record {
        samples = ap (λ (l : List ℕ). l ++ (x ∷ [])) w.samples ∙ window_open seen x h;
        sum = sum_more s.rtt_samples s.rtt_sum x w.sum;
        average = λ _. refl;
        fits = grown_fits;
      })

  pub add_rtt_sample-IsWindow : IsWindow (seen ++ (x ∷ [])) (add_rtt_sample s x)
  add_rtt_sample-IsWindow = elim (dec_lt (length seen) max_samples) [
    | yes h ↦ add_open h
    | no h ↦ add_full (omega arith)
  ]

add_rtt_samples-IsWindow :
    (seen xs : List ℕ) (s : Stats)
    → All (λ x. x < 2 ^ 64) xs
    → IsWindow seen s
    → IsWindow (seen ++ xs) (add_rtt_samples s xs)
unfolding add_rtt_samples
add_rtt_samples-IsWindow seen [] s h w = rw append-nil w
add_rtt_samples-IsWindow seen (x ∷ xs) s h w = rw append_assoc at (
    add_rtt_samples-IsWindow (seen ++ (x ∷ [])) xs (add_rtt_sample s x) h.1
      (add_rtt_sample-IsWindow seen s x h.0 w))

no_stats-IsWindow : IsWindow [] no_stats
unfolding no_stats
no_stats-IsWindow = record {
  samples = refl;
  sum = refl;
  average = λ h. absurd (omega arith);
  fits = tt;
}

total-le : (bound : ℕ) (xs : List ℕ) → All (λ x. x ≤ bound) xs → total xs ≤ length xs * bound
total-le bound [] h = omega arith
total-le bound (x ∷ xs) h = omega (arith, total-le bound xs h.1)

All-weaken :
    (bound : ℕ) (xs : List ℕ) → bound < 2 ^ 64 → All (λ x. x ≤ bound) xs → All (λ x. x < 2 ^ 64) xs
All-weaken bound [] h a = tt
All-weaken bound (x ∷ xs) h a = (omega arith, All-weaken bound xs h a.1)

div_bound : (t n bound : ℕ) → 0 < n → t ≤ n * bound → t / n ≤ bound
div_bound t n bound pos h = grind arith

div64_small : (t n : ℕ) → t < 2 ^ 63 → div64 (t % 2 ^ 64) n ≡ t / n
unfolding div64
div64_small t n h = rw small (if_false _ _ (le→ltb (2 ^ 63 - 1) t (omega arith)))
  where
    small : t % 2 ^ 64 ≡ t
    small = omega arith

small_total : (t n bound : ℕ) → n ≤ 20 → t ≤ n * bound → 20 * bound < 2 ^ 63 → t < 2 ^ 63
small_total t n bound hn ht h = grind arith

-- After any series of samples that are at most `bound`, 20 times which is below 2^63, the window holds the last 20 of
-- them (or all, if there are fewer), and the average is their sum divided by their number, rounded
-- down, and so at most `bound`.
pub rtt_window :
    (bound : ℕ) (xs : List ℕ)
    → 20 * bound < 2 ^ 63
    → 0 < length xs
    → All (λ x. x ≤ bound) xs
    → let s = add_rtt_samples no_stats xs in
      let recent = latest max_samples xs in
      (s.rtt_samples ≡ recent) × (s.rtt_avg ≡ total recent / length recent) × (s.rtt_avg ≤ bound)
rtt_window bound xs small pos h = (
  w.samples,
  avg,
  rw avg (
      div_bound (total recent) (length recent) bound (omega (arith, length-latest max_samples xs))
        sum_le),
)
  where
    recent : List ℕ
    recent = latest max_samples xs

    w : IsWindow xs (add_rtt_samples no_stats xs)
    w =
        add_rtt_samples-IsWindow [] xs no_stats (All-weaken bound xs (omega arith) h)
          no_stats-IsWindow

    sum_le : total recent ≤ length recent * bound
    sum_le = total-le bound recent (All-drop (λ x. x ≤ bound) (length xs - max_samples) xs h)

    avg : (add_rtt_samples no_stats xs).rtt_avg ≡ total recent / length recent
    avg =
        w.average pos
        ∙ ap (λ (t : ℕ). div64 t (length (add_rtt_samples no_stats xs).rtt_samples)) w.sum
        ∙ ap (λ (l : List ℕ). div64 (total l % 2 ^ 64) (length l)) w.samples
        ∙ div64_small (total recent) (length recent) (
            small_total (total recent) (length recent) bound
              (omega (arith, length-latest max_samples xs)) sum_le small)
