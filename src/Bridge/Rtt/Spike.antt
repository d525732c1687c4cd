-- ===== src/Bridge/Rtt/Spike.antt =====
-- When an RTT counts as a spike.
use native.Mathlib.Decide.{dec_lt}
use xbslink_ng.Base.{
  ℕ, sym, ap, ◌∙◌, ◌-◌, le→ltb, ◌*◌, ◌^◌, ◌<◌, ◌≤◌, ◌≡◌, ◌↔◌, true, arith, ltb, length, sub64, gt64,
}
use xbslink_ng.Bridge.Rtt.{Stats, Float64, check_rtt_spike}

sub64_above : (c l : ℕ) → c < 2 ^ 53 → l ≤ c → sub64 c l ≡ c - l
unfolding sub64
sub64_above c l hc h = omega arith

sub64_below : (c l : ℕ) → l < 2 ^ 53 → c < l → (2 ^ 63 ≤ sub64 c l) × (sub64 c l < 2 ^ 64)
unfolding sub64
sub64_below c l hl h = omega arith

spike_test :
    (f : Float64) (c l : ℕ)
    → c < 2 ^ 53
    → l < 2 ^ 53
    → f.gtb (f.of_int64 (sub64 c l)) (f.times_half (f.of_int64 l)) ≡ ltb (3 * l) (2 * c)
spike_test f c l hc hl = elim (dec_lt c l) [
  | yes below ↦
      let (lo, hi) = sub64_below c l hl below in
      f.exact_negative (sub64 c l) l lo hi hl ∙ sym (le→ltb _ _ (omega arith))
  | no above ↦
      ap (λ (d : ℕ). f.gtb (f.of_int64 d) (f.times_half (f.of_int64 l)))
        (sub64_above c l hc (omega arith))
      ∙ f.exact (c - l) l (omega arith) hl
      ∙ scaled
]
  where
    scaled : ltb l (2 * (c - l)) ≡ ltb (3 * l) (2 * c)
    scaled = ground arith

-- A spike is reported exactly if there are two samples, the last RTT is not 0, and the current one
-- is more than half as much again, for RTTs below 2^53 ns (104 days).
pub check_rtt_spike_iff :
    (f : Float64) (s : Stats)
    → s.rtt_current < 2 ^ 53
    → s.last_rtt < 2 ^ 53
    → ((check_rtt_spike f s).0 ≡ true)
      ↔ ((2 ≤ length s.rtt_samples) × (0 < s.last_rtt) × (3 * s.last_rtt < 2 * s.rtt_current))
unfolding check_rtt_spike gt64
check_rtt_spike_iff f s hc hl = (
  λ h. ground (arith, spike_test f s.rtt_current s.last_rtt hc hl),
  λ h. ground (arith, spike_test f s.rtt_current s.last_rtt hc hl),
)
