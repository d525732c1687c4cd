-- ===== src/Latency/Range.antt =====
-- In which range the delays and the base stay.
use xbslink_ng.Base.{
  ℕ, ◌+◌, ◌-◌, ◌^◌, ◌<◌, ◌≤◌, ◌≡◌, refl, ap, ◌∙◌, arith, gt64, add64, sub64, negative,
  if◌then◌else◌,
}
use xbslink_ng.Latency.{
  LatencyConfig, moved_base, random_bound, delay, increase_base, decrease_base,
}

-- For a base and a jitter below 2^61 ns and a random number that `Int63n` can return, the delay lies
-- between the base less the jitter, or 0 where that is below 0, and the base plus the jitter.
pub delay_range :
    (c : LatencyConfig) (random : ℕ)
    → c.base < 2 ^ 61
    → c.jitter < 2 ^ 61
    → random < random_bound c
    → (c.base - c.jitter ≤ delay c random) × (delay c random ≤ c.base + c.jitter)
unfolding delay moved_base gt64 add64 sub64
delay_range c random hb hj hr = ground arith

sum_of : (b s : ℕ) → b < 2 ^ 61 → s < 2 ^ 61 → add64 b s ≡ b + s
unfolding add64
sum_of b s hb hs = omega arith

lowered :
    (b s : ℕ) → b < 2 ^ 62 → s < 2 ^ 61 → (if negative (sub64 b s) then 0 else sub64 b s) ≡ b - s
unfolding sub64
lowered b s hb hs = ground arith

-- For a base and a step below 2^61 ns a decrease never goes below 0, and an increase is undone by the
-- decrease after it; each returns the base that it has set.
pub base_steps :
    (c : LatencyConfig)
    → c.base < 2 ^ 61
    → c.step < 2 ^ 61
    → let (up, above) = increase_base c in
      let (down, below) = decrease_base c in
      (up.base ≡ above)
      × (above ≡ c.base + c.step)
      × (down.base ≡ below)
      × (below ≡ c.base - c.step)
      × ((decrease_base up).0 ≡ c)
unfolding increase_base decrease_base
base_steps c hb hs = (
  refl,
  sum_of c.base c.step hb hs,
  refl,
  lowered c.base c.step (omega arith) hs,
  ap (λ (b : ℕ). record c { base = b })
      (lowered (add64 c.base c.step) c.step (rw (sum_of c.base c.step hb hs) (omega arith)) hs
        ∙ rw (sum_of c.base c.step hb hs) (omega arith)),
)
