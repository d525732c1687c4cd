-- ===== src/Latency.antt =====
-- test/e2e/xbox-sim/latency.go: the delay that the simulator adds. A duration is the 64-bit pattern of
-- its nanoseconds; what `Int63n` returns is an argument.
pub mod Range
mod Tests
use xbslink_ng.Base.{ℕ, ◌+◌, ◌*◌, ◌%◌, ◌^◌, ltb, gt64, add64, sub64, negative, if◌then◌else◌}

pub record LatencyConfig : Type 0 where
  pub base : ℕ
  pub jitter : ℕ
  pub step : ℕ

-- `base`, moved by `-jitter` plus the random number where there is a jitter.
unfoldable pub moved_base : LatencyConfig → ℕ → ℕ
moved_base c random =
    if gt64 c.jitter 0 then add64 c.base (add64 (sub64 0 c.jitter) random) else c.base

-- The bound that `Int63n` is called with.
abbrev pub random_bound : LatencyConfig → ℕ
random_bound c = 2 * c.jitter + 1

unfoldable pub delay : LatencyConfig → ℕ → ℕ
unfolding moved_base
delay c random = if negative (moved_base c random) then 0 else moved_base c random

unfoldable pub increase_base : LatencyConfig → LatencyConfig × ℕ
increase_base c = let base = add64 c.base c.step in (record c { base = base }, base)

unfoldable pub decrease_base : LatencyConfig → LatencyConfig × ℕ
decrease_base c =
    let lower = sub64 c.base c.step in
    let base = if negative lower then 0 else lower in (record c { base = base }, base)
