-- ===== src/Bridge/Rtt.antt =====
-- The statistics of internal/bridge/bridge.go. A `time.Duration` is the 64-bit pattern of its
-- nanoseconds.
pub mod Window
pub mod Spike
use xbslink_ng.Base.{
  ℕ, ◌≡◌, Bool, true, false, ◌&&◌, ◌||◌, not, List, [], ◌∷◌, ◌++◌, ltb, ◌==◌, if◌then◌else◌, length,
  get_or, drop, add64, sub64, div64, gt64, ◌*◌, ◌<◌, ◌^◌, ◌≤◌,
}

-- The pieces of float64 that the spike test uses; for durations below 2^53 ns it is exact.
pub record Float64 : Type 1 where
  pub Float : Type 0
  pub of_int64 : ℕ → Float
  pub times_half : Float → Float
  pub gtb : Float → Float → Bool
  pub exact :
      (x y : ℕ)
      → x < 2 ^ 53
      → y < 2 ^ 53
      → gtb (of_int64 x) (times_half (of_int64 y)) ≡ ltb y (2 * x)
  pub exact_negative :
      (x y : ℕ)
      → 2 ^ 63 ≤ x
      → x < 2 ^ 64
      → y < 2 ^ 53
      → gtb (of_int64 x) (times_half (of_int64 y)) ≡ false

pub record Stats : Type 0 where
  pub tx_packets : ℕ  -- uint64
  pub tx_bytes : ℕ  -- uint64
  pub rx_packets : ℕ  -- uint64
  pub rx_bytes : ℕ  -- uint64
  pub rtt_current : ℕ
  pub rtt_avg : ℕ
  pub rtt_samples : List ℕ
  pub rtt_sum : ℕ
  pub last_rtt : ℕ

-- `&Stats{}`
unfoldable pub no_stats : Stats
no_stats = record {
  tx_packets = 0;
  tx_bytes = 0;
  rx_packets = 0;
  rx_bytes = 0;
  rtt_current = 0;
  rtt_avg = 0;
  rtt_samples = [];
  rtt_sum = 0;
  last_rtt = 0;
}

abbrev pub max_samples : ℕ
max_samples = 20

unfoldable pub add_rtt_sample : Stats → ℕ → Stats
add_rtt_sample s rtt =
    let samples = s.rtt_samples ++ (rtt ∷ []) in
    let sum = add64 s.rtt_sum rtt in
    let full = ltb max_samples (length samples) in
    let samples' = if full then drop 1 samples else samples in
    let sum' = if full then sub64 sum (get_or samples 0 0) else sum in
    record s {
      rtt_current = rtt;
      rtt_samples = samples';
      rtt_sum = sum';
      rtt_avg = div64 sum' (length samples');
    }

unfoldable pub set_last_rtt : Stats → ℕ → Stats
set_last_rtt s rtt = record s { last_rtt = rtt }

-- Whether there is a spike, with the previous and the current RTT.
unfoldable pub check_rtt_spike : Float64 → Stats → Bool × ℕ × ℕ
check_rtt_spike f s =
    let current = s.rtt_current in
    let previous = s.last_rtt in
    if ltb (length s.rtt_samples) 2 || previous == 0
    then (false, 0, 0)
    else if gt64 previous 0
        && f.gtb (f.of_int64 (sub64 current previous)) (f.times_half (f.of_int64 previous))
    then (true, previous, current)
    else (false, 0, 0)
