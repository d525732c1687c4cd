-- ===== src/Latency/Tests.antt =====
-- 50 ms with a jitter of 80 ms.
use xbslink_ng.Latency.{LatencyConfig}

abbrev slow : LatencyConfig
slow = record { base = 50_000_000; jitter = 80_000_000; step = 10_000_000 }
